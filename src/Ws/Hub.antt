-- ===== src/Ws/Hub.antt =====
-- The connections of executorws/executorws.go: HandleWs starts readPump and writePump for each one,
-- and the pumps of all connections run side by side. A step is one turn of one loop: a message that
-- is read and handled, a read or a ping that fails, the end of the ping loop. The writes of a
-- response stand in Ws/Session.
pub mod Live
use d8x_broker_server.Base.{
  ℕ, ◌≡◌, Bool, true, false, [], Option, none, some, Map, lookup, insert, ℤ,
}
use d8x_broker_server.Text.{Text, text_eq}
use d8x_broker_server.Orders.{ChainConfig}
use d8x_broker_server.Ws.Subs.{
  Subscriptions, ClientMessage, new_server, handle_request, remove_client,
}

-- A connection, and whether the loops of readPump and writePump run. The channel `done` is closed
-- when the loop of readPump is left.
pub record Session : Type 0 where
  pub conn : ℕ
  pub reading : Bool
  pub pinging : Bool

-- Every connection there has been, under its client id, and the subscriptions of the server.
pub record Hub : Type 0 where
  pub sessions : Map Text Session
  pub subs : Subscriptions

unfoldable pub new_hub : Hub
new_hub = record { sessions = []; subs = new_server }

-- HandleWs on an upgraded connection, up to the start of the pumps.
unfoldable pub handle_ws : ℕ → Text → Hub → Hub
handle_ws conn client_id h = record h {
  sessions = insert client_id (record { conn = conn; reading = true; pinging = true }) h.sessions;
}

-- readPump: a message is read.
unfoldable pub read_message : Map ℤ ChainConfig → Text → Session → Option ClientMessage → Hub → Hub
read_message config client_id s m h = record h {
  subs = (handle_request config s.conn client_id m h.subs).1;
}

-- readPump: ReadMessage fails.
unfoldable pub read_error : Text → Session → Hub → Hub
read_error client_id s h = record {
  sessions = insert client_id (record s { reading = false }) h.sessions;
  subs = remove_client client_id h.subs;
}

-- writePump: a ping fails.
unfoldable pub ping_error : Text → Session → Hub → Hub
ping_error client_id s h = record {
  sessions = insert client_id (record s { pinging = false }) h.sessions;
  subs = remove_client client_id h.subs;
}

-- writePump: `done` is closed.
unfoldable pub ping_done : Text → Session → Hub → Hub
ping_done client_id s h = record h {
  sessions = insert client_id (record s { pinging = false }) h.sessions;
}

-- A new client id is one that no connection has had.
pub data HubStep (config : Map ℤ ChainConfig) (h : Hub) : Hub → Type 0 where
  opened :
      (conn : ℕ) (client : Text)
      → lookup client h.sessions ≡ none
      → HubStep config h (handle_ws conn client h)
  message :
      (client : Text) (s : Session) (m : Option ClientMessage)
      → lookup client h.sessions ≡ some s
      → s.reading ≡ true
      → HubStep config h (read_message config client s m h)
  read_failed :
      (client : Text) (s : Session)
      → lookup client h.sessions ≡ some s
      → s.reading ≡ true
      → HubStep config h (read_error client s h)
  ping_failed :
      (client : Text) (s : Session)
      → lookup client h.sessions ≡ some s
      → s.pinging ≡ true
      → HubStep config h (ping_error client s h)
  ping_ended :
      (client : Text) (s : Session)
      → lookup client h.sessions ≡ some s
      → s.pinging ≡ true
      → s.reading ≡ false
      → HubStep config h (ping_done client s h)

pub data HubReach (config : Map ℤ ChainConfig) : Hub → Type 0 where
  none_yet : HubReach config new_hub
  later : {g h : Hub} → HubReach config g → HubStep config g h → HubReach config h
