-- ===== src/Ws/Hub/Live.antt =====
-- Every subscription is one of a connection that is still read from.
use d8x_broker_server.Base.{
  ℕ, ◌≡◌, ◌≢◌, sym, ◌∙◌, ap, subst, ◌⊎◌, inl, inr, true, false, ◌==◌, Option, none, some, Map,
  lookup, insert, lookup-insert, ℤ, Bool-cases, arith,
}
use d8x_broker_server.Text.{Text, text_eq, text_beq_iff, codes, to_lower, trim_space}
use d8x_broker_server.Orders.{ChainConfig}
use d8x_broker_server.Ws.Subs.{
  Subscriptions, ClientMessage, new_server, handle_request, remove_client, subscribe_orders,
}
use d8x_broker_server.Ws.Subs.Requests.{
  subscriber, joined, left, subscribe_orders-Subscribed, unsubscribe_orders-left,
  remove_client-none,
}
use d8x_broker_server.Ws.Subs.Invariant.{IsWellFormed, Step-IsWellFormed, Reach-IsWellFormed}
use d8x_broker_server.Ws.Subs.Invariant
use d8x_broker_server.Ws.Hub.{
  Session, Hub, new_hub, handle_ws, read_message, read_error, ping_error, ping_done, HubStep,
  opened, message, read_failed, ping_failed, ping_ended, HubReach, none_yet, later,
}

-- Who stands in the table behind a message: a client that stood there, or the client of the message
-- with its connection.
abbrev Stood : ℕ → Text → Subscriptions → Text → Text → ℕ → Type 0
Stood conn client subs t id c = (subscriber subs t id ≡ some c) ⊎ ((client ≡ id) × (conn ≡ c))

joined-Stood :
    (conn : ℕ) (client topic : Text) (subs : Subscriptions) (t id : Text) (c : ℕ)
    → joined subs topic client conn t id ≡ some c
    → Stood conn client subs t id c
joined-Stood conn client topic subs t id c h = ground (arith, text_beq_iff client id)

subscribe_orders-Stood :
    (config : Map ℤ ChainConfig) (conn : ℕ) (client topic : Text) (subs : Subscriptions)
    (t id : Text) (c : ℕ)
    → subscriber (subscribe_orders config conn client topic subs).1 t id ≡ some c
    → Stood conn client subs t id c
subscribe_orders-Stood config conn client topic subs t id c h =
    elim (subscribe_orders-Subscribed config conn client topic subs) [
      | inl (_, _, same) ↦ inl (sym (ap (λ s. subscriber s t id) same) ∙ h)
      | inr (inl (_, _, _, same)) ↦ inl (sym (ap (λ s. subscriber s t id) same) ∙ h)
      | inr (inr (_, _, _, grown)) ↦
          joined-Stood conn client topic subs t id c (sym (grown t id) ∙ h)
    ]

left-some :
    (subs : Subscriptions) (topic client t id : Text) (c : ℕ)
    → left subs topic client t id ≡ some c
    → subscriber subs t id ≡ some c
left-some subs topic client t id c h = ground arith

handle_request-Stood :
    (config : Map ℤ ChainConfig) (conn : ℕ) (client : Text) (m : Option ClientMessage)
    (subs : Subscriptions) (t id : Text) (c : ℕ)
    → subscriber (handle_request config conn client m subs).1 t id ≡ some c
    → Stood conn client subs t id c
unfolding handle_request
handle_request-Stood config conn client none subs t id c h = inl h
handle_request-Stood config conn client (some m) subs t id c h =
    let topic = trim_space (to_lower m.topic) in
    let type = trim_space (to_lower m.type) in
    let before : Type 0 = subscriber subs t id ≡ some c in
    elim (Bool-cases (type == codes "subscribe")) [
      | inl yes_sub ↦
          subscribe_orders-Stood config conn client topic subs t id c
            (rw (yes_sub, handle_request) at h)
      | inr no_sub ↦ elim (Bool-cases (type == codes "unsubscribe")) [
        | inl yes_un ↦
            let kept = unsubscribe_orders-left client topic subs t id in
            inl (
              left-some subs topic client t id c
                (sym kept ∙ (rw (no_sub, yes_un, handle_request) at h)))
        | inr no_un ↦ inl (rw (no_sub, no_un, handle_request) at h)
      ]
    ]

-- The connection that the session of the client reads from.
pub record IsRead (sessions : Map Text Session) (client : Text) (conn : ℕ) : Type 0 where
  pub session : Session
  pub known : lookup client sessions ≡ some session
  pub own : session.conn ≡ conn
  pub reads : session.reading ≡ true

other-IsRead :
    (sessions : Map Text Session) (client : Text) (s : Session) (id : Text) (conn : ℕ)
    → (client == id) ≡ false
    → IsRead sessions id conn
    → IsRead (insert client s sessions) id conn
other-IsRead sessions client s id conn other r = record {
  session = r.session;
  known = lookup-insert client id s sessions ∙ rw other r.known;
  own = r.own;
  reads = r.reads;
}

-- A client whose session is not one that is read has another id.
unread-other :
    (sessions : Map Text Session) (client : Text) (id : Text) (conn : ℕ)
    → (r : IsRead sessions id conn) → lookup client sessions ≢ some r.session
    → (client == id) ≡ false
unread-other sessions client id conn r unread = elim (Bool-cases (client == id)) [
  | inl same ↦
      let at : client ≡ id = (text_beq_iff client id).0 same in
      absurd (unread (ap (λ i. lookup i sessions) at ∙ r.known))
  | inr other ↦ other
]

-- A table in which every client is one whose connection is read from.
abbrev Table : Map Text Session → Subscriptions → Type 0
Table sessions subs =
    (topic client : Text) (conn : ℕ)
    → subscriber subs topic client ≡ some conn
    → IsRead sessions client conn

opened-Table :
    (sessions : Map Text Session) (subs : Subscriptions) (client : Text) (s : Session)
    → lookup client sessions ≡ none
    → Table sessions subs
    → Table (insert client s sessions) subs
opened-Table sessions subs client s fresh table topic id conn h =
    let r = table topic id conn h in
    other-IsRead sessions client s id conn
      (unread-other sessions client id conn r (λ e. cc (e, fresh))) r

-- A client whose session changes has left the table.
removed-Table :
    (sessions : Map Text Session) (subs : Subscriptions) (client : Text) (s : Session)
    → Table sessions subs
    → Table (insert client s sessions) (remove_client client subs)
removed-Table sessions subs client s table topic id conn h =
    let seen = sym (remove_client-none client subs topic id) ∙ h in
    elim (Bool-cases (client == id)) [
      | inl same ↦ cc (rw same at seen)
      | inr other ↦
          other-IsRead sessions client s id conn other (table topic id conn (rw other at seen))
    ]

message-Table :
    (config : Map ℤ ChainConfig) (sessions : Map Text Session) (subs : Subscriptions)
    (client : Text) (s : Session) (m : Option ClientMessage)
    → lookup client sessions ≡ some s
    → s.reading ≡ true
    → Table sessions subs
    → Table sessions (handle_request config s.conn client m subs).1
message-Table config sessions subs client s m known reads table topic id conn h =
    elim (handle_request-Stood config s.conn client m subs topic id conn h) [
      | inl before ↦ table topic id conn before
      | inr (same, own) ↦
          subst (λ i. IsRead sessions i conn) same
            (record { session = s; known = known; own = own; reads = reads })
    ]

-- The session of a client that is not read from is in no row.
ended-Table :
    (sessions : Map Text Session) (subs : Subscriptions) (client : Text) (s t : Session)
    → lookup client sessions ≡ some s
    → s.reading ≡ false
    → Table sessions subs
    → Table (insert client t sessions) subs
ended-Table sessions subs client s t known over table topic id conn h =
    let r = table topic id conn h in
    other-IsRead sessions client t id conn
      (unread-other sessions client id conn r (λ e.
        let same : s ≡ r.session = cc (e, known) in cc (ap (λ q. q.reading) same, over, r.reads)))
      r

module _ (config : Map ℤ ChainConfig) where
  -- The subscriptions are well-formed, and every client in them is one whose connection is read.
  pub record IsLive (h : Hub) : Type 0 where
    pub well_formed : IsWellFormed config h.subs
    pub read : Table h.sessions h.subs

  pub HubStep-IsLive : {g h : Hub} → HubStep config g h → IsLive g → IsLive h
  unfolding handle_ws read_message read_error ping_error ping_done
  HubStep-IsLive {g} (opened conn client fresh) live = record {
    well_formed = live.well_formed;
    read = opened-Table g.sessions g.subs client _ fresh live.read;
  }
  HubStep-IsLive {g} (message client s m known reads) live = record {
    well_formed = Step-IsWellFormed config (Invariant.message s.conn client m) live.well_formed;
    read = message-Table config g.sessions g.subs client s m known reads live.read;
  }
  HubStep-IsLive {g} (read_failed client s known reads) live = record {
    well_formed = Step-IsWellFormed config (Invariant.gone client) live.well_formed;
    read = removed-Table g.sessions g.subs client _ live.read;
  }
  HubStep-IsLive {g} (ping_failed client s known pings) live = record {
    well_formed = Step-IsWellFormed config (Invariant.gone client) live.well_formed;
    read = removed-Table g.sessions g.subs client _ live.read;
  }
  HubStep-IsLive {g} (ping_ended client s known pings over) live = record {
    well_formed = live.well_formed;
    read = ended-Table g.sessions g.subs client s _ known over live.read;
  }

  nobody : (topic client : Text) (conn : ℕ) → subscriber new_server topic client ≢ some conn
  unfolding new_server lookup
  nobody topic client conn h = ground arith

  pub new_hub-IsLive : IsLive new_hub
  unfolding new_hub
  new_hub-IsLive = record {
    well_formed = Reach-IsWellFormed config Invariant.start;
    read = λ topic client conn h. absurd (nobody topic client conn h);
  }

  -- After any interleaving of new connections, messages, failed reads and failed or ended pings
  -- of all connections: each topic stands once in the subscriptions, each client once under a
  -- topic, each topic with clients is one that isValidOrderTopic accepts, and each client that
  -- stands under a topic has a session whose connection is the one subscribed and whose readPump
  -- still runs.
  pub HubReach-IsLive : {h : Hub} → HubReach config h → IsLive h
  HubReach-IsLive none_yet = new_hub-IsLive
  HubReach-IsLive (later r st) = HubStep-IsLive st (HubReach-IsLive r)
