-- ===== src/Ws/Session.antt =====
-- readPump of executorws/executorws.go: the messages that are read on a connection until a read
-- fails, and the removal of the client at the end. The session of one connection runs by itself
-- here. What is sent on the connection is the list of the responses.
pub mod Removed
use d8x_broker_server.Base.{ℕ, List, [], ◌∷◌, ◌++◌, Option, Map, ℤ}
use d8x_broker_server.Text.{Text}
use d8x_broker_server.Orders.{ChainConfig}
use d8x_broker_server.Ws.Subs.{
  Subscriptions, ClientMessage, ServerResponse, handle_request, remove_client,
}

unfoldable pub read_pump :
    Map ℤ ChainConfig
    → ℕ
    → Text
    → List (Option ClientMessage)
    → Subscriptions
    → List ServerResponse × Subscriptions
read_pump config conn client_id [] subs = ([], remove_client client_id subs)
read_pump config conn client_id (message ∷ more) subs =
    let (sent, subs') = handle_request config conn client_id message subs in
    let (rest, subs'') = read_pump config conn client_id more subs' in (sent ++ rest, subs'')
