-- ===== src/Lib.antt =====
-- The D8X broker server: a REST service that signs orders and payments for a broker, and a websocket
-- service that tells executors of new orders. Both talk to one Redis server, and to nothing else of
-- each other's.
--
-- An order goes this way. A frontend posts it to SignOrder (src/api/handlers.go), which looks up the
-- trader's fee (src/api/fee.go), has the signature pen sign the order (src/utils/signatures.go), and
-- stores it in Redis under its id (PubOrder, src/utils/broker_types.go). Once the order is on chain, the
-- frontend posts the id to OrdersSubmitted; OrderSubmission then pushes the id on the stack of the
-- order's perpetual and chain, and publishes the stack's name. The websocket service receives the name
-- (handleNewOrder, src/executorws/server.go), pops all ids off the stack, and sends the stored orders to
-- the clients that have subscribed to that name. Executors also post payments to SignPayment, which
-- checks who asks and for what, approves the token on chain (ApproveToken, src/api/api.go), and signs.
--
-- Files and what they model:
--   Base, Text, Decimal, Hex: Go's integers, maps, strings, strconv, strings and encoding/hex, as far
--     as the services use them. Machine integers wrap at their width; a map is an association list,
--     whose order stands for the order in which a range loop meets the keys.
--   Redis: the server as an interface. Redis/Documented says what each command does, Redis/Memory is
--     a server that meets the interface, Redis/Connected assumes that every answer arrives.
--   Eth, Sdk: addresses, and the functions of go-ethereum and of the futures SDK, as parameters.
--   Orders: src/utils/broker_types.go. check_data, pub_order and order_submission are CheckData,
--     PubOrder and OrderSubmission.
--   Fee: src/api/fee.go. vip3_to_fee_map, get_vip3_level and get_broker_fee_tbps are vip3ToFeeMap,
--     GetVip3Level and getBrokerFeeTbps. They take the answer of RestGetVip3Level as a parameter;
--     rest_get_vip3_level is that function.
--   Pen: src/utils/signatures.go without the key file. SignaturePen is the record of the same name.
--   Api: App and the handlers of src/api/handlers.go, ApproveToken with its cache and what it sends
--     (Api/Token), NewApp (Api/Start), and RegisterRoutes of src/api/routes.go (Api/Routes), where
--     serve is the whole answer to a request.
--   Ws: src/executorws/server.go. Ws/Topic is isValidOrderTopic, Ws/Subs the subscriptions
--     (Ws/Subs/Table: what they should be), and Ws/Notify handleNewOrder and handleOrderId. Of
--     src/executorws/executorws.go, Ws/Session is readPump on one connection, Ws/Hub the pumps of all
--     connections side by side, and Ws/Serving the two goroutines of StartWSServer with the `err` that
--     they share, access by access, and its select.
--   Setup: the key file (src/utils/file_things.go with Encrypt and Decrypt), the key of its cipher
--     (cmd/keygen/main.go), LoadChainConfig and LoadRpcConfig of src/utils/config.go, and
--     CreateRpcClient of src/utils/utils.go (Setup/Dial).
--   Service: src/svc/svc.go and src/env. Service/Env is loadEnv over the settings library, an
--     interface; Service/Run has RunBroker and RunExecutorWs up to the start of the server.
--   System: both services and Redis together. System/Reach has the steps: a request that serve
--     answers, a turn of a websocket loop, a run of handleNewOrder on the next message of the
--     channel, the end of a key. System/Clean says what each kind of key holds, System/Waiting which
--     messages are still to be received.
--   System/Tasks: the handlers of the REST service as the commands that they send to Redis
--     (Redis/Prog), for the same Go functions as Orders, Fee, Pen and Api: announce_task and
--     submission_task are OrderSubmission, store_task is PubOrder, level_task GetVip3Level, sign_task
--     SignOrder, serve_task a request.
--   System/Turns: both services command by command. A state holds the requests under work and the runs
--     of handleNewOrder; a turn is one command of one request, one step of one run (LPOP, HGETALL, or
--     the loop over the subscribers), or a message that starts a run.
--   Tests: concrete runs.
--
-- State is passed explicitly: an operation on Redis takes a store and returns one, a handler takes the
-- App and returns one where it changes it. A panic is a value of its own (`panics`, `crashed`). Clock
-- readings, and the functions that dial a chain node, are arguments.
--
-- The loop of handleNewOrder runs until Redis has no id left, so handle_new_order takes fuel, one for
-- each round; with more fuel than the stack has ids it returns a result. CreateRpcClient ends after six
-- dials, so six rounds of fuel are enough. All other loops are over lists.
--
-- Not modelled: the JSON decoding and encoding of requests and responses, log lines (but for slices
-- that could panic, and the last line of StartWSServer), the HTTP and websocket libraries with their
-- timers, and the generated binding src/contracts/erc20.go. trim_space and to_lower are
-- strings.TrimSpace and strings.ToLower on ASCII; white space and upper case beyond ASCII are left
-- as they are. In System/Turns, what a handler does between two commands, a turn of a websocket
-- loop, and the loop of handleOrderId over the subscribers are each one step, and so is SignPayment,
-- which asks Redis for nothing; Ws/Notify/Send and Api/Token/Together have the goroutines of that
-- loop, and the calls of ApproveToken, side by side. The source takes no lock on its maps, and what
-- Go's maps do under concurrent access is not described. System/Turns lets any number of runs of
-- handleNewOrder go on at once.
pub mod Base
pub mod Text
pub mod Decimal
pub mod Redis
pub mod Hex
pub mod Eth
pub mod Orders
pub mod Ws
pub mod Fee
pub mod Sdk
pub mod Pen
pub mod Api
pub mod Tests
pub mod Setup
pub mod System
pub mod Service
