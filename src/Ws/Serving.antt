-- ===== src/Ws/Serving.antt =====
-- The end of StartWSServer of executorws/executorws.go: two goroutines, one that listens to the
-- channel of new orders and one that listens for connections, each with a channel for its error, and
-- the select that waits for the first error. Both closures assign, test and send the variable `err`
-- of StartWSServer, which they share; each access of it is a step of its own.
pub mod Founded
pub mod Ends
pub mod Lost
use d8x_broker_server.Base.{◌≡◌, List, [], ◌∷◌, ◌++◌, Option, none, some}
use d8x_broker_server.Text.{Text, codes}

-- A goroutine, with the result of its call once the call has returned: its call has not returned;
-- the result is assigned to `err`; the test has found `err` not nil; it waits to send the value of
-- `err` that it has read; this is sent; or the test has found `err` nil, and it is over.
pub data Server : Type 0 where
  serving : Server
  assigned passed : Option Text → Server
  offering reported : Option Text → Option Text → Server
  closed : Option Text → Server

-- The test `err != nil`, with the value that `err` has by then.
unfoldable pub after_test : Option Text → Option Text → Server
after_test o none = closed o
after_test o (some e) = passed o

-- `err` is the shared variable, `result` what StartWSServer has returned: nothing yet, or its error,
-- which is nil; `logged` is what the select has logged.
pub record WsMain : Type 0 where
  pub err : Option Text
  pub redis : Server
  pub http : Server
  pub result : Option (Option Text)
  pub logged : List Text

unfoldable pub ws_main : WsMain
ws_main = record { err = none; redis = serving; http = serving; result = none; logged = [] }

-- The line for the value that the select has received.
unfoldable pub terminated : Text → Option Text → Text
terminated name (some e) = name ++ codes " terminated:" ++ e
terminated name none = name ++ codes " terminated"

-- The select: the value is logged, and nil returned.
unfoldable pub select_redis : Option Text → Option Text → WsMain → WsMain
unfolding terminated
select_redis o v s = record s {
  redis = reported o v;
  result = some none;
  logged = terminated (codes "REDIS") v ∷ s.logged;
}

unfoldable pub select_http : Option Text → Option Text → WsMain → WsMain
unfolding terminated
select_http o v s = record s {
  http = reported o v;
  result = some none;
  logged = terminated (codes "WS") v ∷ s.logged;
}

pub data MainStep (s : WsMain) : WsMain → Type 0 where
  redis_returns :
      (o : Option Text) → s.redis ≡ serving → MainStep s (record s { err = o; redis = assigned o })
  redis_tests :
      (o : Option Text)
      → s.redis ≡ assigned o
      → MainStep s (record s { redis = after_test o s.err })
  redis_reads :
      (o : Option Text) → s.redis ≡ passed o → MainStep s (record s { redis = offering o s.err })
  redis_reports :
      (o v : Option Text)
      → s.redis ≡ offering o v
      → s.result ≡ none
      → MainStep s (select_redis o v s)
  http_returns :
      (o : Option Text) → s.http ≡ serving → MainStep s (record s { err = o; http = assigned o })
  http_tests :
      (o : Option Text) → s.http ≡ assigned o → MainStep s (record s { http = after_test o s.err })
  http_reads :
      (o : Option Text) → s.http ≡ passed o → MainStep s (record s { http = offering o s.err })
  http_reports :
      (o v : Option Text) → s.http ≡ offering o v → s.result ≡ none → MainStep s (select_http o v s)

pub data MainReach : WsMain → Type 0 where
  start : MainReach ws_main
  next : {s t : WsMain} → MainReach s → MainStep s t → MainReach t
