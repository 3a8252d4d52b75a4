-- ===== src/Ws/Serving/Lost.antt =====
-- An error that StartWSServer loses, and one that it logs for the wrong server: both goroutines use
-- one `err`.
use d8x_broker_server.Base.{Option, none, []}
use d8x_broker_server.Text.{Text}
use d8x_broker_server.Ws.Serving.{closed, WsMain}

-- Both goroutines are over, and StartWSServer waits.
abbrev pub over_with : Option Text → Option Text → WsMain
over_with o p = record { err = none; redis = closed o; http = closed p; result = none; logged = [] }
