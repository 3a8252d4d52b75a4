-- ===== src/Tests/Together.antt =====
-- Runs of code that goes on side by side: the goroutines of handleOrderId, and calls of ApproveToken.
use d8x_broker_server.Base.{
  ◌≡◌, refl, ◌↔◌, ◌⊎◌, none, some, [], ◌∷◌, pos, arith, lookup, insert, int_eq, ◌-◌, ◌^◌,
}
use d8x_broker_server.Text.{codes, text_eq}
use d8x_broker_server.Ws.Subs.{ack}
use d8x_broker_server.Ws.Notify.{Write}
use d8x_broker_server.Ws.Notify.Send.{
  Sender, writing, finishing, finished, Round, new_round, spawn, send_with_wait, RoundStep, spawns,
  sends, RoundReach, next,
}
use d8x_broker_server.Ws.Notify.Send
use d8x_broker_server.Ws.Notify.Send.Waited.{Sends, RoundReach-Sends}
use d8x_broker_server.Api.Token.{
  approved, approval_key, approve_on_chain, send_approval, approve_tx,
}
use d8x_broker_server.Pen.{config_at}
use d8x_broker_server.Sdk.{Approve}
use d8x_broker_server.Api.Token.Together.{
  testing, trying, recording, answered, call_turn, Calls, CallReach, comes, goes, AreJust,
  CallReach-AreJust,
}
use d8x_broker_server.Api.Token.Together
use d8x_broker_server.Ws.Serving.{
  serving, reported, WsMain, ws_main, after_test, select_redis, terminated, MainReach,
  redis_returns, redis_tests, redis_reads, redis_reports,
}
use d8x_broker_server.Ws.Serving.Ends.{IsWaiting, IsStuck, IsClosed, Reports, MainReach-Returns}
use d8x_broker_server.Ws.Serving
use d8x_broker_server.Tests.Data.{toy, pen, connect, address}

-- Two writes; the second goroutine is started before the first one has written.
abbrev one : Write
one = (1, record { type = codes "update"; topic = codes "100000:1101"; body = ack })

abbrev two : Write
two = (2, record { type = codes "update"; topic = codes "100000:1101"; body = ack })

abbrev both_started : Round
both_started = spawn two [] (spawn one (two ∷ []) (new_round (one ∷ two ∷ [])))

both_started-RoundReach : RoundReach (one ∷ two ∷ []) both_started
unfolding new_round spawn
both_started-RoundReach = next (next Send.start (spawns one (two ∷ []) refl)) (spawns two [] refl)

RoundReach-Sends_example : Sends (one ∷ two ∷ []) both_started
RoundReach-Sends_example = RoundReach-Sends both_started-RoundReach

-- Two calls for one token, and the newer one takes a turn.
abbrev two_calls : Calls
two_calls = record {
  calls = testing (pos 1101) (address 6) ∷ testing (pos 1101) (address 6) ∷ [];
  ts = [];
  sent = [];
}

abbrev tested : Calls
tested = record {
  calls = trying (pos 1101) (address 6) ∷ testing (pos 1101) (address 6) ∷ [];
  ts = [];
  sent = [];
}

two_calls-CallReach : CallReach toy pen two_calls
two_calls-CallReach = comes (pos 1101) (address 6) (comes (pos 1101) (address 6) Together.start)

tested-CallReach : CallReach toy pen tested
unfolding call_turn lookup
tested-CallReach =
    goes [] (testing (pos 1101) (address 6) ∷ []) (testing (pos 1101) (address 6)) connect 1000000
      (omega arith) refl two_calls-CallReach

abbrev asked : Approve
asked = record {
  token = address 6;
  spender = address 3;
  value = 2 ^ 256 - 1;
  nonce = 7;
  gas_limit = 0;
  gas_price = 150;
}

abbrev told : Calls
told = record {
  calls = answered (pos 1101) (address 6) approved ∷ testing (pos 1101) (address 6) ∷ [];
  ts = (approval_key toy (pos 1101) (address 6), 1000010) ∷ [];
  sent =
      record { chain_id = pos 1101; token = address 6; result = approved; sent = asked ∷ [] } ∷ [];
}

told-CallReach : CallReach toy pen told
unfolding call_turn lookup insert approve_on_chain send_approval approve_tx config_at
told-CallReach =
    goes [] (testing (pos 1101) (address 6) ∷ []) (recording (pos 1101) (address 6)) connect 1000010
      (omega arith) refl
      (goes [] (testing (pos 1101) (address 6) ∷ []) (trying (pos 1101) (address 6)) connect 1000005
        (omega arith) refl tested-CallReach)

CallReach-AreJust_example : AreJust toy pen told
CallReach-AreJust_example = CallReach-AreJust toy pen told-CallReach

-- The subscription to Redis fails, and its error is received.
abbrev redis_failed : WsMain
redis_failed = record {
  err = some (codes "EOF");
  redis = reported (some (codes "EOF")) (some (codes "EOF"));
  http = serving;
  result = some none;
  logged = codes "REDIS terminated:EOF" ∷ [];
}

redis_failed-MainReach : MainReach redis_failed
unfolding ws_main after_test select_redis terminated
redis_failed-MainReach =
    Serving.next
      (Serving.next
        (Serving.next (Serving.next Serving.start (redis_returns (some (codes "EOF")) refl))
          (redis_tests (some (codes "EOF")) refl))
        (redis_reads (some (codes "EOF")) refl))
      (redis_reports (some (codes "EOF")) (some (codes "EOF")) refl refl)

MainReach-Returns_example :
    (IsWaiting redis_failed
      × (IsStuck redis_failed ↔ (IsClosed redis_failed.redis × IsClosed redis_failed.http)))
    ⊎ ((redis_failed.result ≡ some none)
        × (Reports redis_failed redis_failed.redis redis_failed.http (codes "REDIS")
            ⊎ Reports redis_failed redis_failed.http redis_failed.redis (codes "WS")))
MainReach-Returns_example = MainReach-Returns redis_failed-MainReach
