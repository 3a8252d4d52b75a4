-- ===== src/Ws/Serving/Founded.antt =====
-- What the two goroutines of StartWSServer and their shared `err` hold: the results of their calls.
use d8x_broker_server.Base.{◌≡◌, refl, sym, ◌∙◌, ap, subst, ◌⊎◌, inl, inr, Option, none, some}
use d8x_broker_server.Text.{Text}
use d8x_broker_server.Ws.Serving.{
  Server, serving, assigned, passed, offering, reported, closed, after_test, WsMain, ws_main,
  select_redis, select_http, MainStep, redis_returns, redis_tests, redis_reads, redis_reports,
  http_returns, http_tests, http_reads, http_reports, MainReach, start, next,
}

-- The result of the call of a goroutine, if it has returned.
abbrev pub outcome : Server → Option (Option Text)
outcome serving = none
outcome (assigned o) = some o
outcome (passed o) = some o
outcome (offering o v) = some o
outcome (reported o v) = some o
outcome (closed o) = some o

module _ (a b : Option (Option Text)) where
  -- A value is nil, or the result of one of the two calls.
  abbrev pub IsKnown : Option Text → Type 0
  IsKnown v = (v ≡ none) ⊎ (a ≡ some v) ⊎ (b ≡ some v)

  -- One of the two calls has returned with an error.
  abbrev pub HasErred : Type 0
  HasErred = (e : Text) × ((a ≡ some (some e)) ⊎ (b ≡ some (some e)))

  -- A goroutine that is past the test has an error behind it.
  abbrev pub IsFounded : Server → Type 0
  IsFounded serving = Unit
  IsFounded (assigned o) = Unit
  IsFounded (passed o) = HasErred
  IsFounded (offering o v) = HasErred × IsKnown v
  IsFounded (reported o v) = HasErred × IsKnown v
  IsFounded (closed o) = Unit

  after_test-IsFounded : (o v : Option Text) → IsKnown v → IsFounded (after_test o v)
  unfolding after_test
  after_test-IsFounded o none known = tt
  after_test-IsFounded o (some e) (inl nil) = cc nil
  after_test-IsFounded o (some e) (inr known) = (e, known)

after_test-outcome : (o v : Option Text) → outcome (after_test o v) ≡ some o
unfolding after_test
after_test-outcome o none = refl
after_test-outcome o (some e) = refl

-- Results stay.
abbrev Stays : Option (Option Text) → Option (Option Text) → Type 0
Stays a a' = (o : Option Text) → a ≡ some o → a' ≡ some o

module _ (a a' b b' : Option (Option Text)) (f : Stays a a') (g : Stays b b') where
  stays-IsKnown : (v : Option Text) → IsKnown a b v → IsKnown a' b' v
  stays-IsKnown v (inl nil) = inl nil
  stays-IsKnown v (inr (inl e)) = inr (inl (f v e))
  stays-IsKnown v (inr (inr e)) = inr (inr (g v e))

  stays-HasErred : HasErred a b → HasErred a' b'
  stays-HasErred (e, inl at) = (e, inl (f (some e) at))
  stays-HasErred (e, inr at) = (e, inr (g (some e) at))

  stays-IsFounded : (x : Server) → IsFounded a b x → IsFounded a' b' x
  stays-IsFounded serving h = tt
  stays-IsFounded (assigned o) h = tt
  stays-IsFounded (passed o) h = stays-HasErred h
  stays-IsFounded (offering o v) h = (stays-HasErred h.0, stays-IsKnown v h.1)
  stays-IsFounded (reported o v) h = (stays-HasErred h.0, stays-IsKnown v h.1)
  stays-IsFounded (closed o) h = tt

abbrev pub HasReported : Server → Type 0
HasReported x = (o : Option Text) × (v : Option Text) × (x ≡ reported o v)

pub after_test-unreported : (o v : Option Text) → ¬ HasReported (after_test o v)
unfolding after_test
after_test-unreported o none (p, w, h) = cc h
after_test-unreported o (some e) (p, w, h) = cc h

-- The shared variable and both goroutines have only what the calls have returned.
pub record AreFounded (s : WsMain) : Type 0 where
  pub err_known : IsKnown (outcome s.redis) (outcome s.http) s.err
  pub redis_founded : IsFounded (outcome s.redis) (outcome s.http) s.redis
  pub http_founded : IsFounded (outcome s.redis) (outcome s.http) s.http

-- A goroutine that goes on with the result `o` that it has.
same-Stays :
    (x y : Server) (o : Option Text)
    → outcome x ≡ some o
    → outcome y ≡ some o
    → Stays (outcome x) (outcome y)
same-Stays x y o e f p at = f ∙ sym e ∙ at

new-Stays : (x y : Server) → x ≡ serving → Stays (outcome x) (outcome y)
new-Stays x y at p known = cc (ap outcome at, known)

own-Stays : (x : Server) → Stays (outcome x) (outcome x)
own-Stays x o e = e

module _ {s : WsMain} (known : AreFounded s) (y : Server) (o : Option Text) where
  redis_starts : s.redis ≡ serving → AreFounded (record s { err = o; redis = assigned o })
  redis_starts at = record {
    err_known = inr (inl refl);
    redis_founded = tt;
    http_founded =
        stays-IsFounded (outcome s.redis) (some o) (outcome s.http) (outcome s.http)
          (new-Stays s.redis (assigned o) at) (own-Stays s.http) s.http known.http_founded;
  }

  http_starts : s.http ≡ serving → AreFounded (record s { err = o; http = assigned o })
  http_starts at = record {
    err_known = inr (inr refl);
    redis_founded =
        stays-IsFounded (outcome s.redis) (outcome s.redis) (outcome s.http) (some o)
          (own-Stays s.redis) (new-Stays s.http (assigned o) at) s.redis known.redis_founded;
    http_founded = tt;
  }

  redis_goes :
      outcome s.redis ≡ some o
      → outcome y ≡ some o
      → IsFounded (outcome s.redis) (outcome s.http) y
      → AreFounded (record s { redis = y })
  redis_goes before after founded =
      let stays = same-Stays s.redis y o before after in
      let keeps =
        stays-IsFounded (outcome s.redis) (outcome y) (outcome s.http) (outcome s.http) stays
          (own-Stays s.http) in
      record {
        err_known =
            stays-IsKnown (outcome s.redis) (outcome y) (outcome s.http) (outcome s.http) stays
              (own-Stays s.http) s.err known.err_known;
        redis_founded = keeps y founded;
        http_founded = keeps s.http known.http_founded;
      }

  http_goes :
      outcome s.http ≡ some o
      → outcome y ≡ some o
      → IsFounded (outcome s.redis) (outcome s.http) y
      → AreFounded (record s { http = y })
  http_goes before after founded =
      let stays = same-Stays s.http y o before after in
      let keeps =
        stays-IsFounded (outcome s.redis) (outcome s.redis) (outcome s.http) (outcome y)
          (own-Stays s.redis) stays in
      record {
        err_known =
            stays-IsKnown (outcome s.redis) (outcome s.redis) (outcome s.http) (outcome y)
              (own-Stays s.redis) stays s.err known.err_known;
        redis_founded = keeps s.redis known.redis_founded;
        http_founded = keeps y founded;
      }

-- What a goroutine has behind it, where its place is known.
pub at-IsFounded :
    (a b : Option (Option Text)) {x : Server} (y : Server)
    → x ≡ y
    → IsFounded a b x
    → IsFounded a b y
at-IsFounded a b y at founded = subst (IsFounded a b) at founded

MainStep-AreFounded : {s t : WsMain} → MainStep s t → AreFounded s → AreFounded t
unfolding select_redis select_http
MainStep-AreFounded {s} (redis_returns o at) known = redis_starts known serving o at
MainStep-AreFounded {s} (redis_tests o at) known =
    redis_goes known (after_test o s.err) o (ap outcome at) (after_test-outcome o s.err)
      (after_test-IsFounded (outcome s.redis) (outcome s.http) o s.err known.err_known)
MainStep-AreFounded {s} (redis_reads o at) known =
    redis_goes known (offering o s.err) o (ap outcome at) refl
      (at-IsFounded _ _ (passed o) at known.redis_founded, known.err_known)
MainStep-AreFounded {s} (redis_reports o v at waits) known =
    let founded =
      redis_goes known (reported o v) o (ap outcome at) refl
        (at-IsFounded _ _ (offering o v) at known.redis_founded) in
    record {
      err_known = founded.err_known;
      redis_founded = founded.redis_founded;
      http_founded = founded.http_founded;
    }
MainStep-AreFounded {s} (http_returns o at) known = http_starts known serving o at
MainStep-AreFounded {s} (http_tests o at) known =
    http_goes known (after_test o s.err) o (ap outcome at) (after_test-outcome o s.err)
      (after_test-IsFounded (outcome s.redis) (outcome s.http) o s.err known.err_known)
MainStep-AreFounded {s} (http_reads o at) known =
    http_goes known (offering o s.err) o (ap outcome at) refl
      (at-IsFounded _ _ (passed o) at known.http_founded, known.err_known)
MainStep-AreFounded {s} (http_reports o v at waits) known =
    let founded =
      http_goes known (reported o v) o (ap outcome at) refl
        (at-IsFounded _ _ (offering o v) at known.http_founded) in
    record {
      err_known = founded.err_known;
      redis_founded = founded.redis_founded;
      http_founded = founded.http_founded;
    }

pub reached-AreFounded : {s : WsMain} → MainReach s → AreFounded s
unfolding ws_main
reached-AreFounded start = record { err_known = inl refl; redis_founded = tt; http_founded = tt }
reached-AreFounded (next r st) = MainStep-AreFounded st (reached-AreFounded r)
