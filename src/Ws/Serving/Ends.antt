-- ===== src/Ws/Serving/Ends.antt =====
-- How StartWSServer ends, for the steps of its two goroutines and of its select in any order.
use d8x_broker_server.Base.{◌≡◌, refl, ◌⊎◌, inl, inr, ◌↔◌, List, [], ◌∷◌, Option, none, some}
use d8x_broker_server.Text.{Text, codes}
use d8x_broker_server.Ws.Serving.{
  Server, serving, assigned, passed, offering, reported, closed, after_test, WsMain, ws_main,
  terminated, select_redis, select_http, MainStep, redis_returns, redis_tests, redis_reads,
  redis_reports, http_returns, http_tests, http_reads, http_reports, MainReach, start, next,
}
use d8x_broker_server.Ws.Serving.Founded.{
  outcome, IsKnown, HasErred, HasReported, after_test-unreported, at-IsFounded, reached-AreFounded,
}

-- StartWSServer has received nothing, or one value, from one of the two.
abbrev pub IsWaiting : WsMain → Type 0
IsWaiting s = (s.result ≡ none) × (s.logged ≡ []) × (¬ HasReported s.redis) × (¬ HasReported s.http)

pub record Received (x y : Server) (name : Text) (logged : List Text) : Type 0 where
  pub own : Option Text
  pub value : Option Text
  pub sent : x ≡ reported own value
  pub alone : ¬ HasReported y
  pub line : logged ≡ terminated name value ∷ []

abbrev pub IsReturned : WsMain → Type 0
IsReturned s =
    (s.result ≡ some none)
    × (Received s.redis s.http (codes "REDIS") s.logged
        ⊎ Received s.http s.redis (codes "WS") s.logged)

abbrev IsKept : WsMain → Type 0
IsKept s = IsWaiting s ⊎ IsReturned s

module _ (s : WsMain) (y : Server) (v : Option Text) (after : ¬ HasReported y) where
  redis_still : ¬ HasReported s.redis → IsKept s → IsKept (record s { err = v; redis = y })
  redis_still before (inl (open_yet, quiet, no_redis, no_http)) =
      inl (open_yet, quiet, after, no_http)
  redis_still before (inr (done, inl d)) = absurd (before (d.own, d.value, d.sent))
  redis_still before (inr (done, inr d)) = inr (
    done,
    inr (record { own = d.own; value = d.value; sent = d.sent; alone = after; line = d.line }),
  )

  http_still : ¬ HasReported s.http → IsKept s → IsKept (record s { err = v; http = y })
  http_still before (inl (open_yet, quiet, no_redis, no_http)) =
      inl (open_yet, quiet, no_redis, after)
  http_still before (inr (done, inr d)) = absurd (before (d.own, d.value, d.sent))
  http_still before (inr (done, inl d)) = inr (
    done,
    inl (record { own = d.own; value = d.value; sent = d.sent; alone = after; line = d.line }),
  )

MainStep-IsKept : {s t : WsMain} → MainStep s t → IsKept s → IsKept t
unfolding select_redis select_http
MainStep-IsKept {s} (redis_returns o at) kept =
    redis_still s (assigned o) o (λ (p, w, h). cc h) (λ (p, w, h). cc (at, h)) kept
MainStep-IsKept {s} (redis_tests o at) kept =
    redis_still s (after_test o s.err) s.err (after_test-unreported o s.err)
      (λ (p, w, h). cc (at, h)) kept
MainStep-IsKept {s} (redis_reads o at) kept =
    redis_still s (offering o s.err) s.err (λ (p, w, h). cc h) (λ (p, w, h). cc (at, h)) kept
MainStep-IsKept (redis_reports o v at waits) (inl (open_yet, quiet, no_redis, no_http)) =
    inr (
      refl,
      inl (record { own = o; value = v; sent = refl; alone = no_http; line = rw quiet refl }),
    )
MainStep-IsKept (redis_reports o v at waits) (inr (done, more)) = cc (waits, done)
MainStep-IsKept {s} (http_returns o at) kept =
    http_still s (assigned o) o (λ (p, w, h). cc h) (λ (p, w, h). cc (at, h)) kept
MainStep-IsKept {s} (http_tests o at) kept =
    http_still s (after_test o s.err) s.err (after_test-unreported o s.err)
      (λ (p, w, h). cc (at, h)) kept
MainStep-IsKept {s} (http_reads o at) kept =
    http_still s (offering o s.err) s.err (λ (p, w, h). cc h) (λ (p, w, h). cc (at, h)) kept
MainStep-IsKept (http_reports o v at waits) (inl (open_yet, quiet, no_redis, no_http)) =
    inr (
      refl,
      inr (record { own = o; value = v; sent = refl; alone = no_redis; line = rw quiet refl }),
    )
MainStep-IsKept (http_reports o v at waits) (inr (done, more)) = cc (waits, done)

reached-IsKept : {s : WsMain} → MainReach s → IsKept s
unfolding ws_main
reached-IsKept start = inl (refl, refl, λ (p, w, h). cc h, λ (p, w, h). cc h)
reached-IsKept (next r st) = MainStep-IsKept st (reached-IsKept r)

-- The value that was received from `x` is nil or one of the results, and not both calls are well.
abbrev pub Reports : WsMain → Server → Server → Text → Type 0
Reports s x y name =
    (d : Received x y name s.logged) × HasErred (outcome s.redis) (outcome s.http)
    × IsKnown (outcome s.redis) (outcome s.http) d.value

abbrev pub IsClosed : Server → Type 0
IsClosed x = (o : Option Text) × (x ≡ closed o)

-- No goroutine and no select has a step.
abbrev pub IsStuck : WsMain → Type 0
IsStuck s = (t : WsMain) → ¬ MainStep s t

pub closed-IsStuck : {s : WsMain} → IsClosed s.redis → IsClosed s.http → IsStuck s
closed-IsStuck (o, x) (p, y) t (redis_returns q at) = cc (x, at)
closed-IsStuck (o, x) (p, y) t (redis_tests q at) = cc (x, at)
closed-IsStuck (o, x) (p, y) t (redis_reads q at) = cc (x, at)
closed-IsStuck (o, x) (p, y) t (redis_reports q v at waits) = cc (x, at)
closed-IsStuck (o, x) (p, y) t (http_returns q at) = cc (y, at)
closed-IsStuck (o, x) (p, y) t (http_tests q at) = cc (y, at)
closed-IsStuck (o, x) (p, y) t (http_reads q at) = cc (y, at)
closed-IsStuck (o, x) (p, y) t (http_reports q v at waits) = cc (y, at)

module _ {s : WsMain} (waits : s.result ≡ none) (stuck : IsStuck s) where
  redis_ends : (x : Server) → s.redis ≡ x → ¬ HasReported s.redis → IsClosed x
  redis_ends serving at none_sent = absurd (stuck _ (redis_returns none at))
  redis_ends (assigned o) at none_sent = absurd (stuck _ (redis_tests o at))
  redis_ends (passed o) at none_sent = absurd (stuck _ (redis_reads o at))
  redis_ends (offering o v) at none_sent = absurd (stuck _ (redis_reports o v at waits))
  redis_ends (reported o v) at none_sent = absurd (none_sent (o, v, at))
  redis_ends (closed o) at none_sent = (o, refl)

  http_ends : (x : Server) → s.http ≡ x → ¬ HasReported s.http → IsClosed x
  http_ends serving at none_sent = absurd (stuck _ (http_returns none at))
  http_ends (assigned o) at none_sent = absurd (stuck _ (http_tests o at))
  http_ends (passed o) at none_sent = absurd (stuck _ (http_reads o at))
  http_ends (offering o v) at none_sent = absurd (stuck _ (http_reports o v at waits))
  http_ends (reported o v) at none_sent = absurd (none_sent (o, v, at))
  http_ends (closed o) at none_sent = (o, refl)

-- After any interleaving of the steps of the two goroutines of StartWSServer, which share one
-- `err`, and of its select: StartWSServer waits, nothing is received or logged, and no step is
-- left if and only if both goroutines are over; or it has returned nil, exactly one goroutine has
-- sent it a value and exactly that is logged under that goroutine's name, the call of one of the
-- two has returned with an error, and the value is nil or what one of the two calls has returned.
pub MainReach-Returns :
    {s : WsMain}
    → MainReach s
    → (IsWaiting s × (IsStuck s ↔ (IsClosed s.redis × IsClosed s.http)))
      ⊎ ((s.result ≡ some none)
          × (Reports s s.redis s.http (codes "REDIS") ⊎ Reports s s.http s.redis (codes "WS")))
MainReach-Returns {s} reached =
    let known = reached-AreFounded reached in
    elim (reached-IsKept reached) [
      | inl waiting ↦ inl (
        waiting,
        (
          λ stuck. (
            redis_ends waiting.0 stuck s.redis refl waiting.2,
            http_ends waiting.0 stuck s.http refl waiting.3,
          ),
          λ (x, y). closed-IsStuck x y,
        ),
      )
      | inr (done, inl d) ↦
          let founded = at-IsFounded _ _ (reported d.own d.value) d.sent known.redis_founded in
          inr (done, inl (d, founded.0, founded.1))
      | inr (done, inr d) ↦
          let founded = at-IsFounded _ _ (reported d.own d.value) d.sent known.http_founded in
          inr (done, inr (d, founded.0, founded.1))
    ]
