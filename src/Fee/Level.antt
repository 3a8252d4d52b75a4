-- ===== src/Fee/Level.antt =====
-- GetVip3Level of api/fee.go, called twice.
use d8x_broker_server.Base.{arith, ◌≡◌, ap, ◌∙◌, Option, some, ℤ, beq_self}
use d8x_broker_server.Text.{Text, text_eq, to_lower}
use d8x_broker_server.Decimal.{itoa, atoi}
use d8x_broker_server.Decimal.Print.{IsInt, atoi-itoa}
use d8x_broker_server.Redis.{Redis}
use d8x_broker_server.Redis.Documented.{ok, err, absent, str, Fault, nil, get_value}
use d8x_broker_server.Redis.Connected.{Connected, get-Does, set-Does}
use d8x_broker_server.Fee.{vip3_key, fetch_level, get_vip3_level, vip3_info_expiry_sec}

module _ (r : Redis) (c : Connected r) where
  open r use {Store, view, get, set, expire}

  fetch_level-some :
      (rest : Text → Option ℤ) (trader : Text) (s : Store) (l : ℤ)
      → rest trader ≡ some l
      → fetch_level r rest trader s
        ≡ (l, expire (vip3_key trader) vip3_info_expiry_sec (set (vip3_key trader) (itoa l) s).1)
  unfolding fetch_level
  fetch_level-some rest trader s l e = rw (e, fetch_level)

  fetched-kept :
      (rest : Text → Option ℤ) (trader : Text) (s : Store) (l : ℤ)
      → rest trader ≡ some l
      → (view (fetch_level r rest trader s).1).key (vip3_key trader) ≡ str (itoa l)
  fetched-kept rest trader s l e = rw (
    fetch_level-some rest trader s l e,
    r.expire_keeps (vip3_key trader) vip3_info_expiry_sec (set (vip3_key trader) (itoa l) s).1
        (omega arith),
    (set-Does r c (vip3_key trader) (itoa l) s).1,
    beq_self (vip3_key trader),
  )

  missed :
      (rest : Text → Option ℤ) (trader : Text) (s : Store) (f : Fault)
      → (get (vip3_key (to_lower trader)) s).0 ≡ err f
      → get_vip3_level r rest trader s
        ≡ fetch_level r rest (to_lower trader) (get (vip3_key (to_lower trader)) s).1
  unfolding get_vip3_level
  missed rest trader s f e = rw (e, get_vip3_level)

  hit :
      (rest : Text → Option ℤ) (trader t : Text) (s : Store)
      → (view s).key (vip3_key (to_lower trader)) ≡ str t
      → (get_vip3_level r rest trader s).0 ≡ (atoi t).0
  unfolding get_vip3_level
  hit rest trader t s e =
      let found : (get (vip3_key (to_lower trader)) s).0 ≡ ok t =
        (get-Does r c (vip3_key (to_lower trader)) s).0 ∙ ap get_value e in
      rw (found, get_vip3_level)

  -- On a Redis whose answers all arrive: if no level is stored for the trader and the REST
  -- service answers a level that fits in an `int`, GetVip3Level returns it, and a second call
  -- returns the same level whatever the REST service then answers.
  pub get_vip3_level-cached :
      (rest rest' : Text → Option ℤ) (trader : Text) (s : Store) (l : ℤ)
      → (view s).key (vip3_key (to_lower trader)) ≡ absent
      → rest (to_lower trader) ≡ some l
      → IsInt l
      → ((get_vip3_level r rest trader s).0 ≡ l)
        × ((get_vip3_level r rest' trader (get_vip3_level r rest trader s).1).0 ≡ l)
  get_vip3_level-cached rest rest' trader s l e answered fits =
      let key = vip3_key (to_lower trader) in
      let miss = missed rest trader s nil ((get-Does r c key s).0 ∙ ap get_value e) in
      let first = fetch_level-some rest (to_lower trader) (get key s).1 l answered in
      let kept = fetched-kept rest (to_lower trader) (get key s).1 l answered in
      (
        ap (λ p. p.0) (miss ∙ first),
        hit rest' trader (itoa l) (get_vip3_level r rest trader s).1
              (ap (λ p. (view p.1).key key) miss ∙ kept)
            ∙ ap (λ p. p.0) (atoi-itoa l fits),
      )
