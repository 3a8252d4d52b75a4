-- ===== src/Service/Env/Defaults.antt =====
-- The settings behind loadEnv: what the defaults change, and which names it asks for.
use d8x_broker_server.Base.{
  ◌≡◌, refl, ◌∙◌, inl, inr, true, List, [], ◌∷◌, Option, none, some, All, Bool-cases,
}
use d8x_broker_server.Text.{Text, text_eq, text_beq, codes, to_lower}
use d8x_broker_server.Service.Env.{
  Viper, Differ, api_port, api_bind_addr, ws_addr, vip3_reduction_perc, set_defaults, first_missing,
}

-- A name without a default.
abbrev pub IsPlain : Text → Type 0
IsPlain k =
    Differ vip3_reduction_perc k × Differ ws_addr k × Differ api_port k × Differ api_bind_addr k

module _ (v : Viper) where
  open v use {State, given, is_set, get_string, get_int32, set_default}

  -- What a default changes at another name: nothing.
  module _ {ℓ} {A : Type ℓ} (read : Text → State → A) where
    abbrev Ignores : Type ℓ
    Ignores = (j k x : Text) (s : State) → Differ j k → read k (set_default j x s) ≡ read k s

    pub set_defaults-plain :
        Ignores → (k : Text) (s : State) → IsPlain k → read k (set_defaults v s) ≡ read k s
    unfolding set_defaults
    set_defaults-plain ignores k s p =
        ignores vip3_reduction_perc k _ _ p.0
        ∙ ignores ws_addr k _ _ p.1
        ∙ ignores api_port k _ _ p.2
        ∙ ignores api_bind_addr k _ _ p.3

  pub first_missing-defaults :
      (names : List Text) (s : State)
      → All IsPlain names
      → first_missing v names (set_defaults v s) ≡ first_missing v names s
  unfolding first_missing
  first_missing-defaults [] s plain = refl
  first_missing-defaults (k ∷ more) s (p, plain) =
      let same = set_defaults-plain is_set v.other_set k s p in
      rw (same, first_missing-defaults more s plain) refl

  pub first_missing-none :
      (names : List Text) (s : State)
      → first_missing v names s ≡ none
      → All (λ k. is_set k s ≡ true) names
  unfolding first_missing
  first_missing-none [] s h = tt
  first_missing-none (k ∷ more) s h = elim (Bool-cases (is_set k s)) [
    | inl set ↦ (set, first_missing-none more s (rw set at h))
    | inr unset ↦ cc (rw unset at h)
  ]

  -- The port that is served: what is given for it, and else 8001.
  abbrev pub port_of : Option Text → Text
  port_of none = codes "8001"
  port_of (some x) = x

  port_from :
      (s : State) (o : Option Text)
      → given api_port s ≡ o
      → get_string api_port (set_defaults v s) ≡ port_of o
  unfolding set_defaults to_lower text_beq
  port_from s none h =
      v.other_string vip3_reduction_perc api_port _ _ refl
      ∙ v.other_string ws_addr api_port _ _ refl
      ∙ v.string_default api_port (codes "8001") _ (v.given_keeps _ api_port _ s ∙ h)
  port_from s (some x) h = v.string_given api_port x _ (
      v.given_keeps _ _ _ _
      ∙ v.given_keeps _ _ _ _
      ∙ v.given_keeps _ _ _ _
      ∙ v.given_keeps _ _ _ _
      ∙ h)

  pub set_defaults-port :
      (s : State) → get_string api_port (set_defaults v s) ≡ port_of (given api_port s)
  set_defaults-port s = port_from s (given api_port s) refl
