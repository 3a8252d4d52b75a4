-- ===== src/Api/Token/Together.antt =====
-- ApproveToken of api/api.go, called by several requests at once: between the test of the last
-- approval, the transaction, and the record of its time, other calls go on. There is no lock.
use d8x_broker_server.Base.{
  ℕ, ◌-◌, ◌≤◌, ◌≡◌, refl, subst, inl, inr, List, [], ◌∷◌, ◌++◌, Option, some, ltb, if◌then◌else◌,
  ◌==◌, arith, Map, lookup, insert, get_or, lookup-insert, Bool-cases, Option-cases, All, All-item,
  All-map, All-swap, Any, ℤ,
}
use d8x_broker_server.Text.{Text, text_eq, text_beq_iff}
use d8x_broker_server.Eth.{Address}
use d8x_broker_server.Sdk.{Sdk, Approve}
use d8x_broker_server.Pen.{SignaturePen}
use d8x_broker_server.Api.Token.{
  Approval, approved, failed, panics, approval_key, approval_expiry_sec, approve_on_chain,
  approve_token,
}
use d8x_broker_server.Api.Token.Cache.{Asked, IsHonest, approve_on_chain-IsHonest}

-- A call for a chain and a token: before the test, before the transaction, before the record of the
-- time, or with its result.
pub data Call : Type 0 where
  testing trying recording : ℤ → Address → Call
  answered : ℤ → Address → Approval → Call

-- What follows the result of the transaction.
abbrev pub tried : ℤ → Address → Approval → Call
tried chain_id token approved = recording chain_id token
tried chain_id token (failed e) = answered chain_id token (failed e)
tried chain_id token panics = answered chain_id token panics

-- An attempt on the chain: what it was for, its result, and the calls of Approve that it has made.
pub record Sending : Type 0 where
  pub chain_id : ℤ
  pub token : Address
  pub result : Approval
  pub sent : List Approve

-- The calls so far, the times of the approvals, and the attempts on the chain, the last one first.
pub record Calls : Type 0 where
  pub calls : List Call
  pub ts : Map Text ℕ
  pub sent : List Sending

module _ (sdk : Sdk) (p : SignaturePen) where
  -- A turn of a call, with the connection to the chain and the clock at that time, and the attempt
  -- that it makes.
  unfoldable pub call_turn :
      (List Text → Option sdk.Client) → ℕ → Call → Map Text ℕ → Call × Map Text ℕ × List Sending
  call_turn connect now (testing chain_id token) ts =
      if ltb (now - get_or 0 (approval_key sdk chain_id token) ts) approval_expiry_sec
      then (answered chain_id token approved, ts, [])
      else (trying chain_id token, ts, [])
  call_turn connect now (trying chain_id token) ts =
      let (result, sent) = approve_on_chain sdk connect p chain_id token in
      (
        tried chain_id token result,
        ts,
        record { chain_id = chain_id; token = token; result = result; sent = sent } ∷ [],
      )
  call_turn connect now (recording chain_id token) ts =
      (answered chain_id token approved, insert (approval_key sdk chain_id token) now ts, [])
  call_turn connect now (answered chain_id token result) ts =
      (answered chain_id token result, ts, [])

  pub data CallReach : Calls → Type 0 where
    start : CallReach (record { calls = []; ts = []; sent = [] })
    comes :
        {s : Calls} (chain_id : ℤ) (token : Address)
        → CallReach s
        → CallReach (record s { calls = testing chain_id token ∷ s.calls })
    goes :
        {s : Calls} (before after : List Call) (x : Call) (connect : List Text → Option sdk.Client)
        (now : ℕ)
        → approval_expiry_sec ≤ now
        → s.calls ≡ before ++ x ∷ after
        → CallReach s
        → CallReach (record {
          calls = before ++ (call_turn connect now x s.ts).0 ∷ after;
          ts = (call_turn connect now x s.ts).1;
          sent = (call_turn connect now x s.ts).2 ++ s.sent;
        })

  -- A call that is alone.
  abbrev pub alone :
      (List Text → Option sdk.Client) → ℕ → ℕ → ℤ → Address → Map Text ℕ → Call × Map Text ℕ
  alone connect now later chain_id token ts =
      let (x, ts1, _) = call_turn connect now (testing chain_id token) ts in
      let (y, ts2, _) = call_turn connect now x ts1 in
      let (z, ts3, _) = call_turn connect later y ts2 in (z, ts3)

  pub alone-approve_token :
      (connect : List Text → Option sdk.Client) (now later : ℕ) (chain_id : ℤ) (token : Address)
      (ts : Map Text ℕ)
      → let (result, ts', _) = approve_token sdk connect p now later chain_id token ts in
        alone connect now later chain_id token ts ≡ (answered chain_id token result, ts')
  unfolding call_turn approve_token
  alone-approve_token connect now later chain_id token ts = ground arith

  -- An attempt for a chain and a token of this key, which has counted as approved, and which made
  -- one call of Approve that the chain's node took and mined.
  pub record Backs (key : Text) (d : Sending) : Type 0 where
    pub same_key : approval_key sdk d.chain_id d.token ≡ key
    pub counted : d.result ≡ approved
    pub connect : List Text → Option sdk.Client
    pub asked : Asked sdk connect p d.chain_id d.token (approved, d.sent)

  abbrev pub IsBacked : List Sending → Text → Type 0
  IsBacked sent key = Any (Backs key) sent

  -- A call that was told, or is about to tell, that the token is approved.
  abbrev pub IsJust : List Sending → Call → Type 0
  IsJust sent (testing chain_id token) = Unit
  IsJust sent (trying chain_id token) = Unit
  IsJust sent (recording chain_id token) = IsBacked sent (approval_key sdk chain_id token)
  IsJust sent (answered chain_id token approved) = IsBacked sent (approval_key sdk chain_id token)
  IsJust sent (answered chain_id token (failed e)) = Unit
  IsJust sent (answered chain_id token panics) = Unit

  abbrev pub AreTimes : List Sending → Map Text ℕ → Type 0
  AreTimes sent ts = (key : Text) (t : ℕ) → lookup key ts ≡ some t → IsBacked sent key

  pub record AreJust (s : Calls) : Type 0 where
    pub times : AreTimes s.sent s.ts
    pub each : All (IsJust s.sent) s.calls

  later-IsBacked :
      (more sent : List Sending) (key : Text) → IsBacked sent key → IsBacked (more ++ sent) key
  later-IsBacked [] sent key backed = backed
  later-IsBacked (d ∷ more) sent key backed = inr (later-IsBacked more sent key backed)

  later-IsJust : (more sent : List Sending) (x : Call) → IsJust sent x → IsJust (more ++ sent) x
  later-IsJust more sent (testing chain_id token) just = tt
  later-IsJust more sent (trying chain_id token) just = tt
  later-IsJust more sent (recording chain_id token) just =
      later-IsBacked more sent (approval_key sdk chain_id token) just
  later-IsJust more sent (answered chain_id token approved) just =
      later-IsBacked more sent (approval_key sdk chain_id token) just
  later-IsJust more sent (answered chain_id token (failed e)) just = tt
  later-IsJust more sent (answered chain_id token panics) just = tt

  tried-IsJust :
      (connect : List Text → Option sdk.Client) (chain_id : ℤ) (token : Address) (a : Approval)
      (txs : List Approve) (sent : List Sending)
      → IsHonest sdk connect p chain_id token (a, txs)
      → IsJust
          (record { chain_id = chain_id; token = token; result = a; sent = txs } ∷ sent)
          (tried chain_id token a)
  tried-IsJust connect chain_id token approved txs sent (inl asked) =
      inl (record { same_key = refl; counted = refl; connect = connect; asked = asked })
  tried-IsJust connect chain_id token approved txs sent (inr (other, none_sent)) =
      absurd (other refl)
  tried-IsJust connect chain_id token (failed f) txs sent h = tt
  tried-IsJust connect chain_id token panics txs sent h = tt

  recorded :
      (sent : List Sending) (ts : Map Text ℕ) (key : Text) (now : ℕ)
      → IsBacked sent key
      → AreTimes sent ts
      → AreTimes sent (insert key now ts)
  recorded sent ts key now backed times j t at = elim (Bool-cases (key == j)) [
    | inl same ↦ subst (IsBacked sent) ((text_beq_iff key j).0 same) backed
    | inr differ ↦ times j t (rw (lookup-insert key j now ts, differ) at at)
  ]

  call_turn-AreJust :
      (connect : List Text → Option sdk.Client) (now : ℕ) (x : Call) (ts : Map Text ℕ)
      (sent : List Sending)
      → approval_expiry_sec ≤ now
      → AreTimes sent ts
      → IsJust sent x
      → let (y, ts', more) = call_turn connect now x ts in
        AreTimes (more ++ sent) ts' × IsJust (more ++ sent) y
  unfolding call_turn
  call_turn-AreJust connect now (testing chain_id token) ts sent past times just =
      let key = approval_key sdk chain_id token in
      elim (Bool-cases (ltb (now - get_or 0 key ts) approval_expiry_sec)) [
        | inl recent ↦ elim (Option-cases (lookup key ts)) [
          | inl missing ↦ absurd (ground (arith, missing))
          | inr (t, known) ↦ rw (recent, call_turn) (times, times key t known)
        ]
        | inr old ↦ rw (old, call_turn) (times, tt)
      ]
  call_turn-AreJust connect now (trying chain_id token) ts sent past times just = (
    λ key t at. inr (times key t at),
    tried-IsJust connect chain_id token _ _ sent
        (approve_on_chain-IsHonest sdk connect p chain_id token),
  )
  call_turn-AreJust connect now (recording chain_id token) ts sent past times just =
      (recorded sent ts (approval_key sdk chain_id token) now just times, just)
  call_turn-AreJust connect now (answered chain_id token result) ts sent past times just =
      (times, just)

  -- After any interleaving of the turns of calls of ApproveToken, each turn with a connection of
  -- its own and with a clock that is past the expiry period since 1970: for every time that is
  -- recorded, and for every call that has answered that the token is approved, the log of what
  -- the calls have sent holds an attempt for a chain and a token of the same key, which made one
  -- call of Approve on that token, for the chain's payment contract and over the whole range, and
  -- the chain's node took and mined it.
  pub CallReach-AreJust : {s : Calls} → CallReach s → AreJust s
  unfolding lookup
  CallReach-AreJust start = record { times = λ j t at. cc at; each = tt }
  CallReach-AreJust (comes chain_id token r) =
      let known = CallReach-AreJust r in record { times = known.times; each = (tt, known.each) }
  CallReach-AreJust (goes {s} before after x connect now past at r) =
      let known = CallReach-AreJust r in
      let here = subst (All (IsJust s.sent)) at known.each in
      let more = (call_turn connect now x s.ts).2 in
      let after_turn =
        call_turn-AreJust connect now x s.ts s.sent past known.times
          (All-item (IsJust s.sent) before after x here) in
      record {
        times = after_turn.0;
        each =
            All-swap (IsJust (more ++ s.sent)) before after x _
              (All-map (IsJust s.sent) (IsJust (more ++ s.sent)) (later-IsJust more s.sent)
                (before ++ x ∷ after) here)
              after_turn.1;
      }
