-- ===== src/Ethereum/Agreement/Evidence.antt =====
-- internal/ethereum/rpc.go: what a read that returns says of every provider's answer.
use facilitator.Base.{
  ℕ, zero, suc, ◌+◌, ◌≤◌, ◌<◌, ◌≡◌, refl, sym, ap, ap₂, ◌∙◌, subst, Option, none, some, List, [],
  ◌∷◌, Text, text_eq, text_eq-eq, Bool, true, false, if◌then◌else◌, &&-true, ℤ, All, arith,
  Option-cases, Bool-cases, inl, inr, ◌⊎◌,
}
use facilitator.Signing.Transaction.{int_eq}
use facilitator.Signing.Transaction.Answer.{int_eq-eq}
use facilitator.Ethereum.Agreement.{
  CallError, rpc_error, other_error, Outcome, answered, failed, or_retry, call_provider, failures,
  answers, Read, agreed, provider_failed, disagreement, invalid_data, is_rpc, all_rpc,
  same_rpc_error, all_same, all_failed, decode_all, reconciled, read_client_agreement,
}

first_or_later : (k i : ℕ) → k ≤ i → (i ≡ k) ⊎ (k + 1 ≤ i)
first_or_later k i le = ground arith

ordered_cases : (a b : ℕ) → (a < b) ⊎ ((a ≡ b) ⊎ (b < a))
ordered_cases a b = ground arith

-- Providers that all failed have given no value.
all_failed-agreed :
    {T : Type 0} (e : CallError) (es : List CallError) (v : T) → all_failed e es ≡ agreed v → ⊥
unfolding all_failed
all_failed-agreed e es v h = elim (Bool-cases (all_rpc (e ∷ es))) [
  | inl rpc ↦ elim (Bool-cases (all_same e es)) [
    | inl same ↦ absurd (ground (arith, rpc, same))
    | inr differ ↦ absurd (ground (arith, rpc, differ))
  ]
  | inr other ↦ absurd (ground (arith, other))
]

same_rpc_error-eq : (e f : CallError) → same_rpc_error e f ≡ true → e ≡ f
unfolding same_rpc_error
same_rpc_error-eq (rpc_error c m) (rpc_error d n) h =
    let (code, message) = &&-true (int_eq c d) (text_eq m n) h in
    ap₂ rpc_error (int_eq-eq c d code) (text_eq-eq m n message)
same_rpc_error-eq (rpc_error c m) other_error h = absurd (cc)
same_rpc_error-eq other_error f h = absurd (cc)

all_same-All : (e : CallError) (es : List CallError) → all_same e es ≡ true → All (λ f. f ≡ e) es
unfolding all_same
all_same-All e [] h = tt
all_same-All e (f ∷ es) h =
    let (first, rest) = &&-true (same_rpc_error e f) (all_same e es) h in
    (sym (same_rpc_error-eq e f first), all_same-All e es rest)

-- An RPC error of the whole is the RPC error of each.
all_failed-rpc :
    {T : Type 0} (e : CallError) (es : List CallError) (code : ℤ) (message : Text)
    → all_failed {T = T} e es ≡ provider_failed (rpc_error code message)
    → All (λ f. f ≡ rpc_error code message) (e ∷ es)
unfolding all_failed
all_failed-rpc e es code message h = elim (Bool-cases (all_rpc (e ∷ es))) [
  | inl rpc ↦ elim (Bool-cases (all_same e es)) [
    | inl same ↦
        let is : e ≡ rpc_error code message = ground (arith, rpc, same) in
        subst (λ x. All (λ f. f ≡ x) (e ∷ es)) is (refl, all_same-All e es same)
    | inr differ ↦ absurd (ground (arith, rpc, differ))
  ]
  | inr other ↦ absurd (ground (arith, other))
]

module _ {Raw : Type 0} where
  every_answered :
      (Q : Raw → Type 0) (outcomes : List (Outcome Raw))
      → failures outcomes ≡ []
      → All Q (answers outcomes)
      → All (λ o. (raw : Raw) × (o ≡ answered raw) × Q raw) outcomes
  unfolding failures answers
  every_answered Q [] h q = tt
  every_answered Q (answered raw ∷ outcomes) h q =
      ((raw, refl, q.0), every_answered Q outcomes h q.1)
  every_answered Q (failed e ∷ outcomes) h q = absurd (cc)

  every_failed :
      (Q : CallError → Type 0) (outcomes : List (Outcome Raw))
      → answers outcomes ≡ []
      → All Q (failures outcomes)
      → All (λ o. (e : CallError) × (o ≡ failed e) × Q e) outcomes
  unfolding failures answers
  every_failed Q [] h q = tt
  every_failed Q (answered raw ∷ outcomes) h q = absurd (cc)
  every_failed Q (failed e ∷ outcomes) h q = ((e, refl, q.0), every_failed Q outcomes h q.1)

  -- How a loop of attempts that starts at `k` has ended: what it returns, the attempts made, and the
  -- last of them.
  pub record Ended (attempts : ℕ → Outcome Raw) (cancelled : ℕ → Bool) (retries k : ℕ)
      (end_ : Outcome Raw × ℕ) : Type 0 where
    pub last : ℕ
    pub made : end_.1 ≡ last + 1
    pub is_last : end_.0 ≡ attempts last
    pub from_k : k ≤ last
    pub within : last ≤ k + retries
    pub before : (i : ℕ) → k ≤ i → i < last → (e : CallError) × (attempts i ≡ failed e)
    pub gave_up :
        (e : CallError) → end_.0 ≡ failed e → (last ≡ k + retries) ⊎ (cancelled last ≡ true)

  or_retry-Ended :
      (attempts : ℕ → Outcome Raw) (cancelled : ℕ → Bool) (retries k : ℕ) (rest : Outcome Raw × ℕ)
      (o : Outcome Raw) (done : Bool)
      → attempts k ≡ o
      → cancelled k ≡ done
      → Ended attempts cancelled retries (k + 1) rest
      → Ended attempts cancelled (suc retries) k (or_retry o done k rest)
  or_retry-Ended attempts cancelled retries k rest (answered raw) done at_k at_done later = record {
    last = k;
    made = refl;
    is_last = sym at_k;
    from_k = omega arith;
    within = omega arith;
    before = λ i le lt. absurd (omega arith);
    gave_up = λ e h. absurd (cc);
  }
  or_retry-Ended attempts cancelled retries k rest (failed e) true at_k at_done later = record {
    last = k;
    made = refl;
    is_last = sym at_k;
    from_k = omega arith;
    within = omega arith;
    before = λ i le lt. absurd (omega arith);
    gave_up = λ x h. inr at_done;
  }
  or_retry-Ended attempts cancelled retries k rest (failed e) false at_k at_done later = record {
    last = later.last;
    made = later.made;
    is_last = later.is_last;
    from_k = let le = later.from_k in omega arith;
    within = let le = later.within in omega arith;
    before = λ i le lt. elim (first_or_later k i le) [
      | inl same ↦ (e, ap attempts same ∙ at_k)
      | inr after ↦ later.before i after lt
    ];
    gave_up = λ x h. elim (later.gave_up x h) [
      | inl used ↦ inl (used ∙ omega arith)
      | inr done_ ↦ inr done_
    ];
  }

  -- The loop makes at least one attempt and at most one more than the retries; it returns the last
  -- attempt's outcome, all before it have failed, and it gives up on an error only when the retries are
  -- used up or the context is done.
  pub call_provider-Ended :
      (attempts : ℕ → Outcome Raw) (cancelled : ℕ → Bool) (retries k : ℕ)
      → Ended attempts cancelled retries k (call_provider attempts cancelled retries k)
  unfolding call_provider
  call_provider-Ended attempts cancelled zero k = record {
    last = k;
    made = refl;
    is_last = refl;
    from_k = omega arith;
    within = omega arith;
    before = λ i le lt. absurd (omega arith);
    gave_up = λ e h. inl (omega arith);
  }
  call_provider-Ended attempts cancelled (suc retries) k =
      or_retry-Ended attempts cancelled retries k (call_provider attempts cancelled retries (k + 1))
        (attempts k) (cancelled k) refl refl
        (call_provider-Ended attempts cancelled retries (k + 1))

  -- A provider that answers one of the attempts that the retries allow is heard, if the context lasts
  -- until then.
  pub call_provider-heard :
      (attempts : ℕ → Outcome Raw) (cancelled : ℕ → Bool) (retries i : ℕ) (raw : Raw)
      → i ≤ retries
      → attempts i ≡ answered raw
      → ((j : ℕ) → j < i → cancelled j ≡ false)
      → (heard : Raw) × ((call_provider attempts cancelled retries 0).0 ≡ answered heard)
  call_provider-heard attempts cancelled retries i raw within at_i lasts =
      by_outcome (call_provider attempts cancelled retries 0).0 refl
    where
      ended : Ended attempts cancelled retries 0 (call_provider attempts cancelled retries 0)
      ended = call_provider-Ended attempts cancelled retries 0

      unlike : (e : CallError) → answered raw ≡ failed e → ⊥
      unlike e p = cc

      differ : true ≡ false → ⊥
      differ p = cc

      by_outcome :
          (o : Outcome Raw)
          → (call_provider attempts cancelled retries 0).0 ≡ o
          → (heard : Raw) × ((call_provider attempts cancelled retries 0).0 ≡ answered heard)
      by_outcome (answered heard) at_o = (heard, at_o)
      by_outcome (failed e) at_o = elim (ordered_cases ended.last i) [
        | inl early ↦ elim (ended.gave_up e at_o) [
          | inl used ↦ absurd (omega arith)
          | inr done ↦ absurd (differ (sym done ∙ lasts ended.last early))
        ]
        | inr (inl same) ↦
            absurd (unlike e (sym at_i ∙ ap attempts (sym same) ∙ sym ended.is_last ∙ at_o))
        | inr (inr late) ↦
            let (f, at_f) = ended.before i (omega arith) late in absurd (unlike f (sym at_i ∙ at_f))
      ]

  module _ {T : Type 0} (decode : Raw → Option T) where
    decode_all-All :
        (P : T → Type 0) (raws : List Raw) (values : List T)
        → decode_all decode raws ≡ some values
        → All P values
        → All (λ raw. (value : T) × (decode raw ≡ some value) × P value) raws
    unfolding decode_all
    decode_all-All P [] values h all = tt
    decode_all-All P (raw ∷ raws) values h all = elim (Option-cases (decode raw)) [
      | inl bad ↦ absurd (ground (arith, bad))
      | inr (value, good) ↦ elim (Option-cases (decode_all decode raws)) [
        | inl bad ↦ absurd (ground (arith, good, bad))
        | inr (rest, at_rest) ↦
            let same : value ∷ rest ≡ values = ground (arith, good, at_rest) in
            let parts : All P (value ∷ rest) = subst (All P) (sym same) all in
            ((value, good, parts.0), decode_all-All P raws rest at_rest parts.1)
      ]
    ]

    no_failures :
        (errors : List CallError) (raws : List Raw) (other : Read T) (value : T)
        → elim errors as (λ x. Read T) [
          | [] ↦ other
          | e ∷ es ↦ elim raws as (λ x. Read T) [
            | [] ↦ all_failed e es
            | raw ∷ rest ↦ if is_rpc e then disagreement else provider_failed e
          ]
        ]
          ≡ agreed value
        → (errors ≡ []) × (other ≡ agreed value)
    no_failures [] raws other value h = (refl, h)
    no_failures (e ∷ es) [] other value h = absurd (all_failed-agreed e es value h)
    no_failures (rpc_error c m ∷ es) (raw ∷ rest) other value h = absurd (cc)
    no_failures (other_error ∷ es) (raw ∷ rest) other value h = absurd (cc)

    decoded_values :
        (o : Option (List T)) (reconcile : List T → Option T) (value : T)
        → elim o as (λ x. Read T) [
          | none ↦ invalid_data
          | some values ↦ elim (reconcile values) as (λ x. Read T) [
            | none ↦ disagreement
            | some v ↦ agreed v
          ]
        ]
          ≡ agreed value
        → (values : List T) × (o ≡ some values) × (reconcile values ≡ some value)
    decoded_values none reconcile value h = absurd (cc)
    decoded_values (some values) reconcile value h = elim (Option-cases (reconcile values)) [
      | inl bad ↦ absurd (ground (arith, bad))
      | inr (v, good) ↦
          let same : v ≡ value = ground (arith, good) in (values, refl, good ∙ ap some same)
    ]

    -- A value comes back only if every provider has answered, and each answer decodes to a value that
    -- the reconciliation vouches for.
    pub read_client_agreement-agreed :
        (reconcile : List T → Option T) (P : T → T → Type 0) (outcomes : List (Outcome Raw))
        (value : T)
        → ((values : List T) (v : T) → reconcile values ≡ some v → All (P v) values)
        → read_client_agreement decode reconcile outcomes ≡ agreed value
        → All
            (λ o. (raw : Raw) × (o ≡ answered raw) × ((x : T) × (decode raw ≡ some x) × P value x))
            outcomes
    unfolding read_client_agreement reconciled all_failed
    read_client_agreement-agreed reconcile P outcomes value vouched h =
        let (no_failure, h₁) = no_failures (failures outcomes) (answers outcomes) _ value h in
        let (values, at_v, h₂) =
          decoded_values (decode_all decode (answers outcomes)) reconcile value h₁ in
        every_answered _ outcomes no_failure
          (decode_all-All (P value) (answers outcomes) values at_v (vouched values value h₂))

    no_answers :
        (errors : List CallError) (raws : List Raw) (o : Option (List T))
        (reconcile : List T → Option T) (code : ℤ) (message : Text)
        → elim errors as (λ x. Read T) [
          | [] ↦ elim o as (λ x. Read T) [
            | none ↦ invalid_data
            | some values ↦ elim (reconcile values) as (λ x. Read T) [
              | none ↦ disagreement
              | some v ↦ agreed v
            ]
          ]
          | e ∷ es ↦ elim raws as (λ x. Read T) [
            | [] ↦ all_failed e es
            | raw ∷ rest ↦ if is_rpc e then disagreement else provider_failed e
          ]
        ]
          ≡ provider_failed (rpc_error code message)
        → (raws ≡ []) × All (λ e. e ≡ rpc_error code message) errors
    no_answers [] raws none reconcile code message h = absurd (cc)
    no_answers [] raws (some values) reconcile code message h =
        elim (Option-cases (reconcile values)) [
          | inl bad ↦ absurd (ground (arith, bad))
          | inr (v, good) ↦ absurd (ground (arith, good))
        ]
    no_answers (e ∷ es) [] o reconcile code message h = (refl, all_failed-rpc e es code message h)
    no_answers (rpc_error c m ∷ es) (raw ∷ rest) o reconcile code message h = absurd (cc)
    no_answers (other_error ∷ es) (raw ∷ rest) o reconcile code message h = absurd (cc)

    -- An RPC error, such as a revert, comes back only if every provider has answered with this very error.
    pub read_client_agreement-rpc_error :
        (reconcile : List T → Option T) (outcomes : List (Outcome Raw)) (code : ℤ) (message : Text)
        → read_client_agreement decode reconcile outcomes ≡ provider_failed (rpc_error code message)
        → All (λ o. (e : CallError) × (o ≡ failed e) × (e ≡ rpc_error code message)) outcomes
    unfolding read_client_agreement reconciled
    read_client_agreement-rpc_error reconcile outcomes code message h =
        let (no_answer, all) =
          no_answers (failures outcomes) (answers outcomes) (decode_all decode (answers outcomes))
            reconcile code message h in
        every_failed _ outcomes no_answer all
