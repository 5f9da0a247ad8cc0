-- ===== src/Ethereum/Reads/Receipts.antt =====
-- internal/ethereum/rpc.go: the receipts, heads and reverts that settlement decides by.
use facilitator.Base.{
  ℕ, ◌+◌, ◌-◌, ◌≤◌, ◌<◌, ◌^◌, min, max, ◌≡◌, refl, ap, ◌∙◌, subst, Option, none, some, List, [],
  ◌∷◌, Text, text_eq, text_eq-eq, Bool, true, false, &&-true, ==-eq, ◌==◌, leb, ltb, if◌then◌else◌,
  ℤ, All, arith, ltb→lt, Option-cases, Bool-cases, inl, inr,
}
use facilitator.Settlement.Calldata.{trim_prefix}
use facilitator.Settlement.Confirmation.{Receipt}
use facilitator.Signing.Policy.Ceilings.{not_ltb-le}
use facilitator.Signing.Transaction.Answer.{if-some, some_injective}
use facilitator.Ethereum.Agreement.{
  CallError, rpc_error, other_error, Outcome, answered, failed, Read, agreed, provider_failed,
  disagreement, invalid_data, all_equal, exact_comparable, read_client_agreement,
}
use facilitator.Ethereum.Agreement.Evidence.{
  read_client_agreement-agreed, read_client_agreement-rpc_error,
}
use facilitator.Ethereum.Reads.{
  RpcReceipt, read_hex, unsigned_hex, parse_hex_uint, normalize_hash, receipt_fields,
  decode_receipt, same_receipt, transaction_receipt, decode_hex_uint_result, lowest, highest,
  lowest_head, block_number, reverted, call, call_result, simulation_reverted, decode_hex_data,
  or_invalid,
}

pub all_equal-All :
    {T : Type 0} (same : T → T → Bool) (sound : (a b : T) → same a b ≡ true → a ≡ b) (first : T)
    (values : List T)
    → all_equal same first values ≡ true
    → All (λ x. x ≡ first) values
unfolding all_equal
all_equal-All same sound first [] h = tt
all_equal-All same sound first (value ∷ values) h =
    let (is, rest) = &&-true (same value first) (all_equal same first values) h in
    (sound value first is, all_equal-All same sound first values rest)

pub exact_comparable-All :
    {T : Type 0} (same : T → T → Bool) (sound : (a b : T) → same a b ≡ true → a ≡ b)
    (values : List T) (v : T)
    → exact_comparable same values ≡ some v
    → All (λ x. x ≡ v) values
unfolding exact_comparable
exact_comparable-All same sound [] v h = absurd (cc)
exact_comparable-All same sound (first ∷ values) v h =
    elim (Bool-cases (all_equal same first values)) [
      | inl e ↦
          let is : first ≡ v = ground (arith, e) in
          subst (λ y. All (λ x. x ≡ y) (first ∷ values)) is
            (refl, all_equal-All same sound first values e)
      | inr e ↦ absurd (ground (arith, e))
    ]

receipt_eq :
    (a b : Receipt)
    → a.status ≡ b.status
    → a.block_number ≡ b.block_number
    → a.block_hash ≡ b.block_hash
    → a.gas_used ≡ b.gas_used
    → a.effective_gas_price ≡ b.effective_gas_price
    → a ≡ b
receipt_eq a b status number hash gas price = cc

same_receipt-eq : (a b : Option Receipt) → same_receipt a b ≡ true → a ≡ b
unfolding same_receipt
same_receipt-eq none none h = refl
same_receipt-eq none (some b) h = absurd (cc)
same_receipt-eq (some a) none h = absurd (cc)
same_receipt-eq (some a) (some b) h =
    let (status, h₁) = &&-true (a.status == b.status) _ h in
    let (number, h₂) = &&-true (a.block_number == b.block_number) _ h₁ in
    let (hash, h₃) = &&-true (text_eq a.block_hash b.block_hash) _ h₂ in
    let (gas, price) = &&-true (a.gas_used == b.gas_used) _ h₃ in
    ap some (
      receipt_eq a b (==-eq _ _ status) (==-eq _ _ number) (text_eq-eq _ _ hash) (==-eq _ _ gas)
        (==-eq _ _ price))

lowest-bounds :
    (n : ℕ) (values : List ℕ) → (lowest n values ≤ n) × All (λ x. lowest n values ≤ x) values
unfolding lowest
lowest-bounds n [] = (omega arith, tt)
lowest-bounds n (m ∷ values) =
    let (le, rest) = lowest-bounds (min n m) values in (omega arith, (omega arith, rest))

highest-bounds :
    (n : ℕ) (values : List ℕ) → (n ≤ highest n values) × All (λ x. x ≤ highest n values) values
unfolding highest
highest-bounds n [] = (omega arith, tt)
highest-bounds n (m ∷ values) =
    let (le, rest) = highest-bounds (max n m) values in (omega arith, (omega arith, rest))

-- The lower head of those that are not more than two blocks apart.
abbrev pub Near : ℕ → ℕ → Type 0
Near v x = (v ≤ x) × (x ≤ v + 2)

Near-All :
    (lo hi v : ℕ) (values : List ℕ)
    → lo ≡ v
    → hi ≤ v + 2
    → All (λ x. lo ≤ x) values
    → All (λ x. x ≤ hi) values
    → All (Near v) values
Near-All lo hi v [] same le low high = tt
Near-All lo hi v (x ∷ values) same le low high =
    let above = low.0 in
    let below = high.0 in ((omega arith, omega arith), Near-All lo hi v values same le low.1 high.1)

lowest_head-Near : (values : List ℕ) (v : ℕ) → lowest_head values ≡ some v → All (Near v) values
unfolding lowest_head
lowest_head-Near [] v h = absurd (cc)
lowest_head-Near (n ∷ values) v h =
    let (low, all_low) = lowest-bounds n values in
    let (high, all_high) = highest-bounds n values in
    elim (Bool-cases (leb (highest n values - lowest n values) 2)) [
      | inl close ↦
          let same : lowest n values ≡ v = ground (arith, close) in
          let le : highest n values ≤ v + 2 = ground arith in
          Near-All (lowest n values) (highest n values) v (n ∷ values) same le (low, all_low)
            (high, all_high)
      | inr apart ↦ absurd (ground (arith, apart))
    ]

-- A head is returned only if every provider has answered one, and it is at most as high as each of
-- them, and two blocks lower at most: no provider alone makes a transaction look deeper.
pub block_number-Near :
    (outcomes : List (Outcome (Option Text))) (v : ℕ)
    → block_number outcomes ≡ agreed v
    → All
        (λ o.
          (raw : Option Text) × (o ≡ answered raw)
          × ((x : ℕ) × (decode_hex_uint_result raw ≡ some x) × Near v x))
        outcomes
unfolding block_number
block_number-Near outcomes v h =
    read_client_agreement-agreed decode_hex_uint_result lowest_head Near outcomes v lowest_head-Near
      h

-- A receipt that the service acts on is the answer of every provider, for the hash that was asked
-- for.
pub transaction_receipt-agreed :
    (tx_hash : Text) (ask : Text → List (Outcome (Option (Option RpcReceipt))))
    (receipt : Option Receipt)
    → transaction_receipt tx_hash ask ≡ some (agreed receipt)
    → (requested_hash : Text) × (normalize_hash tx_hash ≡ some requested_hash)
      × All
          (λ o.
            (raw : Option (Option RpcReceipt)) × (o ≡ answered raw)
            × ((x : Option Receipt) × (decode_receipt requested_hash raw ≡ some x) × (x ≡ receipt)))
          (ask requested_hash)
unfolding transaction_receipt
transaction_receipt-agreed tx_hash ask receipt h = elim (Option-cases (normalize_hash tx_hash)) [
  | inl bad ↦ absurd (ground (arith, bad))
  | inr (requested_hash, good) ↦ (
    requested_hash,
    good,
    read_client_agreement-agreed (decode_receipt requested_hash) (exact_comparable same_receipt)
        (λ v x. x ≡ v) (ask requested_hash) receipt
        (exact_comparable-All same_receipt same_receipt-eq) (ground (arith, good)),
  )
]

pub or_invalid-some :
    {A B : Type 0} (o : Option A) (next : A → Option B) {b : B}
    → or_invalid o next ≡ some b
    → (a : A) × (o ≡ some a) × (next a ≡ some b)
or_invalid-some none next h = absurd (cc)
or_invalid-some (some a) next h = (a, refl, h)

unless-some :
    {A : Type 0} (b : Bool) (next : Option A) {a : A}
    → (if b then none else next) ≡ some a
    → (b ≡ false) × (next ≡ some a)
unless-some true next h = absurd (cc)
unless-some false next h = (refl, h)

parse_hex_uint-bound : (value : Text) (n : ℕ) → parse_hex_uint value ≡ some n → n < 2 ^ 64
unfolding parse_hex_uint
parse_hex_uint-bound value n h = elim (Option-cases (read_hex (trim_prefix value))) [
  | inl bad ↦ absurd (ground (arith, bad))
  | inr (m, good) ↦ elim (Bool-cases (ltb m (2 ^ 64))) [
    | inl small ↦
        let same : m ≡ n = ground (arith, good, small) in
        subst (λ x. x < 2 ^ 64) same (ltb→lt m (2 ^ 64) small)
    | inr large ↦ absurd (ground (arith, good, large))
  ]
]

-- A decoded receipt belongs to the hash, has status 0 or 1, and numbers of 64 bits.
pub decode_receipt-bounds :
    (requested_hash : Text) (raw : Option (Option RpcReceipt)) (r : Receipt)
    → decode_receipt requested_hash raw ≡ some (some r)
    → (r.status ≤ 1)
      × (r.block_number < 2 ^ 64)
      × (r.gas_used < 2 ^ 64)
      × ((answer : RpcReceipt) × (raw ≡ some (some answer))
          × (normalize_hash answer.transaction_hash ≡ some requested_hash))
unfolding decode_receipt receipt_fields
decode_receipt-bounds requested_hash none r h = absurd (cc)
decode_receipt-bounds requested_hash (some none) r h = absurd (cc)
decode_receipt-bounds requested_hash (some (some answer)) r h =
    let (status, at_s, h₁) = or_invalid-some (parse_hex_uint answer.status) _ h in
    let (le, h₂) = unless-some (ltb 1 status) _ h₁ in
    let (receipt, at_r, h₃) = or_invalid-some (receipt_fields answer requested_hash status) _ h₂ in
    let (hash, at_h, r₁) = or_invalid-some (normalize_hash answer.transaction_hash) _ at_r in
    let (same, r₂) = if-some (text_eq hash requested_hash) _ r₁ in
    let (number, at_n, r₃) = or_invalid-some (parse_hex_uint answer.block_number) _ r₂ in
    let (gas, at_g, r₄) = or_invalid-some (parse_hex_uint answer.gas_used) _ r₃ in
    let (price, at_p, r₅) =
      or_invalid-some (unsigned_hex (trim_prefix answer.effective_gas_price)) _ r₄ in
    let (block_hash, at_b, r₆) = or_invalid-some (normalize_hash answer.block_hash) _ r₅ in
    let is : receipt ≡ r = cc in
    let fields = some_injective r₆ ∙ is in
    (
      subst (λ x. x ≤ 1) (ap (λ (x : Receipt). x.status) fields) (not_ltb-le status 1 le),
      subst (λ x. x < 2 ^ 64) (ap (λ (x : Receipt). x.block_number) fields)
          (parse_hex_uint-bound answer.block_number number at_n),
      subst (λ x. x < 2 ^ 64) (ap (λ (x : Receipt). x.gas_used) fields)
          (parse_hex_uint-bound answer.gas_used gas at_g),
      (answer, refl, at_h ∙ ap some (text_eq-eq hash requested_hash same)),
    )

is_reverted :
    (e : CallError) → call_result (provider_failed e) ≡ simulation_reverted → reverted e ≡ true
is_reverted e h = elim (Bool-cases (reverted e)) [
  | inl yes_ ↦ yes_
  | inr no_ ↦ absurd (ground (arith, no_))
]

-- A simulation counts as reverted only if every provider has answered with the same error, and this error says
-- that the call was executed and reverted.
pub call-simulation_reverted :
    (outcomes : List (Outcome (Option Text)))
    → call outcomes ≡ simulation_reverted
    → (code : ℤ) × (message : Text) × (reverted (rpc_error code message) ≡ true)
      × All (λ o. (e : CallError) × (o ≡ failed e) × (e ≡ rpc_error code message)) outcomes
unfolding call reverted
call-simulation_reverted outcomes h =
    by_read (read_client_agreement decode_hex_data (exact_comparable text_eq) outcomes) refl h
  where
    by_read :
        (r : Read (List ℕ))
        → read_client_agreement decode_hex_data (exact_comparable text_eq) outcomes ≡ r
        → call_result r ≡ simulation_reverted
        → (code : ℤ) × (message : Text) × (reverted (rpc_error code message) ≡ true)
          × All (λ o. (e : CallError) × (o ≡ failed e) × (e ≡ rpc_error code message)) outcomes
    by_read (agreed value) at_r e = absurd (cc)
    by_read disagreement at_r e = absurd (cc)
    by_read invalid_data at_r e = absurd (cc)
    by_read (provider_failed other_error) at_r e = absurd (cc)
    by_read (provider_failed (rpc_error code message)) at_r e = (
      code,
      message,
      is_reverted (rpc_error code message) e,
      read_client_agreement-rpc_error decode_hex_data (exact_comparable text_eq) outcomes code
          message at_r,
    )
