-- ===== src/Signing/Policy/Ceilings.antt =====
-- internal/policy/policy.go: what the boundary is willing to sign.
use facilitator.Base.{
  ℕ, ◌≡◌, ◌≢◌, refl, sym, subst, ◌∙◌, ap, ◌<◌, ◌≤◌, Option, none, some, Bool, true, false, ◌||◌,
  not, ltb, ◌==◌, if◌then◌else◌, ℤ, pos, negsuc, set_string, arith, ltb→lt, Option-cases,
  Bool-cases, inl, inr,
}
use facilitator.Signing.Policy.{
  Verdict, refused, allowed, invalid_request, over_limit, PolicyError, Request, Limits,
  DynamicFeeTx, Encoder, mainnet_usdc, exceeds, transfer_with_authorization_data, configured, build,
  within_limits, unsigned, is_positive, is_negative, checked,
}

-- The transaction is the one that the boundary exists for, with the caller's nonce, gas and fees, and
-- these are within the ceilings.
pub record Permitted (encoder : Encoder) (request : Request) (limits : Limits) (tx : DynamicFeeTx)
    : Type 0 where
  pub on_mainnet : tx.chain_id ≡ 1
  pub to_usdc : tx.to ≡ encoder.hex_to_address mainnet_usdc
  pub no_ether : tx.value ≡ 0
  pub same_nonce : tx.nonce ≡ request.nonce
  pub same_gas : tx.gas ≡ request.gas_limit
  pub some_gas : 0 < tx.gas
  pub gas_bounded : tx.gas ≤ limits.max_gas_limit
  pub fee : ℕ
  pub tip : ℕ
  pub same_fee : (set_string request.max_fee_per_gas ≡ some (pos fee)) × (tx.gas_fee_cap ≡ pos fee)
  pub same_tip :
      (set_string request.max_priority_fee_per_gas ≡ some (pos tip)) × (tx.gas_tip_cap ≡ pos tip)
  pub some_fee : 0 < fee
  pub tip_bounded : tip ≤ fee
  pub fee_ceiling : ℤ
  pub tip_ceiling : ℤ
  pub ceilings :
      (limits.max_fee_per_gas_wei ≡ some fee_ceiling)
      × (limits.max_priority_fee_per_gas_wei ≡ some tip_ceiling)
  pub below_ceilings :
      (exceeds (pos fee) fee_ceiling ≡ false) × (exceeds (pos tip) tip_ceiling ≡ false)
  pub calldata : transfer_with_authorization_data encoder request.authorization ≡ some tx.data_bytes

if-allowed {ℓ} :
    {A : Type ℓ} (b : Bool) (e : PolicyError) (next : Verdict A) {a : A}
    → (if b then refused e else next) ≡ allowed a
    → (b ≡ false) × (next ≡ allowed a)
if-allowed true e next h = absurd (cc)
if-allowed false e next h = (refl, h)

found-allowed {ℓ κ} :
    {A : Type ℓ} {B : Type κ} (o : Option B) (e : PolicyError) (next : B → Verdict A) {a : A}
    → elim o as (λ x. Verdict A) [ none ↦ refused e | some b ↦ next b ] ≡ allowed a
    → (b : B) × (o ≡ some b) × (next b ≡ allowed a)
found-allowed none e next h = absurd (cc)
found-allowed (some b) e next h = (b, refl, h)

allowed_injective {ℓ} : {A : Type ℓ} {a b : A} → allowed a ≡ allowed b → a ≡ b
allowed_injective h = cc

checked-some :
    (test : ℤ → Bool) (o : Option ℤ) (n : ℤ)
    → checked test o ≡ some n
    → (o ≡ some n) × (test n ≡ true)
checked-some test none n h = absurd (cc)
checked-some test (some m) n h = elim (Bool-cases (test m)) [
  | inl e ↦ let same : m ≡ n = ground (arith, e) in (ap some same, ap test (sym same) ∙ e)
  | inr e ↦ absurd (ground (arith, e))
]

configured-some :
    (limits : Limits) (f t : ℤ)
    → configured limits ≡ some (f, t)
    → (limits.max_fee_per_gas_wei ≡ some f) × (limits.max_priority_fee_per_gas_wei ≡ some t)
unfolding configured
configured-some limits f t h = elim (Bool-cases (limits.max_gas_limit == 0)) [
  | inl zero_ ↦ absurd (ground (arith, zero_))
  | inr gas ↦ elim (Option-cases limits.max_fee_per_gas_wei) [
    | inl no_fee ↦ absurd (ground (arith, gas, no_fee))
    | inr (g, fee) ↦ elim (Option-cases limits.max_priority_fee_per_gas_wei) [
      | inl no_tip ↦ absurd (ground (arith, gas, fee, no_tip))
      | inr (u, tip) ↦ (ground (arith, gas, fee, tip), ground (arith, gas, fee, tip))
    ]
  ]
]

three_false : (a b c : Bool) → (a || (b || c)) ≡ false → (a ≡ false) × (b ≡ false) × (c ≡ false)
three_false true b c h = absurd (cc)
three_false false true c h = absurd (cc)
three_false false false c h = (refl, refl, h)

pub not_ltb-le : (a b : ℕ) → ltb b a ≡ false → a ≤ b
not_ltb-le a b h = ground arith

built :
    (encoder : Encoder) (request : Request) (limits : Limits) (f t : ℤ) (tx : DynamicFeeTx)
    (fee tip : ℕ)
    → request.gas_limit ≢ 0
    → set_string request.max_fee_per_gas ≡ some (pos fee)
    → 0 < fee
    → set_string request.max_priority_fee_per_gas ≡ some (pos tip)
    → tip ≤ fee
    → configured limits ≡ some (f, t)
    → (ltb limits.max_gas_limit request.gas_limit || (exceeds (pos fee) f || exceeds (pos tip) t))
      ≡ false
    → build encoder request (pos fee) (pos tip) ≡ allowed tx
    → Permitted encoder request limits tx
unfolding build
built encoder request limits f t tx fee tip gas at_fee paid at_tip tip_le at_limits below h =
    let (calldata, at_c, h₁) =
      found-allowed (transfer_with_authorization_data encoder request.authorization) invalid_request
        _ h in
    subst (Permitted encoder request limits) (allowed_injective h₁) (record {
      on_mainnet = refl;
      to_usdc = refl;
      no_ether = refl;
      same_nonce = refl;
      same_gas = refl;
      some_gas = omega arith;
      gas_bounded = gas_le;
      fee = fee;
      tip = tip;
      same_fee = (at_fee, refl);
      same_tip = (at_tip, refl);
      some_fee = paid;
      tip_bounded = tip_le;
      fee_ceiling = f;
      tip_ceiling = t;
      ceilings = configured-some limits f t at_limits;
      below_ceilings = (below_all.1, below_all.2);
      calldata = at_c;
    })
  where
    below_all :
        (ltb limits.max_gas_limit request.gas_limit ≡ false)
        × (exceeds (pos fee) f ≡ false)
        × (exceeds (pos tip) t ≡ false)
    below_all = three_false _ _ _ below

    gas_le : request.gas_limit ≤ limits.max_gas_limit
    gas_le = not_ltb-le _ _ below_all.0

by_sign :
    (encoder : Encoder) (request : Request) (limits : Limits) (tx : DynamicFeeTx) (max_fee tip : ℤ)
    → request.gas_limit ≢ 0
    → (set_string request.max_fee_per_gas ≡ some max_fee) × (is_positive max_fee ≡ true)
    → (set_string request.max_priority_fee_per_gas ≡ some tip) × (not (is_negative tip) ≡ true)
    → exceeds tip max_fee ≡ false
    → within_limits encoder request limits max_fee tip ≡ allowed tx
    → Permitted encoder request limits tx
unfolding within_limits exceeds
by_sign encoder request limits tx (pos f) (pos t) gas fee tip ordered h =
    let (ceilings, at_c, h₁) = found-allowed (configured limits) over_limit _ h in
    let (below, h₂) =
      if-allowed
        (ltb limits.max_gas_limit request.gas_limit
          || (exceeds (pos f) ceilings.0 || exceeds (pos t) ceilings.1))
        over_limit _ h₁ in
    built encoder request limits ceilings.0 ceilings.1 tx f t gas fee.0 (ltb→lt 0 f fee.1) tip.0
      (not_ltb-le _ _ ordered) at_c below h₂
by_sign encoder request limits tx (pos f) (negsuc t) gas fee tip ordered h =
    absurd (ground (arith, tip.1))
by_sign encoder request limits tx (negsuc f) tip gas fee is_tip ordered h =
    absurd (ground (arith, fee.1))

-- Whatever the boundary builds is a call of USDC on chain 1 without ether, with the calldata of the request's own
-- authorization, the caller's nonce and gas, and fees that are positive, ordered and within the
-- ceilings; with a ceiling that is not configured it builds nothing.
pub unsigned-Permitted :
    (encoder : Encoder) (request : Request) (limits : Limits) (tx : DynamicFeeTx)
    → unsigned encoder request limits ≡ allowed tx
    → Permitted encoder request limits tx
unfolding unsigned
unsigned-Permitted encoder request limits tx h =
    let (gas, h₁) = if-allowed (request.gas_limit == 0) invalid_request _ h in
    let (max_fee, at_f, h₂) =
      found-allowed (checked is_positive (set_string request.max_fee_per_gas)) invalid_request _
        h₁ in
    let (tip, at_t, h₃) =
      found-allowed
        (checked (λ n. not (is_negative n)) (set_string request.max_priority_fee_per_gas))
        invalid_request _ h₂ in
    let (ordered, h₄) = if-allowed (exceeds tip max_fee) invalid_request _ h₃ in
    by_sign encoder request limits tx max_fee tip (ground arith)
      (checked-some is_positive _ max_fee at_f) (checked-some (λ n. not (is_negative n)) _ tip at_t)
      ordered h₄
