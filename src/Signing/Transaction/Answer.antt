-- ===== src/Signing/Transaction/Answer.antt =====
-- internal/signer/policy.go: what the process takes from the policy signer is what it asked for.
use facilitator.Base.{
  ℕ, ◌≡◌, refl, sym, subst, ap, ◌<◌, Option, none, some, List, [], Text, text_eq, text_eq-eq,
  is_empty, equal_fold, Bool, true, false, ◌&&◌, not, leb, ◌==◌, ==-eq, if◌then◌else◌, ℤ, pos,
  negsuc, length, set_string, arith, &&-true,
}
use facilitator.Settlement.Calldata.{first_bytes}
use facilitator.Signing.Policy.{Request, mainnet_usdc, is_positive, is_negative}
use facilitator.Signing.Transaction.{
  Transaction, expect, is_number, is_zero, ordered, validate, Decoded, Codec, int_eq, equal_wei,
  sent_to, mismatches, SignedTransaction, none_of, verify, request_of, sign_transaction,
  type_differs, chain_differs, nonce_differs, recipient_differs, value_differs, calldata_differs,
  gas_differs, fee_differs, tip_differs, other_chain, other_contract, other_function, no_gas,
  some_ether, bad_max_fee, bad_priority_fee, priority_above_max,
}

expect-none {ℓ} :
    {A : Type ℓ} (b : Bool) (complaint : A) (rest : List A)
    → none_of (expect b complaint rest) ≡ true
    → (b ≡ true) × (none_of rest ≡ true)
expect-none true complaint rest h = (refl, h)
expect-none false complaint rest h = absurd (cc)

pub int_eq-eq : (a b : ℤ) → int_eq a b ≡ true → a ≡ b
unfolding int_eq
int_eq-eq (pos a) (pos b) h = ap pos (==-eq a b h)
int_eq-eq (negsuc a) (negsuc b) h = ap negsuc (==-eq a b h)
int_eq-eq (pos a) (negsuc b) h = absurd (cc)
int_eq-eq (negsuc a) (pos b) h = absurd (cc)

equal_wei-eq : (got : ℤ) (want : Text) → equal_wei got want ≡ true → set_string want ≡ some got
unfolding equal_wei
equal_wei-eq got want h = number (set_string want) h
  where
    number : (o : Option ℤ) → is_number (λ n. int_eq got n) o ≡ true → o ≡ some got
    number none e = absurd (cc)
    number (some n) e = ap some (sym (int_eq-eq got n e))

-- The decoded transaction is the one that was asked for.
pub record Same (codec : Codec) (signed : Decoded) (want : Transaction) : Type 0 where
  pub is_dynamic_fee : signed.transaction_type ≡ 2
  pub same_chain : signed.chain_id ≡ want.chain_id
  pub same_nonce : signed.nonce ≡ want.nonce
  pub same_recipient : sent_to codec signed.to want.to ≡ true
  pub no_ether : signed.value ≡ 0
  pub same_calldata : signed.data_bytes ≡ want.data_bytes
  pub same_gas : signed.gas ≡ want.gas_limit
  pub same_fee : set_string want.max_fee_per_gas ≡ some signed.gas_fee_cap
  pub same_tip : set_string want.max_priority_fee_per_gas ≡ some signed.gas_tip_cap

mismatches-Same :
    (codec : Codec) (signed : Decoded) (want : Transaction)
    → none_of (mismatches codec signed want) ≡ true
    → Same codec signed want
unfolding mismatches
mismatches-Same codec signed want h =
    let (is_type, h₁) = expect-none (signed.transaction_type == 2) type_differs _ h in
    let (chain, h₂) = expect-none (signed.chain_id == want.chain_id) chain_differs _ h₁ in
    let (nonce, h₃) = expect-none (signed.nonce == want.nonce) nonce_differs _ h₂ in
    let (to, h₄) = expect-none (sent_to codec signed.to want.to) recipient_differs _ h₃ in
    let (value, h₅) = expect-none (signed.value == 0) value_differs _ h₄ in
    let (calldata, h₆) =
      expect-none (text_eq signed.data_bytes want.data_bytes) calldata_differs _ h₅ in
    let (gas, h₇) = expect-none (signed.gas == want.gas_limit) gas_differs _ h₆ in
    let (fee, h₈) =
      expect-none (equal_wei signed.gas_fee_cap want.max_fee_per_gas) fee_differs _ h₇ in
    let (tip, h₉) =
      expect-none (equal_wei signed.gas_tip_cap want.max_priority_fee_per_gas) tip_differs [] h₈ in
    record {
      is_dynamic_fee = ==-eq _ 2 is_type;
      same_chain = ==-eq _ _ chain;
      same_nonce = ==-eq _ _ nonce;
      same_recipient = to;
      no_ether = ==-eq _ 0 value;
      same_calldata = text_eq-eq _ _ calldata;
      same_gas = ==-eq _ _ gas;
      same_fee = equal_wei-eq signed.gas_fee_cap want.max_fee_per_gas fee;
      same_tip = equal_wei-eq signed.gas_tip_cap want.max_priority_fee_per_gas tip;
    }

-- What Validate lets through.
pub record Safe (selector : List ℕ) (t : Transaction) : Type 0 where
  pub on_mainnet : t.chain_id ≡ 1
  pub to_usdc : equal_fold t.to mainnet_usdc ≡ true
  pub calls_transfer : first_bytes 4 t.data_bytes ≡ selector
  pub some_gas : 0 < t.gas_limit
  pub zero_value : is_number is_zero (set_string t.value) ≡ true
  pub positive_fee : is_number is_positive (set_string t.max_fee_per_gas) ≡ true
  pub unsigned_tip :
      is_number (λ n. not (is_negative n)) (set_string t.max_priority_fee_per_gas) ≡ true
  pub tip_bounded :
      ordered (set_string t.max_fee_per_gas) (set_string t.max_priority_fee_per_gas) ≡ true

positive : (n : ℕ) → not (n == 0) ≡ true → 0 < n
positive n h = ground arith

validate-Safe :
    (selector : List ℕ) (t : Transaction) → none_of (validate selector t) ≡ true → Safe selector t
unfolding validate
validate-Safe selector t h =
    let (chain, h₁) = expect-none (t.chain_id == 1) other_chain _ h in
    let (to, h₂) = expect-none (equal_fold t.to mainnet_usdc) other_contract _ h₁ in
    let (call, h₃) =
      expect-none (leb 4 (length t.data_bytes) && text_eq (first_bytes 4 t.data_bytes) selector)
        other_function _ h₂ in
    let (gas, h₄) = expect-none (not (t.gas_limit == 0)) no_gas _ h₃ in
    let (value, h₅) = expect-none (is_number is_zero (set_string t.value)) some_ether _ h₄ in
    let (fee, h₆) =
      expect-none (is_number is_positive (set_string t.max_fee_per_gas)) bad_max_fee _ h₅ in
    let (tip, h₇) =
      expect-none (is_number (λ n. not (is_negative n)) (set_string t.max_priority_fee_per_gas))
        bad_priority_fee _ h₆ in
    let (bounded, h₈) =
      expect-none (ordered (set_string t.max_fee_per_gas) (set_string t.max_priority_fee_per_gas))
        priority_above_max [] h₇ in
    record {
      on_mainnet = ==-eq _ 1 chain;
      to_usdc = to;
      calls_transfer = text_eq-eq _ _ (&&-true _ _ call).1;
      some_gas = positive _ gas;
      zero_value = value;
      positive_fee = fee;
      unsigned_tip = tip;
      tip_bounded = bounded;
    }

found-some {ℓ κ} :
    {A : Type ℓ} {B : Type κ} (o : Option B) (next : B → Option A) {a : A}
    → elim o as (λ x. Option A) [ none ↦ none | some b ↦ next b ] ≡ some a
    → (b : B) × (o ≡ some b) × (next b ≡ some a)
found-some none next h = absurd (cc)
found-some (some b) next h = (b, refl, h)

pub if-some {ℓ} :
    {A : Type ℓ} (b : Bool) (next : Option A) {a : A}
    → (if b then next else none) ≡ some a
    → (b ≡ true) × (next ≡ some a)
if-some true next h = (refl, h)
if-some false next h = absurd (cc)

if_not-some {ℓ} :
    {A : Type ℓ} (b : Bool) (next : Option A) {a : A}
    → (if b then none else next) ≡ some a
    → next ≡ some a
if_not-some true next h = absurd (cc)
if_not-some false next h = h

pub some_injective {ℓ} : {A : Type ℓ} {a b : A} → some a ≡ some b → a ≡ b
some_injective h = cc

-- The bytes decode to the transaction asked for, signed by the address, with its own digest.
pub record Answers (codec : Codec) (address : Text) (signed : SignedTransaction)
    (want : Transaction) : Type 0 where
  pub decoded : Decoded
  pub sender : List ℕ
  pub from_bytes : codec.unmarshal signed.raw ≡ some decoded
  pub same : Same codec decoded want
  pub signed_by : codec.sender want.chain_id decoded ≡ some sender
  pub is_address : equal_fold (codec.hex sender) address ≡ true
  pub digest : signed.sig_hash ≡ codec.hash want.chain_id decoded

verify-Answers :
    (codec : Codec) (address : Text) (raw : List ℕ) (want : Transaction)
    (signed : SignedTransaction)
    → verify codec address raw want ≡ some signed
    → Answers codec address signed want
unfolding verify
verify-Answers codec address raw want signed h =
    let (decoded, at_d, h₁) = found-some (codec.unmarshal raw) _ h in
    let (same, h₂) = if-some (none_of (mismatches codec decoded want)) _ h₁ in
    let (sender, at_s, h₃) = found-some (codec.sender want.chain_id decoded) _ h₂ in
    let (is_address, h₄) = if-some (equal_fold (codec.hex sender) address) _ h₃ in
    subst (λ x. Answers codec address x want) (some_injective h₄)
      (record {
        decoded = decoded;
        sender = sender;
        from_bytes = at_d;
        same = mismatches-Same codec decoded want same;
        signed_by = at_s;
        is_address = is_address;
        digest = refl;
      })

-- Whatever the policy signer answers: a signed transaction that the client returns was safe to ask for
-- (USDC on chain 1, transferWithAuthorization, no ether, gas and ordered fees), and its bytes decode to exactly
-- what was asked for, signed by the address that the client knows, with the digest derived here.
pub sign_transaction-Answers :
    (codec : Codec) (selector : List ℕ) (address : Text) (boundary : Request → Option (List ℕ))
    (t : Transaction) (signed : SignedTransaction)
    → sign_transaction codec selector address boundary t ≡ some signed
    → Safe selector t × Answers codec address signed t
unfolding sign_transaction
sign_transaction-Answers codec selector address boundary t signed h =
    let (safe, h₁) = if-some (none_of (validate selector t)) _ h in
    let (authorization, at_a, h₂) = found-some t.authorization _ h₁ in
    let (raw, at_r, h₃) = found-some (boundary (request_of t authorization)) _ h₂ in
    let h₄ = if_not-some (is_empty raw) (verify codec address raw t) h₃ in
    (validate-Safe selector t safe, verify-Answers codec address raw t signed h₄)
