-- ===== src/Verification/Request/Supported.antt =====
-- internal/verification/service.go: what a request that ParseRequest accepts is like.
use facilitator.Base.{
  ℕ, ◌*◌, ◌^◌, ◌<◌, ◌≤◌, ◌≡◌, refl, sym, ap, ◌∙◌, subst, Option, none, some, Text, codes, text_eq,
  text_eq-eq, equal_fold, lower, Bool, true, false, ◌&&◌, not, ltb, ◌==◌, &&-true, ==-eq, ltb→lt,
  leb→le, arith,
}
use facilitator.Signing.Policy.{mainnet_usdc}
use facilitator.Store.Verification.{VerifiedPayment}
use facilitator.Verification.Request.{
  VerifyRequest, EvmPayload, Reason, library_reason, Library, Parsed, refused, parsed, require,
  found, ◌>>=◌, ◌>>◌, lookup_field, count_fields, is_text, is_supported_method, unsigned_decimal,
  valid_unix, required_amount, is_fixed_hex, identity_of, identify, check_requirements,
  is_exact_shape, check_payload, check_authorization, parse_request, Requirements, Fields,
  invalid_version, invalid_scheme, missing_domain, recipient_mismatch, invalid_required_amount,
  unsupported_payload_type, invalid_payload, value_mismatch, invalid_signature_format,
  requirements_mismatch, unsupported_network, unsupported_asset, unsupported_extension,
  unsupported_transfer_method,
}

-- The one supported lane: x402 version 2, exact, native USDC on mainnet, and a payment of the very
-- amount and to the very recipient that are required, whose bounds, nonce and signature are well formed.
pub record Supported (library : Library) (request : VerifyRequest) (payment : VerifiedPayment)
    : Type 0 where
  pub version : (request.x402_version ≡ 2) × (request.payment_payload.x402_version ≡ 2)
  pub scheme : request.payment_requirements.scheme ≡ codes "exact"
  pub network : request.payment_requirements.network ≡ codes "eip155:1"
  pub of_usdc : payment.asset ≡ lower mainnet_usdc
  pub evm : EvmPayload
  pub from_payload : library.payload_from_map request.payment_payload.payload ≡ some evm
  pub of_payer : payment.payer ≡ lower evm.from
  pub to_payee : payment.recipient ≡ lower request.payment_requirements.pay_to
  pub of_amount : unsigned_decimal evm.value ≡ some payment.amount
  pub same_amount : required_amount request.payment_requirements.amount ≡ some payment.amount
  pub in_time : payment.valid_after < payment.valid_before
  pub until_9999 : payment.valid_before ≤ 253402300799 * 10 ^ 9
  pub of_nonce : (payment.nonce ≡ lower evm.nonce) × (is_fixed_hex 32 evm.nonce ≡ true)
  pub of_signature :
      (payment.signature ≡ lower evm.signature) × (is_fixed_hex 65 evm.signature ≡ true)

require-parsed {ℓ} :
    {A : Type ℓ} (b : Bool) (x : Reason) (r : Parsed A) {a : A}
    → (require b x >> r) ≡ parsed a
    → (b ≡ true) × (r ≡ parsed a)
require-parsed true x r h = (refl, h)
require-parsed false x r h = absurd (cc)

found-parsed {ℓ κ} :
    {A : Type ℓ} {B : Type κ} (o : Option A) (x : Reason) (next : A → Parsed B) {b : B}
    → (found o x >>= next) ≡ parsed b
    → (a : A) × (o ≡ some a) × (next a ≡ parsed b)
found-parsed none x next h = absurd (cc)
found-parsed (some a) x next h = (a, refl, h)

>>=-parsed {ℓ κ} :
    {A : Type ℓ} {B : Type κ} (first : Parsed A) (next : A → Parsed B) {b : B}
    → (first >>= next) ≡ parsed b
    → (a : A) × (first ≡ parsed a) × (next a ≡ parsed b)
>>=-parsed (refused x) next h = absurd (cc)
>>=-parsed (parsed a) next h = (a, refl, h)

parsed_injective {ℓ} : {A : Type ℓ} {a b : A} → parsed a ≡ parsed b → a ≡ b
parsed_injective h = cc

found-parsed_last {ℓ} :
    {A : Type ℓ} (o : Option A) (x : Reason) {a : A} → found o x ≡ parsed a → o ≡ some a
found-parsed_last none x h = absurd (cc)
found-parsed_last (some a) x h = ap some (parsed_injective h)

-- The record that ParseRequest returns.
abbrev payment_of :
    VerifyRequest
    → EvmPayload
    → (value after before : ℕ) → (identity payload_hash : Text) → VerifiedPayment
payment_of request evm value after before identity payload_hash = record {
  identity = identity;
  asset = lower request.payment_requirements.asset;
  payer = lower evm.from;
  recipient = lower evm.to;
  amount = value;
  nonce = lower evm.nonce;
  valid_after = after * 10 ^ 9;
  valid_before = before * 10 ^ 9;
  payload_hash = payload_hash;
  signature = lower evm.signature;
}

record Lane (request : VerifyRequest) (amount : ℕ) : Type 0 where
  version : (request.x402_version ≡ 2) × (request.payment_payload.x402_version ≡ 2)
  scheme : request.payment_requirements.scheme ≡ codes "exact"
  network : request.payment_requirements.network ≡ codes "eip155:1"
  asset : lower request.payment_requirements.asset ≡ lower mainnet_usdc
  required : required_amount request.payment_requirements.amount ≡ some amount

equal_fold-eq : (s t : Text) → equal_fold s t ≡ true → lower s ≡ lower t
unfolding equal_fold
equal_fold-eq s t h = text_eq-eq (lower s) (lower t) h

check_requirements-Lane :
    (library : Library) (request : VerifyRequest) (amount : ℕ)
    → check_requirements library request ≡ parsed amount
    → Lane request amount
unfolding check_requirements
check_requirements-Lane library request amount h =
    let (versions, h₁) =
      require-parsed (request.x402_version == 2 && request.payment_payload.x402_version == 2)
        (library_reason invalid_version) _ h in
    let (agree, h₂) =
      require-parsed (library.deep_equal request.payment_payload.accepted needs)
        requirements_mismatch _ h₁ in
    let (schemes, h₃) =
      require-parsed
        (text_eq needs.scheme (codes "exact")
          && text_eq request.payment_payload.accepted.scheme (codes "exact"))
        (library_reason invalid_scheme) _ h₂ in
    let (on_network, h₄) =
      require-parsed (text_eq needs.network (codes "eip155:1")) unsupported_network _ h₃ in
    let (usdc, h₅) = require-parsed (equal_fold needs.asset mainnet_usdc) unsupported_asset _ h₄ in
    let (plain, h₆) =
      require-parsed (count_fields request.payment_payload.extensions == 0) unsupported_extension _
        h₅ in
    let (method, h₇) =
      require-parsed (is_supported_method (lookup_field (codes "assetTransferMethod") needs.extra))
        unsupported_transfer_method _ h₆ in
    let (domain, h₈) =
      require-parsed
        (is_text (lookup_field (codes "name") needs.extra) (codes "USD Coin")
          && is_text (lookup_field (codes "version") needs.extra) (codes "2"))
        (library_reason missing_domain) _ h₇ in
    let (payee, h₉) =
      require-parsed (library.is_hex_address needs.pay_to) (library_reason recipient_mismatch) _
        h₈ in
    let (outer, inner) = &&-true (request.x402_version == 2) _ versions in
    record {
      version = (==-eq _ 2 outer, ==-eq _ 2 inner);
      scheme =
          text_eq-eq needs.scheme _ (&&-true (text_eq needs.scheme (codes "exact")) _ schemes).0;
      network = text_eq-eq needs.network _ on_network;
      asset = equal_fold-eq needs.asset mainnet_usdc usdc;
      required =
          found-parsed_last (required_amount needs.amount) (library_reason invalid_required_amount)
            h₉;
    }
  where
    needs : Requirements
    needs = request.payment_requirements

check_payload-payee :
    (library : Library) (request : VerifyRequest) (evm : EvmPayload)
    → check_payload library request ≡ parsed evm
    → (library.payload_from_map request.payment_payload.payload ≡ some evm)
      × (lower evm.to ≡ lower request.payment_requirements.pay_to)
unfolding check_payload
check_payload-payee library request evm h =
    let (kind, h₁) =
      require-parsed (not (library.is_permit2_payload fields) && library.is_eip3009_payload fields)
        (library_reason unsupported_payload_type) _ h in
    let (e, at_e, h₂) =
      found-parsed (library.payload_from_map fields) (library_reason invalid_payload) _ h₁ in
    let (shape, h₃) =
      require-parsed (is_exact_shape fields) (library_reason invalid_payload) _ h₂ in
    let (addresses, h₄) =
      require-parsed
        (library.is_hex_address e.from && (library.is_hex_address e.to && equal_fold e.to pay_to))
        (library_reason recipient_mismatch) (parsed e) h₃ in
    let same = parsed_injective h₄ in
    let hex_to = (&&-true (library.is_hex_address e.from) _ addresses).1 in
    (
      at_e ∙ ap some same,
      subst (λ x. lower x.to ≡ lower pay_to) same
          (equal_fold-eq e.to pay_to (&&-true (library.is_hex_address e.to) _ hex_to).1),
    )
  where
    fields : Fields
    fields = request.payment_payload.payload

    pay_to : Text
    pay_to = request.payment_requirements.pay_to

identify-payment :
    (library : Library) (request : VerifyRequest) (evm : EvmPayload) (value after before : ℕ)
    (payment : VerifiedPayment)
    → identify library request evm value after before ≡ parsed payment
    → (identity payload_hash : Text) × (payment
        ≡ payment_of request evm value after before identity payload_hash)
identify-payment library request evm value after before payment h =
    let (identity, at_i, h₁) =
      found-parsed (identity_of library request evm value after before)
        (library_reason invalid_payload) hashed h in
    let (encoded, at_e, h₂) =
      found-parsed (library.marshal request.payment_payload) (library_reason invalid_payload)
        (λ encoded.
          parsed (payment_of request evm value after before identity (library.sha256 encoded)))
        h₁ in
    (identity, library.sha256 encoded, sym (parsed_injective h₂))
  where
    hashed : Text → Parsed VerifiedPayment
    hashed identity =
        found (library.marshal request.payment_payload) (library_reason invalid_payload)
        >>= λ encoded.
            parsed (payment_of request evm value after before identity (library.sha256 encoded))

-- What ParseRequest accepts is supported.
pub parse_request-Supported :
    (library : Library) (request : VerifyRequest) (payment : VerifiedPayment)
    → parse_request library request ≡ parsed payment
    → Supported library request payment
unfolding parse_request check_authorization valid_unix
parse_request-Supported library request payment h =
    let (required, at_r, h₁) = >>=-parsed (check_requirements library request) _ h in
    let (evm, at_e, h₂) = >>=-parsed (check_payload library request) _ h₁ in
    let (value, at_v, h₃) =
      found-parsed (unsigned_decimal evm.value) (library_reason invalid_payload) _ h₂ in
    let (after, at_a, h₄) =
      found-parsed (unsigned_decimal evm.valid_after) (library_reason invalid_payload) _ h₃ in
    let (before, at_b, h₅) =
      found-parsed (unsigned_decimal evm.valid_before) (library_reason invalid_payload) _ h₄ in
    let (times, h₆) =
      require-parsed (valid_unix after && (valid_unix before && ltb after before))
        (library_reason invalid_payload) _ h₅ in
    let (same, h₇) = require-parsed (value == required) (library_reason value_mismatch) _ h₆ in
    let (nonce, h₈) =
      require-parsed (is_fixed_hex 32 evm.nonce) (library_reason invalid_payload) _ h₇ in
    let (signature, h₉) =
      require-parsed (is_fixed_hex 65 evm.signature) (library_reason invalid_signature_format) _
        h₈ in
    let (identity, payload_hash, is_payment) =
      identify-payment library request evm value after before payment h₉ in
    let lane = check_requirements-Lane library request required at_r in
    let (at_map, payee) = check_payload-payee library request evm at_e in
    let (late, ordered) =
      &&-true (valid_unix before) (ltb after before) (&&-true (valid_unix after) _ times).1 in
    let bounded = leb→le before 253402300799 (&&-true (ltb before (2 ^ 63)) _ late).1 in
    let increasing = ltb→lt after before ordered in
    subst (Supported library request) (sym is_payment) (record {
      version = lane.version;
      scheme = lane.scheme;
      network = lane.network;
      of_usdc = lane.asset;
      evm = evm;
      from_payload = at_map;
      of_payer = refl;
      to_payee = payee;
      of_amount = at_v;
      same_amount = lane.required ∙ ap some (sym (==-eq value required same));
      in_time = omega arith;
      until_9999 = omega arith;
      of_nonce = (refl, nonce);
      of_signature = (refl, signature);
    })
