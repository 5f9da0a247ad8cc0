-- ===== src/Verification/Request.antt =====
-- internal/verification/service.go: ParseRequest, and internal/x402/payment.go: PaymentID. The x402
-- library, go-ethereum's test on addresses, SHA-256 and json.Marshal are parameters.
pub mod Supported
use facilitator.Base.{
  ℕ, suc, ◌+◌, ◌*◌, ◌-◌, ◌^◌, ◌/◌, ◌%◌, Option, none, some, List, [], ◌∷◌, ◌++◌, Text, codes,
  text_eq, is_empty, equal_fold, has_prefix, lower, length, Bool, true, false, ◌&&◌, ◌||◌, not, leb,
  ltb, ◌==◌, if◌then◌else◌, read_unsigned, format_int,
}
use facilitator.Settlement.Calldata.{decode_string, trim_prefix}
use facilitator.Signing.Policy.{mainnet_usdc}
use facilitator.Store.Verification.{VerifiedPayment}

-- interface{} as encoding/json fills it.
mutual
  pub data Json : Type 0 where
    json_null : Json
    json_bool : Bool → Json
    json_number : Text → Json
    json_string : Text → Json
    json_array : Elements → Json
    json_object : Fields → Json

  pub data Elements : Type 0 where
    no_elements : Elements
    element : Json → Elements → Elements

  pub data Fields : Type 0 where
    no_fields : Fields
    field : Text → Json → Fields → Fields

-- PaymentRequirements and PaymentPayload of the x402 library, with the fields that are read.
pub record Requirements : Type 0 where
  pub scheme : Text
  pub network : Text
  pub asset : Text
  pub amount : Text
  pub pay_to : Text
  pub extra : Fields

pub record PaymentPayload : Type 0 where
  pub x402_version : ℕ
  pub accepted : Requirements
  pub payload : Fields
  pub extensions : Fields

pub record VerifyRequest : Type 0 where
  pub x402_version : ℕ
  pub payment_payload : PaymentPayload
  pub payment_requirements : Requirements

-- x402evm.ExactEIP3009Payload.
pub record EvmPayload : Type 0 where
  pub from : Text
  pub to : Text
  pub value : Text
  pub valid_after : Text
  pub valid_before : Text
  pub nonce : Text
  pub signature : Text

-- The reasons that the x402 library names.
pub data LibraryReason : Type 0 where
  invalid_version invalid_scheme missing_domain recipient_mismatch invalid_required_amount
        unsupported_payload_type invalid_payload value_mismatch invalid_signature_format :
      LibraryReason

pub data Reason : Type 0 where
  library_reason : LibraryReason → Reason
  requirements_mismatch unsupported_network unsupported_asset unsupported_extension
        unsupported_transfer_method :
      Reason

pub record Library : Type 0 where
  pub deep_equal : Requirements → Requirements → Bool
  pub is_permit2_payload : Fields → Bool
  pub is_eip3009_payload : Fields → Bool
  pub payload_from_map : Fields → Option EvmPayload
  pub is_hex_address : Text → Bool
  pub marshal : PaymentPayload → Option Text
  -- In lower-case hex.
  pub sha256 : Text → Text
  pub text_of : LibraryReason → Text

pub data Parsed {ℓ} (A : Type ℓ) : Type ℓ where
  refused : Reason → Parsed A
  parsed : A → Parsed A

abbrev pub require : Bool → Reason → Parsed (Unit {0})
require true reason = parsed tt
require false reason = refused reason

abbrev pub found {ℓ} : {A : Type ℓ} → Option A → Reason → Parsed A
found none reason = refused reason
found (some a) reason = parsed a

infixl 5 ◌>>=◌ ◌>>◌
abbrev pub ◌>>=◌ {ℓ κ} : {A : Type ℓ} {B : Type κ} → Parsed A → (A → Parsed B) → Parsed B
refused reason >>= next = refused reason
parsed a >>= next = next a

abbrev pub ◌>>◌ {κ} : {B : Type κ} → Parsed (Unit {0}) → Parsed B → Parsed B
first >> next = first >>= λ u. next

unfoldable pub lookup_field : Text → Fields → Option Json
unfolding text_eq
lookup_field name no_fields = none
lookup_field name (field key value rest) =
    if text_eq key name then some value else lookup_field name rest

unfoldable pub count_fields : Fields → ℕ
count_fields no_fields = 0
count_fields (field key value rest) = suc (count_fields rest)

-- A value of a map compared with a string.
unfoldable pub is_text : Option Json → Text → Bool
unfolding text_eq
is_text (some (json_string s)) t = text_eq s t
is_text _ t = false

unfoldable pub is_supported_method : Option Json → Bool
unfolding is_text
is_supported_method none = true
is_supported_method (some value) = is_text (some value) (codes "eip3009")

-- unsignedDecimal.
unfoldable pub unsigned_decimal : Text → Option ℕ
unfolding read_unsigned has_prefix
unsigned_decimal value =
    if is_empty value || (has_prefix value (codes "+") || has_prefix value (codes "-"))
    then none
    else read_unsigned value

-- validUnix.
unfoldable pub valid_unix : ℕ → Bool
valid_unix n = ltb n (2 ^ 63) && leb n 253402300799

-- A positive amount of at most 2^256 - 1.
unfoldable pub required_amount : Text → Option ℕ
unfolding unsigned_decimal
required_amount amount = elim (unsigned_decimal amount) [
  | none ↦ none
  | some n ↦ if ltb 0 n && leb n (2 ^ 256 - 1) then some n else none
]

-- Texts of hex digits behind "0x" for so many bytes.
unfoldable pub is_fixed_hex : ℕ → Text → Bool
unfolding decode_string trim_prefix has_prefix
is_fixed_hex size value = elim (decode_string (trim_prefix value)) [
  | none ↦ false
  | some raw ↦ length raw == size && has_prefix value (codes "0x")
]

-- binary.BigEndian.PutUint32.
unfoldable pub put_uint32 : ℕ → List ℕ
put_uint32 n = n / 2 ^ 24 % 256 ∷ n / 2 ^ 16 % 256 ∷ n / 2 ^ 8 % 256 ∷ n % 256 ∷ []

unfoldable pub framed : List Text → Option Text
unfolding put_uint32
framed [] = some []
framed (value ∷ values) =
    let rest = framed values in
    if is_empty value || ltb (2 ^ 32 - 1) (length value)
    then none
    else elim rest [ none ↦ none | some bytes ↦ some (put_uint32 (length value) ++ value ++ bytes) ]

-- PaymentID of the fields in their order; the texts are in lower case already, so that its ToLower
-- changes nothing.
unfoldable pub payment_id : (Text → Text) → List Text → Option Text
unfolding framed
payment_id sha256 values = elim (framed values) [
  | none ↦ none
  | some bytes ↦ some (codes "pay_" ++ sha256 bytes)
]

abbrev refuse : LibraryReason → Reason
refuse reason = library_reason reason

-- The checks on the lane, up to the amount that is required.
unfoldable pub check_requirements : Library → VerifyRequest → Parsed ℕ
unfolding text_eq equal_fold is_supported_method is_text lookup_field count_fields required_amount
check_requirements library request = do
  require (request.x402_version == 2 && request.payment_payload.x402_version == 2)
      (refuse invalid_version)
  require (library.deep_equal request.payment_payload.accepted request.payment_requirements)
      requirements_mismatch
  require
      (text_eq request.payment_requirements.scheme (codes "exact")
        && text_eq request.payment_payload.accepted.scheme (codes "exact"))
      (refuse invalid_scheme)
  require (text_eq request.payment_requirements.network (codes "eip155:1")) unsupported_network
  require (equal_fold request.payment_requirements.asset mainnet_usdc) unsupported_asset
  require (count_fields request.payment_payload.extensions == 0) unsupported_extension
  require
      (is_supported_method
        (lookup_field (codes "assetTransferMethod") request.payment_requirements.extra))
      unsupported_transfer_method
  require
      (is_text (lookup_field (codes "name") request.payment_requirements.extra) (codes "USD Coin")
        && is_text (lookup_field (codes "version") request.payment_requirements.extra) (codes "2"))
      (refuse missing_domain)
  require (library.is_hex_address request.payment_requirements.pay_to) (refuse recipient_mismatch)
  found (required_amount request.payment_requirements.amount) (refuse invalid_required_amount)

-- The payload has an authorization of six fields and a signature, and nothing else.
unfoldable pub is_exact_shape : Fields → Bool
unfolding lookup_field count_fields
is_exact_shape payload = elim (lookup_field (codes "authorization") payload) [
  | some (json_object authorization) ↦ count_fields payload == 2 && count_fields authorization == 6
  | _ ↦ false
]

unfoldable pub check_payload : Library → VerifyRequest → Parsed EvmPayload
unfolding is_exact_shape equal_fold
check_payload library request = do
  require
      (not (library.is_permit2_payload request.payment_payload.payload)
        && library.is_eip3009_payload request.payment_payload.payload)
      (refuse unsupported_payload_type)
  evm ← found (library.payload_from_map request.payment_payload.payload) (refuse invalid_payload)
  require (is_exact_shape request.payment_payload.payload) (refuse invalid_payload)
  require
      (library.is_hex_address evm.from
        && (library.is_hex_address evm.to && equal_fold evm.to request.payment_requirements.pay_to))
      (refuse recipient_mismatch)
  parsed evm

abbrev pub identity_of : Library → VerifyRequest → EvmPayload → ℕ → ℕ → ℕ → Option Text
identity_of library request evm value after before = payment_id library.sha256 (
    codes "2"
    ∷ request.payment_requirements.scheme
    ∷ request.payment_requirements.network
    ∷ lower request.payment_requirements.asset
    ∷ lower evm.from
    ∷ lower evm.to
    ∷ format_int value
    ∷ format_int after
    ∷ format_int before
    ∷ lower evm.nonce
    ∷ lower evm.signature
    ∷ [])

-- The identity and the record of the payment.
abbrev pub identify : Library → VerifyRequest → EvmPayload → ℕ → ℕ → ℕ → Parsed VerifiedPayment
identify library request evm value after before = do
  identity ← found (identity_of library request evm value after before) (refuse invalid_payload)
  encoded ← found (library.marshal request.payment_payload) (refuse invalid_payload)
  parsed (record {
    identity = identity;
    asset = lower request.payment_requirements.asset;
    payer = lower evm.from;
    recipient = lower evm.to;
    amount = value;
    nonce = lower evm.nonce;
    valid_after = after * 10 ^ 9;
    valid_before = before * 10 ^ 9;
    payload_hash = library.sha256 encoded;
    signature = lower evm.signature;
  })

unfoldable pub check_authorization :
    Library → VerifyRequest → ℕ → EvmPayload → Parsed VerifiedPayment
unfolding unsigned_decimal valid_unix is_fixed_hex payment_id format_int lower
check_authorization library request required evm = do
  value ← found (unsigned_decimal evm.value) (refuse invalid_payload)
  after ← found (unsigned_decimal evm.valid_after) (refuse invalid_payload)
  before ← found (unsigned_decimal evm.valid_before) (refuse invalid_payload)
  require (valid_unix after && (valid_unix before && ltb after before)) (refuse invalid_payload)
  require (value == required) (refuse value_mismatch)
  require (is_fixed_hex 32 evm.nonce) (refuse invalid_payload)
  require (is_fixed_hex 65 evm.signature) (refuse invalid_signature_format)
  identify library request evm value after before

-- ParseRequest.
unfoldable pub parse_request : Library → VerifyRequest → Parsed VerifiedPayment
unfolding check_requirements check_payload check_authorization
parse_request library request = do
  required ← check_requirements library request
  evm ← check_payload library request
  check_authorization library request required evm
