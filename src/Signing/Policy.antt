-- ===== src/Signing/Policy.antt =====
-- internal/policy/policy.go: the signing boundary. A *big.Int that is nil is `none`. The ABI encoder
-- and go-ethereum's address functions are parameters.
pub mod Ceilings
use facilitator.Base.{
  ℕ, ◌+◌, Option, none, some, List, [], ◌∷◌, Text, codes, length, Bool, true, false, ◌&&◌, ◌||◌,
  not, leb, ltb, ◌==◌, if◌then◌else◌, ℤ, pos, negsuc, set_string, parse_int,
}
use facilitator.Settlement.Calldata.{decode_string, trim_prefix, first_bytes, bytes_from}

pub data PolicyError : Type 0 where
  invalid_request over_limit : PolicyError

pub data Verdict {ℓ} (A : Type ℓ) : Type ℓ where
  refused : PolicyError → Verdict A
  allowed : A → Verdict A

-- Authorization, in wire form.
pub record WireAuthorization : Type 0 where
  pub from : Text
  pub to : Text
  pub value : Text
  pub valid_after : Text
  pub valid_before : Text
  pub nonce : Text
  pub signature : Text

pub record Request : Type 0 where
  pub nonce : ℕ
  pub gas_limit : ℕ
  pub max_fee_per_gas : Text
  pub max_priority_fee_per_gas : Text
  pub authorization : WireAuthorization

pub record Limits : Type 0 where
  pub max_fee_per_gas_wei : Option ℤ
  pub max_priority_fee_per_gas_wei : Option ℤ
  pub max_gas_limit : ℕ

-- types.DynamicFeeTx.
pub record DynamicFeeTx : Type 0 where
  pub chain_id : ℕ
  pub nonce : ℕ
  pub to : List ℕ
  pub value : ℕ
  pub gas : ℕ
  pub gas_fee_cap : ℤ
  pub gas_tip_cap : ℤ
  pub data_bytes : List ℕ

-- The arguments of transferWithAuthorization.
pub record TransferArguments : Type 0 where
  pub from : List ℕ
  pub to : List ℕ
  pub value : ℤ
  pub valid_after : ℤ
  pub valid_before : ℤ
  pub nonce : List ℕ
  pub v : ℕ
  pub r : List ℕ
  pub s : List ℕ

-- common.IsHexAddress, common.HexToAddress and abi.Pack.
pub record Encoder : Type 0 where
  pub is_hex_address : Text → Bool
  pub hex_to_address : Text → List ℕ
  pub pack : TransferArguments → Option (List ℕ)

-- config.MainnetUSDC and config.MainnetChainID.
abbrev pub mainnet_usdc : Text
mainnet_usdc = codes "0xA0b86991c6218b36c1d19D4a2e9Eb0cE3606eB48"

abbrev pub mainnet_chain_id : ℕ
mainnet_chain_id = 1

-- Sign() and Cmp() of math/big.
abbrev pub is_positive : ℤ → Bool
is_positive (pos n) = ltb 0 n
is_positive (negsuc n) = false

abbrev pub is_negative : ℤ → Bool
is_negative (pos n) = false
is_negative (negsuc n) = true

unfoldable pub exceeds : ℤ → ℤ → Bool
exceeds (pos a) (pos b) = ltb b a
exceeds (pos a) (negsuc b) = true
exceeds (negsuc a) (pos b) = false
exceeds (negsuc a) (negsuc b) = ltb a b

unfoldable pub decode_fixed32 : Text → Option (List ℕ)
unfolding decode_string trim_prefix
decode_fixed32 value = elim (decode_string (trim_prefix value)) [
  | none ↦ none
  | some raw ↦ if length raw == 32 then some raw else none
]

unfoldable pub recovery_id : List ℕ → Option ℕ
recovery_id [] = none
recovery_id (v ∷ rest) =
    if v == 0 || v == 1 then some (v + 27) else if v == 27 || v == 28 then some v else none

unfoldable pub split_signature : Text → Option (ℕ × List ℕ × List ℕ)
unfolding decode_string trim_prefix first_bytes bytes_from recovery_id
split_signature signature = elim (decode_string (trim_prefix signature)) [
  | none ↦ none
  | some raw ↦
      if length raw == 65
      then elim (recovery_id (bytes_from 64 raw)) [
        | none ↦ none
        | some v ↦ some (v, first_bytes 32 raw, first_bytes 32 (bytes_from 32 raw))
      ]
      else none
]

abbrev pub checked : (ℤ → Bool) → Option ℤ → Option ℤ
checked test none = none
checked test (some n) = if test n then some n else none

-- An integer that passes a test, or an error.
abbrev pub or_refused {ℓ κ} : {A : Type ℓ} {B : Type κ} → Option A → (A → Option B) → Option B
or_refused none next = none
or_refused (some a) next = next a

-- TransferWithAuthorizationData; any error is `none`.
unfoldable pub transfer_with_authorization_data : Encoder → WireAuthorization → Option (List ℕ)
unfolding set_string parse_int decode_fixed32 split_signature exceeds
transfer_with_authorization_data encoder auth =
    if encoder.is_hex_address auth.from && encoder.is_hex_address auth.to
    then or_refused (checked is_positive (set_string auth.value)) (λ value.
      or_refused (checked (λ n. not (is_negative n)) (parse_int auth.valid_after)) (λ valid_after.
        or_refused (checked (λ n. exceeds n valid_after) (parse_int auth.valid_before))
          (λ valid_before. or_refused (decode_fixed32 auth.nonce) (λ nonce.
            or_refused (split_signature auth.signature) (λ (v, r, s). encoder.pack (record {
              from = encoder.hex_to_address auth.from;
              to = encoder.hex_to_address auth.to;
              value = value;
              valid_after = valid_after;
              valid_before = valid_before;
              nonce = nonce;
              v = v;
              r = r;
              s = s;
            }))))))
    else none

-- The three ceilings, if the boundary is configured.
unfoldable pub configured : Limits → Option (ℤ × ℤ)
configured limits = if limits.max_gas_limit == 0 then none else elim limits.max_fee_per_gas_wei [
  | none ↦ none
  | some max_fee ↦ elim limits.max_priority_fee_per_gas_wei [
    | none ↦ none
    | some tip ↦ some (max_fee, tip)
  ]
]

unfoldable pub build : Encoder → Request → ℤ → ℤ → Verdict DynamicFeeTx
unfolding transfer_with_authorization_data
build encoder request max_fee priority_fee =
    elim (transfer_with_authorization_data encoder request.authorization) [
      | none ↦ refused invalid_request
      | some calldata ↦ allowed (record {
        chain_id = mainnet_chain_id;
        nonce = request.nonce;
        to = encoder.hex_to_address mainnet_usdc;
        value = 0;
        gas = request.gas_limit;
        gas_fee_cap = max_fee;
        gas_tip_cap = priority_fee;
        data_bytes = calldata;
      })
    ]

unfoldable pub within_limits : Encoder → Request → Limits → ℤ → ℤ → Verdict DynamicFeeTx
unfolding configured exceeds build
within_limits encoder request limits max_fee priority_fee = elim (configured limits) [
  | none ↦ refused over_limit
  | some (fee_ceiling, tip_ceiling) ↦
      if ltb limits.max_gas_limit request.gas_limit
        || (exceeds max_fee fee_ceiling || exceeds priority_fee tip_ceiling)
      then refused over_limit
      else build encoder request max_fee priority_fee
]

unfoldable pub unsigned : Encoder → Request → Limits → Verdict DynamicFeeTx
unfolding set_string exceeds within_limits
unsigned encoder request limits =
    if request.gas_limit == 0
    then refused invalid_request
    else elim (checked is_positive (set_string request.max_fee_per_gas)) [
      | none ↦ refused invalid_request
      | some max_fee ↦
          elim (checked (λ n. not (is_negative n)) (set_string request.max_priority_fee_per_gas)) [
            | none ↦ refused invalid_request
            | some priority_fee ↦
                if exceeds priority_fee max_fee
                then refused invalid_request
                else within_limits encoder request limits max_fee priority_fee
          ]
    ]
