-- ===== src/Ethereum/Reads.antt =====
-- internal/ethereum/rpc.go: what is read of the chain. A JSON value that json.Unmarshal has read is a
-- parameter: `none` is an error, an inner `none` is null.
pub mod Receipts
use facilitator.Base.{
  ℕ, zero, suc, ◌+◌, ◌*◌, ◌-◌, ◌^◌, min, max, Option, none, some, List, [], ◌∷◌, ◌++◌, Text, codes,
  text_eq, is_empty, has_prefix, lower, length, Bool, true, false, ◌&&◌, ◌||◌, not, leb, ltb, ◌==◌,
  if◌then◌else◌, ℤ, pos, negsuc,
}
use facilitator.Walletproof.{drop_two}
use facilitator.Settlement.Calldata.{hex_value, decode_string, trim_prefix}
use facilitator.Settlement.Confirmation.{Receipt}
use facilitator.Ethereum.Agreement.{
  CallError, rpc_error, other_error, Outcome, Read, agreed, provider_failed, disagreement,
  invalid_data, read_client_agreement, exact_comparable,
}

unfoldable pub read_hex_digits : ℕ → Text → Option ℕ
unfolding hex_value
read_hex_digits acc [] = some acc
read_hex_digits acc (c ∷ s) = elim (hex_value c) [
  | none ↦ none
  | some d ↦ read_hex_digits (acc * 16 + d) s
]

-- At least one digit.
unfoldable pub read_hex : Text → Option ℕ
unfolding read_hex_digits
read_hex [] = none
read_hex (c ∷ s) = read_hex_digits 0 (c ∷ s)

-- parseHexUint.
unfoldable pub parse_hex_uint : Text → Option ℕ
unfolding read_hex trim_prefix
parse_hex_uint value = elim (read_hex (trim_prefix value)) [
  | none ↦ none
  | some n ↦ if ltb n (2 ^ 64) then some n else none
]

-- SetString(value, 16), and the result is not negative.
unfoldable pub unsigned_hex : Text → Option ℕ
unfolding read_hex
unsigned_hex [] = none
unsigned_hex (c ∷ s) =
    if c == b'-'
    then elim (read_hex s) [ none ↦ none | some n ↦ if n == 0 then some 0 else none ]
    else if c == b'+'
    then read_hex s
    else read_hex (c ∷ s)

unfoldable pub normalize_hash : Text → Option Text
unfolding has_prefix decode_string lower
normalize_hash value =
    if length value == 66 && has_prefix value (codes "0x")
    then elim (decode_string (drop_two value)) [ none ↦ none | some raw ↦ some (lower value) ]
    else none

pub record RpcReceipt : Type 0 where
  pub transaction_hash : Text
  pub status : Text
  pub block_number : Text
  pub block_hash : Text
  pub gas_used : Text
  pub effective_gas_price : Text

abbrev pub or_invalid : {A B : Type 0} → Option A → (A → Option B) → Option B
or_invalid none next = none
or_invalid (some a) next = next a

unfoldable pub receipt_fields : RpcReceipt → Text → ℕ → Option Receipt
unfolding normalize_hash text_eq parse_hex_uint unsigned_hex trim_prefix
receipt_fields raw requested_hash status =
    or_invalid (normalize_hash raw.transaction_hash) (λ returned_hash.
      if text_eq returned_hash requested_hash
      then or_invalid (parse_hex_uint raw.block_number) (λ block_number.
        or_invalid (parse_hex_uint raw.gas_used) (λ gas_used.
          or_invalid (unsigned_hex (trim_prefix raw.effective_gas_price)) (λ gas_price.
            or_invalid (normalize_hash raw.block_hash) (λ block_hash. some (record {
              status = status;
              block_number = block_number;
              block_hash = block_hash;
              gas_used = gas_used;
              effective_gas_price = gas_price;
            })))))
      else none)

-- decodeReceipt.
unfoldable pub decode_receipt : Text → Option (Option RpcReceipt) → Option (Option Receipt)
unfolding parse_hex_uint receipt_fields
decode_receipt requested_hash none = none
decode_receipt requested_hash (some none) = some none
decode_receipt requested_hash (some (some raw)) = or_invalid (parse_hex_uint raw.status) (λ status.
    if ltb 1 status
    then none
    else or_invalid (receipt_fields raw requested_hash status) (λ receipt. some (some receipt)))

unfoldable pub same_receipt : Option Receipt → Option Receipt → Bool
unfolding text_eq
same_receipt none none = true
same_receipt (some a) (some b) =
    a.status == b.status
    && (a.block_number == b.block_number
        && (text_eq a.block_hash b.block_hash
            && (a.gas_used == b.gas_used && a.effective_gas_price == b.effective_gas_price)))
same_receipt _ _ = false

-- TransactionReceipt; `none` is a hash that is refused before any provider is asked.
unfoldable pub transaction_receipt :
    Text → (Text → List (Outcome (Option (Option RpcReceipt)))) → Option (Read (Option Receipt))
unfolding normalize_hash decode_receipt same_receipt read_client_agreement exact_comparable
transaction_receipt tx_hash ask = elim (normalize_hash tx_hash) [
  | none ↦ none
  | some requested_hash ↦ some (
      read_client_agreement (decode_receipt requested_hash) (exact_comparable same_receipt)
        (ask requested_hash))
]

-- decodeHexUintResult.
unfoldable pub decode_hex_uint_result : Option Text → Option ℕ
unfolding parse_hex_uint
decode_hex_uint_result none = none
decode_hex_uint_result (some value) = if is_empty value then none else parse_hex_uint value

unfoldable pub lowest : ℕ → List ℕ → ℕ
lowest n [] = n
lowest n (m ∷ values) = lowest (min n m) values

unfoldable pub highest : ℕ → List ℕ → ℕ
highest n [] = n
highest n (m ∷ values) = highest (max n m) values

-- The reconciliation of BlockNumber: the heads may be two blocks apart.
unfoldable pub lowest_head : List ℕ → Option ℕ
unfolding lowest highest
lowest_head [] = none
lowest_head (n ∷ values) =
    if leb (highest n values - lowest n values) 2 then some (lowest n values) else none

unfoldable pub block_number : List (Outcome (Option Text)) → Read ℕ
unfolding read_client_agreement decode_hex_uint_result lowest_head
block_number outcomes = read_client_agreement decode_hex_uint_result lowest_head outcomes

unfoldable pub chain_id : List (Outcome (Option Text)) → Read ℕ
unfolding read_client_agreement decode_hex_uint_result exact_comparable
chain_id outcomes =
    read_client_agreement decode_hex_uint_result (exact_comparable (λ a b. a == b)) outcomes

-- strings.Contains of the lowered message.
unfoldable pub contains : Text → Text → Bool
unfolding has_prefix
contains [] part = has_prefix [] part
contains (c ∷ s) part = has_prefix (c ∷ s) part || contains s part

-- RPCError.Reverted.
unfoldable pub reverted : CallError → Bool
unfolding lower contains
reverted (rpc_error (pos code) message) =
    code == 3 || contains (lower message) (codes "execution reverted")
reverted (rpc_error (negsuc code) message) = contains (lower message) (codes "execution reverted")
reverted other_error = false

pub data CallResult : Type 0 where
  call_passes simulation_reverted call_fails : CallResult

-- decodeHexData.
unfoldable pub decode_hex_data : Option Text → Option (List ℕ)
unfolding has_prefix decode_string
decode_hex_data none = none
decode_hex_data (some value) =
    if has_prefix value (codes "0x") then decode_string (drop_two value) else none

abbrev pub call_result : Read (List ℕ) → CallResult
call_result (agreed value) = call_passes
call_result (provider_failed e) = if reverted e then simulation_reverted else call_fails
call_result disagreement = call_fails
call_result invalid_data = call_fails

-- Call.
unfoldable pub call : List (Outcome (Option Text)) → CallResult
unfolding read_client_agreement decode_hex_data exact_comparable reverted text_eq
call outcomes =
    call_result (read_client_agreement decode_hex_data (exact_comparable text_eq) outcomes)
