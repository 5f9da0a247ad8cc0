-- ===== src/Ethereum/Lookups.antt =====
-- internal/ethereum/rpc.go: the reads of transactions, blocks, balances and nonces, and what a provider
-- answers to a broadcast. A JSON value is read as in Ethereum/Reads.
pub mod Pinned
use facilitator.Base.{
  ℕ, Option, none, some, List, [], ◌∷◌, Text, codes, text_eq, is_empty, Bool, true, false, ◌&&◌,
  not, ◌==◌, if◌then◌else◌, ℤ, pos, negsuc, negated, as_int,
}
use facilitator.Settlement.Calldata.{trim_prefix}
use facilitator.Signing.Transaction.{int_eq}
use facilitator.Ethereum.Agreement.{
  Outcome, answered, failed, Read, agreed, provider_failed, disagreement, invalid_data,
  provider_urls, read_client_agreement, exact_comparable,
}
use facilitator.Ethereum.Reads.{
  read_hex, unsigned_hex, parse_hex_uint, normalize_hash, or_invalid, decode_hex_uint_result,
  block_number,
}

pub record ChainTransaction : Type 0 where
  pub hash : Text
  pub block_number : Option ℕ

pub record RpcTransaction : Type 0 where
  pub hash : Text
  pub block_number : Option Text

-- The number of a block, if there is one to parse.
unfoldable pub block_of : Option Text → Option (Option ℕ)
unfolding parse_hex_uint
block_of none = some none
block_of (some text) = or_invalid (parse_hex_uint text) (λ number. some (some number))

unfoldable pub decode_transaction :
    Text → Option (Option RpcTransaction) → Option (Option ChainTransaction)
unfolding normalize_hash text_eq block_of
decode_transaction requested_hash none = none
decode_transaction requested_hash (some none) = some none
decode_transaction requested_hash (some (some raw)) =
    or_invalid (normalize_hash raw.hash) (λ returned_hash.
      if text_eq returned_hash requested_hash
      then or_invalid (block_of raw.block_number)
          (λ number. some (some (record { hash = returned_hash; block_number = number })))
      else none)

unfoldable pub same_number : Option ℕ → Option ℕ → Bool
same_number none none = true
same_number (some m) (some n) = m == n
same_number _ _ = false

unfoldable pub same_transaction : Option ChainTransaction → Option ChainTransaction → Bool
unfolding text_eq same_number
same_transaction none none = true
same_transaction (some a) (some b) =
    text_eq a.hash b.hash && same_number a.block_number b.block_number
same_transaction _ _ = false

-- TransactionByHash; `none` is a hash that is refused before any provider is asked.
unfoldable pub transaction_by_hash :
    Text
    → (Text → List (Outcome (Option (Option RpcTransaction))))
    → Option (Read (Option ChainTransaction))
unfolding normalize_hash decode_transaction same_transaction read_client_agreement exact_comparable
transaction_by_hash tx_hash ask = elim (normalize_hash tx_hash) [
  | none ↦ none
  | some requested_hash ↦ some (
      read_client_agreement (decode_transaction requested_hash) (exact_comparable same_transaction)
        (ask requested_hash))
]

pub record Block : Type 0 where
  pub hash : Text
  pub number : ℕ
  pub base_fee : ℕ

pub record RpcBlock : Type 0 where
  pub hash : Text
  pub number : Text
  pub base_fee : Text

unfoldable pub decode_base_fee : Text → Option ℕ
unfolding unsigned_hex trim_prefix
decode_base_fee text = if is_empty text then some 0 else unsigned_hex (trim_prefix text)

unfoldable pub is_requested : Option ℕ → ℕ → Bool
is_requested none number = true
is_requested (some requested) number = number == requested

-- decodeBlock; null is an error here.
unfoldable pub decode_block : Option ℕ → Option (Option RpcBlock) → Option Block
unfolding parse_hex_uint is_requested normalize_hash decode_base_fee
decode_block requested none = none
decode_block requested (some none) = none
decode_block requested (some (some raw)) = or_invalid (parse_hex_uint raw.number) (λ number.
    if is_requested requested number
    then or_invalid (normalize_hash raw.hash) (λ hash.
      or_invalid (decode_base_fee raw.base_fee)
        (λ base_fee. some (record { hash = hash; number = number; base_fee = base_fee })))
    else none)

unfoldable pub same_block : Block → Block → Bool
unfolding text_eq
same_block a b = text_eq a.hash b.hash && (a.number == b.number && a.base_fee == b.base_fee)

abbrev pub BlockAnswers : Type 0
BlockAnswers = List (Outcome (Option (Option RpcBlock)))

unfoldable pub block_at : Option ℕ → (Option ℕ → BlockAnswers) → Read Block
unfolding read_client_agreement decode_block exact_comparable same_block
block_at number ask =
    read_client_agreement (decode_block number) (exact_comparable same_block) (ask number)

abbrev pub at_head : Read ℕ → (Option ℕ → BlockAnswers) → Read Block
at_head (agreed head) ask = block_at (some head) ask
at_head (provider_failed e) ask = provider_failed e
at_head disagreement ask = disagreement
at_head invalid_data ask = invalid_data

abbrev pub is_several : List Text → Bool
is_several (a ∷ b ∷ rest) = true
is_several _ = false

-- BlockByNumber. `heads` are the providers' answers to the read of the head.
unfoldable pub block_by_number :
    (url fallback : Text)
    → Option ℕ
    → List (Outcome (Option Text))
    → (Option ℕ → BlockAnswers)
    → Read Block
unfolding provider_urls block_at block_number
block_by_number url fallback (some number) heads ask = block_at (some number) ask
block_by_number url fallback none heads ask =
    if is_several (provider_urls url fallback)
    then at_head (block_number heads) ask
    else block_at none ask

-- SetString(value, 16).
unfoldable pub signed_hex : Text → Option ℤ
unfolding read_hex
signed_hex [] = none
signed_hex (c ∷ s) =
    if c == b'-'
    then negated (read_hex s)
    else if c == b'+'
    then as_int (read_hex s)
    else as_int (read_hex (c ∷ s))

unfoldable pub decode_balance : Option Text → Option ℤ
unfolding signed_hex trim_prefix
decode_balance none = none
decode_balance (some value) = if is_empty value then none else signed_hex (trim_prefix value)

unfoldable pub balance : List (Outcome (Option Text)) → Read ℤ
unfolding read_client_agreement decode_balance exact_comparable int_eq
balance outcomes = read_client_agreement decode_balance (exact_comparable int_eq) outcomes

unfoldable pub transaction_count : List (Outcome (Option Text)) → Read ℕ
unfolding read_client_agreement decode_hex_uint_result exact_comparable
transaction_count outcomes =
    read_client_agreement decode_hex_uint_result (exact_comparable (λ a b. a == b)) outcomes

-- SendRawTransaction, of the one attempt; any error is `none`.
unfoldable pub send_raw_transaction : Outcome (Option Text) → Option Text
unfolding normalize_hash
send_raw_transaction (failed e) = none
send_raw_transaction (answered none) = none
send_raw_transaction (answered (some tx_hash)) = normalize_hash tx_hash
