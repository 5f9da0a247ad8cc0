-- ===== src/Store/Schema.antt =====
-- The tables that settlement reads and writes (migrations/), as lists of rows. A uuid is a number,
-- a time a number of nanoseconds, a numeric column a number, NULL is `none`. `clock` is now().
use facilitator.Base.{ℕ, Option, List, Text, Bool, false, ◌==◌, ◌||◌, [], ◌∷◌, text_eq, codes}
use facilitator.Settlement.State.{State}

pub data Status : Type 0 where
  intent broadcasting broadcast confirming confirmed reverted replaced dropped ambiguous : Status

-- The columns of a payment that retention clears together (migration 9).
pub record Payment : Type 0 where
  pub id : ℕ
  pub payment_identity : Text
  pub merchant_id : Option ℕ
  pub asset : Text
  pub payer_address : Option Text
  pub recipient_address : Option Text
  pub amount_atomic : ℕ
  pub authorization_nonce : Option Text
  pub payload_hash : Option Text
  pub valid_after : Option ℕ
  pub valid_before : Option ℕ
  pub payer_signature : Option Text
  pub state : State
  pub settlement_requested_at : Option ℕ
  pub confirmed_at : Option ℕ
  pub claimed_by : Option Text
  pub claimed_until : Option ℕ
  pub updated_at : ℕ

pub record Transaction : Type 0 where
  pub id : ℕ
  pub payment_id : ℕ
  pub tx_hash : Option Text
  pub signer_address : Text
  pub transaction_nonce : ℕ
  pub status : Status
  pub raw_transaction_hash : Option Text
  pub sighash : Option Text
  pub raw_transaction : Option Text
  pub gas_limit : Option ℕ
  pub max_fee_per_gas : Option ℕ
  pub max_priority_fee_per_gas : Option ℕ
  pub block_number : Option ℕ
  pub block_hash : Option Text
  pub gas_used : Option ℕ
  pub effective_gas_price : Option ℕ
  pub replaced_by_id : Option ℕ
  pub broadcast_attempted_at : Option ℕ
  pub first_seen_at : Option ℕ
  pub confirmed_at : Option ℕ
  pub ambiguous_attempts : ℕ
  pub updated_at : ℕ

pub record Merchant : Type 0 where
  pub id : ℕ
  pub recipient_address : Text
  pub created_at : ℕ
  pub active : Bool

pub record SignerAccount : Type 0 where
  pub signer_address : Text
  pub next_nonce : ℕ

pub record Transition : Type 0 where
  pub payment_id : ℕ
  pub from_state : State
  pub to_state : State
  pub actor_type : Text

pub data AttemptResult : Type 0 where
  accepted duplicate rejected : AttemptResult

pub record Attempt : Type 0 where
  pub payment_id : Option ℕ
  pub payment_identity : Text
  pub result : AttemptResult
  pub reason_code : Text

pub data VerificationResult : Type 0 where
  verified failed : VerificationResult

pub record VerificationAttempt : Type 0 where
  pub payment_id : Option ℕ
  pub payment_identity : Text
  pub result : VerificationResult
  pub reason_code : Text

-- The append-only tables have their newest row first.
pub record Db : Type 0 where
  pub payments : List Payment
  pub transactions : List Transaction
  pub merchants : List Merchant
  pub signer_accounts : List SignerAccount
  pub payment_transitions : List Transition
  pub settlement_attempts : List Attempt
  pub verification_attempts : List VerificationAttempt
  pub clock : ℕ

status_index : Status → ℕ
status_index intent = 0
status_index broadcasting = 1
status_index broadcast = 2
status_index confirming = 3
status_index confirmed = 4
status_index reverted = 5
status_index replaced = 6
status_index dropped = 7
status_index ambiguous = 8

-- The source compares the statuses' strings.
unfoldable pub status_eq : Status → Status → Bool
unfolding status_index
status_eq s t = status_index s == status_index t

unfoldable pub status_in : Status → List Status → Bool
unfolding status_eq
status_in s [] = false
status_in s (t ∷ ts) = status_eq s t || status_in s ts

abbrev pub active_transaction_statuses : List Status
active_transaction_statuses = intent ∷ broadcasting ∷ broadcast ∷ confirming ∷ ambiguous ∷ []

unfoldable pub is_active : Transaction → Bool
unfolding status_in
is_active t = status_in t.status active_transaction_statuses

-- payment_transitions: CHECK (actor_type IN (...)).
unfoldable pub actor_type_ok : Text → Bool
unfolding text_eq
actor_type_ok a =
    text_eq a (codes "http")
    || (text_eq a (codes "worker") || (text_eq a (codes "operator") || text_eq a (codes "system")))
