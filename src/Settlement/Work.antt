-- ===== src/Settlement/Work.antt =====
-- internal/settlement/work.go, lease.go, calldata.go and intent.go: the values that pass between the
-- service and the store. A decimal text of wei is the number it denotes, the empty text `none`; the
-- zero time is `none`.
use facilitator.Base.{ℕ, Option, List, Text, Bool, ◌&&◌, leb, is_empty}
use facilitator.Settlement.State.{State}
use facilitator.Store.Schema.{Status, intent, broadcasting, status_eq}

pub record Authorization : Type 0 where
  pub from : Text
  pub to : Text
  pub value : Text
  pub valid_after : ℕ
  pub valid_before : ℕ
  pub nonce : Text
  pub signature : Text

pub record Lease : Type 0 where
  pub payment_id : ℕ
  pub payment_identity : Text
  pub state : State
  pub worker : Text
  pub until : ℕ

-- Expired reports `!until.After(now)`.
unfoldable pub is_expired : Lease → ℕ → Bool
is_expired l now = leb l.until now

pub record Work : Type 0 where
  pub payment_id : ℕ
  pub payment_identity : Text
  pub state : State
  pub authorization : Authorization
  pub transaction_id : ℕ
  pub transaction_status : Status
  pub nonce : ℕ
  pub tx_hash : Text
  pub raw_hash : Text
  pub sighash : Text
  pub signer_address : Text
  pub gas_limit : ℕ
  pub max_fee_per_gas : Option ℕ
  pub max_priority_fee_per_gas : Option ℕ
  pub broadcast_attempted_at : Option ℕ
  pub transaction_updated_at : ℕ
  pub ambiguous_attempts : ℕ
  pub db_now : ℕ

unfoldable pub broadcast_pending : Work → Bool
unfolding status_eq
broadcast_pending w = status_eq w.transaction_status intent

unfoldable pub ambiguous_broadcast : Work → Bool
unfolding status_eq
ambiguous_broadcast w = status_eq w.transaction_status broadcasting && is_empty w.tx_hash

pub record Replacement : Type 0 where
  pub nonce : ℕ
  pub tx_hash : Text
  pub raw_hash : Text
  pub gas_limit : ℕ
  pub max_fee : ℕ
  pub priority_fee : ℕ
  pub signer_address : Text

pub record TrackedTransaction : Type 0 where
  pub payment_id : ℕ
  pub transaction_id : ℕ
  pub tx_hash : Text
  pub status : Status
  pub raw_transaction : Text

pub record ClaimRequest : Type 0 where
  pub worker : Text
  pub states : List State
  pub duration : ℕ
  pub limit : ℕ
  pub now : Option ℕ

pub record IntentRequest : Type 0 where
  pub payment_identity : Text
  pub signer_address : Text
  pub payer_signature : Text
  pub expiry_margin : ℕ
  pub quota : ℕ
  pub quota_window : ℕ
  pub global_quota : ℕ
  pub now : Option ℕ

pub record Intent : Type 0 where
  pub payment_id : ℕ
  pub payment_identity : Text
  pub transaction_id : ℕ
  pub signer_address : Text
  pub nonce : ℕ
  pub tx_hash : Text
  pub is_reverted : Bool
  pub is_confirmed : Bool
  pub duplicate : Bool
