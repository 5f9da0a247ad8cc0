-- ===== src/Tests/Data.antt =====
-- Test data: two verified payments to one merchant, and the rows that follow from settling them.
use facilitator.Base.{ℕ, none, some, List, [], ◌∷◌, Text, codes, true}
use facilitator.Settlement.State.{State}
use facilitator.Settlement.Work.{IntentRequest, Replacement}
use facilitator.Store.Schema.{Payment, Transaction, Status, Db}

abbrev pub signer : Text
signer = codes "0xaaaaaaaaaaaaaaaaaaaaaaaaaaaaaaaaaaaaaaaa"

abbrev pub signature : Text
signature =
    codes
      "0x1111111111111111111111111111111111111111111111111111111111111111111111111111111111111111111111111111111111111111111111111111111111"

abbrev pub payment : ℕ → Text → State → Payment
payment id identity state = record {
  id = id;
  payment_identity = identity;
  merchant_id = some 7;
  asset = codes "usdc";
  payer_address = some (codes "payer");
  recipient_address = some (codes "recipient");
  amount_atomic = 1000;
  authorization_nonce = some (codes "nonce");
  payload_hash = none;
  valid_after = some 0;
  valid_before = some 5000;
  payer_signature = none;
  state = state;
  settlement_requested_at = none;
  confirmed_at = none;
  claimed_by = none;
  claimed_until = none;
  updated_at = 1;
}

abbrev pub transaction : ℕ → ℕ → ℕ → Status → Transaction
transaction id payment_id nonce status = record {
  id = id;
  payment_id = payment_id;
  tx_hash = none;
  signer_address = signer;
  transaction_nonce = nonce;
  status = status;
  raw_transaction_hash = none;
  sighash = none;
  raw_transaction = none;
  gas_limit = none;
  max_fee_per_gas = none;
  max_priority_fee_per_gas = none;
  block_number = none;
  block_hash = none;
  gas_used = none;
  effective_gas_price = none;
  replaced_by_id = none;
  broadcast_attempted_at = none;
  first_seen_at = none;
  confirmed_at = none;
  ambiguous_attempts = 0;
  updated_at = 1;
}

abbrev pub database : List Payment → List Transaction → Db
database payments transactions = record {
  payments = payments;
  transactions = transactions;
  merchants =
      record { id = 7; recipient_address = codes "recipient"; created_at = 0; active = true } ∷ [];
  signer_accounts = record { signer_address = signer; next_nonce = 4 } ∷ [];
  payment_transitions = [];
  settlement_attempts = [];
  verification_attempts = [];
  clock = 100;
}

-- Two payments that /verify has accepted.
abbrev pub verified_db : Db
verified_db =
    database (payment 1 (codes "one") State.verified ∷ payment 2 (codes "two") State.verified ∷ [])
      []

abbrev pub request : Text → IntentRequest
request identity = record {
  payment_identity = identity;
  signer_address = signer;
  payer_signature = signature;
  expiry_margin = 10;
  quota = 5;
  quota_window = 1000;
  global_quota = 9;
  now = some 100;
}

-- One payment whose transaction is in that status.
abbrev pub settling : State → Status → Db
settling state status =
    database (payment 1 (codes "one") state ∷ []) (transaction 11 1 3 status ∷ [])

abbrev pub bump : Replacement
bump = record {
  nonce = 3;
  tx_hash = codes "0xbb";
  raw_hash = codes "bb";
  gas_limit = 60000;
  max_fee = 30;
  priority_fee = 3;
  signer_address = signer;
}
