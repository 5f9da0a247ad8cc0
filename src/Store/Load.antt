-- ===== src/Store/Load.antt =====
-- internal/store/settlementwork.go: LoadSettlementWork, the join of a payment with its active
-- transaction. A column that is NULL fails the scan where the source scans it into a value.
use facilitator.Base.{ℕ, Option, none, some, [], Text, ◌==◌, find_row, format_int}
use facilitator.Settlement.Errors.{Result, ok, ◌>>=◌, no_rows, null_column}
use facilitator.Settlement.Work.{Authorization, Work}
use facilitator.Store.Schema.{Payment, Db}
use facilitator.Store.Statements.{active_of}
use facilitator.Store.Signer.{parse_nonce, or_error}

-- The source leaves a value empty where the column is NULL.
abbrev pub or_empty : Option Text → Text
or_empty none = []
or_empty (some t) = t

unfoldable pub load_authorization : Payment → Result Authorization
load_authorization p = do
  from ← or_error p.payer_address null_column
  to ← or_error p.recipient_address null_column
  nonce ← or_error p.authorization_nonce null_column
  valid_after ← or_error p.valid_after null_column
  valid_before ← or_error p.valid_before null_column
  signature ← or_error p.payer_signature null_column
  ok (record {
    from = from;
    to = to;
    value = format_int p.amount_atomic;
    valid_after = valid_after;
    valid_before = valid_before;
    nonce = nonce;
    signature = signature;
  })

unfoldable pub load_gas_limit : Option ℕ → Result ℕ
unfolding parse_nonce
load_gas_limit none = ok 0
load_gas_limit (some gas) = parse_nonce gas

unfoldable pub load_settlement_work : ℕ → Db → Result Work
unfolding active_of load_authorization load_gas_limit parse_nonce find_row
load_settlement_work payment_id db = do
  p ← or_error (find_row (λ (p : Payment). p.id == payment_id) db.payments) no_rows
  t ← or_error (find_row (active_of payment_id) db.transactions) no_rows
  authorization ← load_authorization p
  nonce ← parse_nonce t.transaction_nonce
  gas_limit ← load_gas_limit t.gas_limit
  ok (record {
    payment_id = p.id;
    payment_identity = p.payment_identity;
    state = p.state;
    authorization = authorization;
    transaction_id = t.id;
    transaction_status = t.status;
    nonce = nonce;
    tx_hash = or_empty t.tx_hash;
    raw_hash = or_empty t.raw_transaction_hash;
    sighash = or_empty t.sighash;
    signer_address = t.signer_address;
    gas_limit = gas_limit;
    max_fee_per_gas = t.max_fee_per_gas;
    max_priority_fee_per_gas = t.max_priority_fee_per_gas;
    broadcast_attempted_at = t.broadcast_attempted_at;
    transaction_updated_at = t.updated_at;
    ambiguous_attempts = t.ambiguous_attempts;
    db_now = db.clock;
  })
