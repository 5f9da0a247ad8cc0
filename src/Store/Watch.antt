-- ===== src/Store/Watch.antt =====
-- internal/store/recovery.go: the queries that say which transactions recovery watches. A query is a
-- join of transactions with their payments; the order of its rows is the order of the transactions.
use facilitator.Base.{
  ℕ, ◌+◌, Option, none, some, List, [], ◌∷◌, Text, text_eq, Bool, true, false, ◌&&◌, not, leb, ltb,
  ◌==◌, if◌then◌else◌, find_row, count_rows,
}
use facilitator.Settlement.State.{State, is_in}
use facilitator.Settlement.Errors.{Result, ok, ◌>>=◌, null_column}
use facilitator.Settlement.Work.{Work, TrackedTransaction}
use facilitator.Store.Schema.{Payment, Transaction, Status, Db, status_eq, status_in, is_active}
use facilitator.Store.Signer.{parse_nonce, or_error}
use facilitator.Store.Load.{load_authorization, or_empty}

abbrev pub is_some {ℓ} : {A : Type ℓ} → Option A → Bool
is_some none = false
is_some (some a) = true

-- JOIN payment_records p ON p.id = t.payment_id, where the primary key leaves one row at most.
unfoldable pub payment_row : Transaction → Db → Option Payment
payment_row t db = find_row (λ (p : Payment). p.id == t.payment_id) db.payments

-- The rows of a join that a WHERE selects.
unfoldable pub joined :
    (Transaction → Payment → Bool) → Db → List Transaction → List (Transaction × Payment)
unfolding payment_row
joined test db [] = []
joined test db (t ∷ ts) =
    let rest = joined test db ts in
    elim (payment_row t db) [ none ↦ rest | some p ↦ if test t p then (t, p) ∷ rest else rest ]

-- The loop over rows.Next(): the first row that does not scan is the query's error.
unfoldable pub scan_all {ℓ} :
    {A : Type ℓ}
    → (Transaction × Payment → Result A)
    → List (Transaction × Payment)
    → Result (List A)
scan_all scan [] = ok []
scan_all scan (row ∷ rows) = do item ← scan row; items ← scan_all scan rows; ok (item ∷ items)

-- scanTracked, which leaves status and raw transaction empty.
unfoldable pub scan_tracked : Transaction × Payment → Result TrackedTransaction
scan_tracked (t, p) = do
  tx_hash ← or_error t.tx_hash null_column
  ok (record {
    payment_id = t.payment_id;
    transaction_id = t.id;
    tx_hash = tx_hash;
    status = t.status;
    raw_transaction = [];
  })

unfoldable pub awaits_confirmation : Transaction → Payment → Bool
unfolding status_eq is_in
awaits_confirmation t p =
    status_eq t.status Status.replaced
    && is_in p.state (State.replaced ∷ State.confirming ∷ State.broadcast ∷ [])

unfoldable pub list_replaced_pending : Db → Result (List TrackedTransaction)
unfolding joined scan_all scan_tracked awaits_confirmation
list_replaced_pending db = scan_all scan_tracked (joined awaits_confirmation db db.transactions)

-- A later nonce of the same signer that is in flight.
unfoldable pub is_later : Transaction → Transaction → Bool
unfolding text_eq is_active
is_later t later =
    text_eq later.signer_address t.signer_address
    && (ltb t.transaction_nonce later.transaction_nonce && is_active later)

abbrev expired_by : ℕ → Payment → Bool
expired_by before p = elim p.valid_before [ none ↦ false | some at ↦ leb at before ]

unfoldable pub blocks_a_gap : Text → ℕ → Db → Transaction → Payment → Bool
unfolding status_eq text_eq is_in is_later count_rows
blocks_a_gap signer expired_before db t p =
    status_eq t.status Status.dropped
    && (text_eq t.signer_address signer
        && (not (is_some t.raw_transaction_hash)
            && (is_in p.state (State.expired ∷ State.failed ∷ [])
                && (expired_by expired_before p
                    && not (count_rows (is_later t) db.transactions == 0)))))

-- The columns that the scan does not read are left at their zero values.
unfoldable pub scan_gap : Transaction × Payment → Result Work
unfolding load_authorization parse_nonce
scan_gap (t, p) = do
  authorization ← load_authorization p
  nonce ← parse_nonce t.transaction_nonce
  ok (record {
    payment_id = p.id;
    payment_identity = p.payment_identity;
    state = p.state;
    authorization = authorization;
    transaction_id = t.id;
    transaction_status = Status.dropped;
    nonce = nonce;
    tx_hash = [];
    raw_hash = [];
    sighash = [];
    signer_address = [];
    gas_limit = 0;
    max_fee_per_gas = none;
    max_priority_fee_per_gas = none;
    broadcast_attempted_at = none;
    transaction_updated_at = 0;
    ambiguous_attempts = 0;
    db_now = 0;
  })

unfoldable pub list_dropped_blocking_gaps : Text → ℕ → Db → Result (List Work)
unfolding joined scan_all scan_gap blocks_a_gap
list_dropped_blocking_gaps signer expired_before db =
    scan_all scan_gap (joined (blocks_a_gap signer expired_before db) db db.transactions)

unfoldable pub is_gap_filler : Transaction → Payment → Bool
unfolding status_in is_in
is_gap_filler t p =
    status_in t.status (Status.broadcast ∷ Status.replaced ∷ [])
    && (is_in p.state (State.expired ∷ State.failed ∷ [])
        && (is_some t.raw_transaction_hash && is_some t.raw_transaction))

unfoldable pub scan_gap_filler : Transaction × Payment → Result TrackedTransaction
scan_gap_filler (t, p) = do
  tx_hash ← or_error t.tx_hash null_column
  raw ← or_error t.raw_transaction null_column
  ok (record {
    payment_id = t.payment_id;
    transaction_id = t.id;
    tx_hash = tx_hash;
    status = t.status;
    raw_transaction = raw;
  })

unfoldable pub list_gap_fillers : Db → Result (List TrackedTransaction)
unfolding joined scan_all scan_gap_filler is_gap_filler
list_gap_fillers db = scan_all scan_gap_filler (joined is_gap_filler db db.transactions)

-- broadcast_attempted_at < now() - stuck_for.
abbrev attempted_before : ℕ → ℕ → Transaction → Bool
attempted_before clock stuck_for t = elim t.broadcast_attempted_at [
  | none ↦ false
  | some at ↦ ltb (at + stuck_for) clock
]

unfoldable pub is_stuck_filler : Text → ℕ → ℕ → Transaction → Payment → Bool
unfolding status_eq text_eq is_in
is_stuck_filler signer stuck_for clock t p =
    status_eq t.status Status.broadcast
    && (text_eq t.signer_address signer
        && (is_some t.raw_transaction
            && (is_in p.state (State.expired ∷ State.failed ∷ [])
                && attempted_before clock stuck_for t)))

unfoldable pub scan_stuck : Transaction × Payment → Result Work
unfolding load_authorization parse_nonce
scan_stuck (t, p) = do
  authorization ← load_authorization p
  max_fee ← or_error t.max_fee_per_gas null_column
  priority_fee ← or_error t.max_priority_fee_per_gas null_column
  gas ← or_error t.gas_limit null_column
  nonce ← parse_nonce t.transaction_nonce
  gas_limit ← parse_nonce gas
  ok (record {
    payment_id = p.id;
    payment_identity = p.payment_identity;
    state = p.state;
    authorization = authorization;
    transaction_id = t.id;
    transaction_status = Status.broadcast;
    nonce = nonce;
    tx_hash = or_empty t.tx_hash;
    raw_hash = [];
    sighash = [];
    signer_address = t.signer_address;
    gas_limit = gas_limit;
    max_fee_per_gas = some max_fee;
    max_priority_fee_per_gas = some priority_fee;
    broadcast_attempted_at = none;
    transaction_updated_at = 0;
    ambiguous_attempts = 0;
    db_now = 0;
  })

unfoldable pub list_stuck_gap_fillers : Text → ℕ → Db → Result (List Work)
unfolding joined scan_all scan_stuck is_stuck_filler
list_stuck_gap_fillers signer stuck_for db =
    scan_all scan_stuck (joined (is_stuck_filler signer stuck_for db.clock) db db.transactions)
