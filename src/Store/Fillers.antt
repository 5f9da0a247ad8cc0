-- ===== src/Store/Fillers.antt =====
-- internal/store/recovery.go: the writes about nonce-gap fillers.
use facilitator.Base.{
  ℕ, Option, none, some, List, [], ◌∷◌, Text, Bool, true, false, ◌&&◌, ◌==◌, find_row, not,
}
use facilitator.Settlement.State.{State}
use facilitator.Settlement.Errors.{Result, ok, ◌>>=◌}
use facilitator.Settlement.Work.{Replacement}
use facilitator.Store.Schema.{Transaction, Status, Db, status_in}
use facilitator.Store.Statements.{
  update_transactions, update_transaction, transaction_at, transition_payment,
}
use facilitator.Store.Broadcast.{coalesce}
use facilitator.Store.Recovery.{insert_replacement, link_replacement}

-- WHERE id = $1 AND status IN (...).
unfoldable pub status_at : ℕ → List Status → Transaction → Bool
unfolding status_in
status_at transaction_id from t = t.id == transaction_id && status_in t.status from

unfoldable pub mark_gap_filler_prepared : ℕ → Text → Text → Text → ℕ → ℕ → ℕ → Db → Result Db
mark_gap_filler_prepared transaction_id raw_hash tx_hash raw gas_limit max_fee priority_fee db =
    update_transaction (status_at transaction_id (Status.dropped ∷ []))
      (λ t. record t {
        status = Status.broadcast;
        raw_transaction_hash = some raw_hash;
        tx_hash = some tx_hash;
        raw_transaction = some raw;
        gas_limit = some gas_limit;
        max_fee_per_gas = some max_fee;
        max_priority_fee_per_gas = some priority_fee;
        broadcast_attempted_at = some db.clock;
        updated_at = db.clock;
      })
      db

-- transaction_at with AND raw_transaction IS NOT NULL.
unfoldable pub filler_at : ℕ → ℕ → Transaction → Bool
unfolding transaction_at
filler_at payment_id transaction_id t =
    transaction_at payment_id transaction_id (Status.broadcast ∷ []) t
    && elim t.raw_transaction [ none ↦ false | some raw ↦ true ]

unfoldable pub mark_gap_filler_replaced : ℕ → ℕ → ℕ → Replacement → Text → Db → Result Db
mark_gap_filler_replaced new_id payment_id old_tx_id replacement raw db = do
  superseded ←
      update_transaction (filler_at payment_id old_tx_id)
        (λ t. record t { status = Status.replaced; updated_at = db.clock }) db
  inserted ←
      insert_replacement new_id payment_id old_tx_id replacement (some raw) (λ t. none) superseded
  link_replacement new_id payment_id old_tx_id inserted

abbrev pub watched : List Status
watched = Status.broadcast ∷ Status.replaced ∷ []

-- WHERE payment_id = $1 AND id <> $2 AND status IN ('broadcast', 'replaced').
unfoldable pub sibling_of : ℕ → ℕ → Transaction → Bool
unfolding status_in
sibling_of payment_id transaction_id t =
    t.payment_id == payment_id && (not (t.id == transaction_id) && status_in t.status watched)

unfoldable pub drop_siblings : Option ℕ → ℕ → Db → Result Db
drop_siblings none transaction_id db = ok db
drop_siblings (some payment_id) transaction_id db =
    update_transactions (sibling_of payment_id transaction_id)
      (λ t. record t { status = Status.dropped; updated_at = db.clock }) db

-- (SELECT payment_id FROM ethereum_transactions WHERE id = $1).
unfoldable pub payment_of : ℕ → Db → Option ℕ
payment_of transaction_id db =
    elim (find_row (λ (t : Transaction). t.id == transaction_id) db.transactions) [
      | none ↦ none
      | some t ↦ some t.payment_id
    ]

unfoldable pub mark_gap_filler_resolved : ℕ → ℕ → ℕ → Db → Result Db
mark_gap_filler_resolved transaction_id gas_used gas_price db = do
  resolved ←
      update_transaction (status_at transaction_id watched)
        (λ t. record t {
          status = Status.reverted;
          gas_used = some gas_used;
          effective_gas_price = some gas_price;
          updated_at = db.clock;
        })
        db
  drop_siblings (payment_of transaction_id resolved) transaction_id resolved

unfoldable pub mark_gap_filler_succeeded : ℕ → ℕ → ℕ → Text → ℕ → ℕ → Text → Db → Result Db
mark_gap_filler_succeeded payment_id transaction_id block_number block_hash gas_used gas_price actor
      db =
    do
      landed ←
          update_transaction (transaction_at payment_id transaction_id watched)
            (λ t. record t {
              status = Status.confirming;
              block_number = some block_number;
              block_hash = some block_hash;
              gas_used = some gas_used;
              effective_gas_price = some gas_price;
              first_seen_at = some (coalesce t.first_seen_at db.clock);
              updated_at = db.clock;
            })
            db
      alone ← drop_siblings (some payment_id) transaction_id landed
      transition_payment payment_id State.expired State.manual_review actor alone
