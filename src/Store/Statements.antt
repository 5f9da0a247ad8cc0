-- ===== src/Store/Statements.antt =====
-- The SQL statements that the operations of internal/store are made of. An error rolls the
-- transaction back: an operation that returns `err` has left the database as it was.
pub mod Success
use facilitator.Base.{
  ℕ, suc, ◌+◌, Option, none, some, List, [], ◌∷◌, Text, Bool, true, false, ◌==◌, ◌||◌, ◌&&◌, not,
  text_eq, leb, if◌then◌else◌, update_rows, count_rows, find_row,
}
use facilitator.Settlement.State.{State, is_in, state_eq, can_transition}
use facilitator.Settlement.Errors.{
  Error, Result, ok, err, ◌>>=◌, ◌>>◌, guard, settlement_race, invalid_transition,
  active_payment_violation, tx_hash_violation, actor_type_violation, primary_key_violation,
  null_column,
}
use facilitator.Store.Schema.{
  Payment, Transaction, Transition, Status, Db, is_active, status_in, actor_type_ok,
}

-- The active transactions of one payment.
unfoldable pub active_of : ℕ → Transaction → Bool
unfolding is_active
active_of payment_id t = t.payment_id == payment_id && is_active t

-- UNIQUE (payment_id) WHERE status IN (...): ethereum_transactions_active_payment_unique.
unfoldable pub active_unique : List Transaction → Bool
unfolding active_of count_rows
active_unique [] = true
active_unique (t ∷ ts) =
    (not (is_active t) || count_rows (active_of t.payment_id) ts == 0) && active_unique ts

unfoldable pub same_hash : Option Text → Transaction → Bool
unfolding text_eq
same_hash none t = false
same_hash (some h) t = elim t.tx_hash [ none ↦ false | some k ↦ text_eq h k ]

-- UNIQUE (tx_hash).
unfoldable pub hash_unique : List Transaction → Bool
unfolding same_hash count_rows
hash_unique [] = true
hash_unique (t ∷ ts) = count_rows (same_hash t.tx_hash) ts == 0 && hash_unique ts

-- What PostgreSQL checks of ethereum_transactions after a statement.
unfoldable pub with_transactions : Db → List Transaction → Result Db
unfolding active_unique hash_unique
with_transactions db rows =
    if active_unique rows
    then (if hash_unique rows
        then ok (record db { transactions = rows })
        else err tx_hash_violation)
    else err active_payment_violation

-- UPDATE ethereum_transactions ... WHERE, whatever the number of rows.
unfoldable pub update_transactions :
    (Transaction → Bool) → (Transaction → Transaction) → Db → Result Db
unfolding with_transactions update_rows
update_transactions test f db = with_transactions db (update_rows test f db.transactions)

-- The same, followed by `if tag.RowsAffected() != 1`.
unfoldable pub update_transaction :
    (Transaction → Bool) → (Transaction → Transaction) → Db → Result Db
unfolding update_transactions count_rows
update_transaction test f db = do
  written ← update_transactions test f db
  guard (count_rows test db.transactions == 1) settlement_race
  ok written

-- INSERT INTO ethereum_transactions.
unfoldable pub insert_transaction : Transaction → Db → Result Db
unfolding with_transactions count_rows
insert_transaction t db = do
  guard (count_rows (λ (u : Transaction). u.id == t.id) db.transactions == 0) primary_key_violation
  with_transactions db (t ∷ db.transactions)

-- WHERE id = $2 AND payment_id = $1 AND status IN (...).
unfoldable pub transaction_at : ℕ → ℕ → List Status → Transaction → Bool
unfolding status_in
transaction_at payment_id transaction_id from t =
    t.id == transaction_id && (t.payment_id == payment_id && status_in t.status from)

unfoldable pub record_transition : ℕ → State → State → Text → Db → Result Db
unfolding actor_type_ok
record_transition payment_id from to actor db = do
  guard (actor_type_ok actor) actor_type_violation
  ok (record db { payment_transitions = entry ∷ db.payment_transitions })
  where
    entry : Transition
    entry = record { payment_id = payment_id; from_state = from; to_state = to; actor_type = actor }

-- WHERE id = $1 AND state IN (...).
unfoldable pub payment_in : ℕ → List State → Payment → Bool
unfolding is_in
payment_in payment_id from p = p.id == payment_id && is_in p.state from

unfoldable pub transition_payment : ℕ → State → State → Text → Db → Result Db
unfolding payment_in record_transition update_rows count_rows can_transition
transition_payment payment_id from to actor db = do
  guard (can_transition from to) (invalid_transition from to)
  guard (count_rows (payment_in payment_id (from ∷ [])) db.payments == 1) settlement_race
  record_transition payment_id from to actor (record db {
    payments =
        update_rows (payment_in payment_id (from ∷ []))
          (λ p. record p { state = to; updated_at = db.clock }) db.payments;
  })

-- The loop over the source states.
unfoldable pub validate_all : List State → State → Result (Unit {0})
unfolding can_transition
validate_all [] to = ok tt
validate_all (s ∷ ss) to = do
  guard (can_transition s to) (invalid_transition s to)
  validate_all ss to

-- `set` is what setAssignments writes.
unfoldable pub transition_payment_in :
    ℕ → List State → State → Text → (Payment → Payment) → Db → Result Db
unfolding payment_in record_transition update_rows find_row validate_all
transition_payment_in payment_id from to actor set db = do
  validate_all from to
  elim (find_row (payment_in payment_id from) db.payments) [
    | none ↦ err settlement_race
    | some previous ↦ record_transition payment_id previous.state to actor (record db {
      payments =
          update_rows (payment_in payment_id from)
            (λ p. let q = set p in record q { state = to; updated_at = db.clock }) db.payments;
    })
  ]
