-- ===== src/Store/Finality/Repeats.antt =====
-- internal/store/settlementwork.go: the final outcome of a transaction, recorded once and repeated.
use facilitator.Base.{ℕ, ◌≡◌, ◌≢◌, refl, Text, true, false, count_rows, arith}
use facilitator.Settlement.State.{State}
use facilitator.Settlement.Errors.{ok, >>=-ok}
use facilitator.Store.Schema.{Payment, Transaction, Status, Db, status_in, status_eq, actor_type_ok}
use facilitator.Store.Statements.{transaction_at, transition_payment_in, update_transactions}
use facilitator.Store.Broadcast.{mark_tx_confirmed, mark_tx_reverted, on_network, settleable}
use facilitator.Store.Finality.{
  Recorded, record_outcome, record_outcome-Recorded, record_outcome_again, transition_payment_in-ok,
}

pub mark_tx_confirmed-Recorded :
    (i t n : ℕ) (hash : Text) (gas price : ℕ) (actor : Text) (d e : Db)
    → mark_tx_confirmed i t n hash gas price actor d ≡ ok e
    → Recorded i t Status.confirmed State.confirmed d e
unfolding mark_tx_confirmed transaction_at status_in status_eq
mark_tx_confirmed-Recorded i t n hash gas price actor d e =
    record_outcome-Recorded i t Status.confirmed State.confirmed _ _ d e (λ x. ground arith)
      (λ x at. ground arith)
      (λ c at.
        let (same, u, landed) =
          transition_payment_in-ok i settleable State.confirmed actor _ c e (λ p. refl) at in
        (same, landed))

-- Once MarkTxConfirmed has returned no error, calling it again returns no error and changes nothing,
-- whoever calls it and whatever receipt the call carries.
pub mark_tx_confirmed-again :
    (i t n m : ℕ) (hash hash' : Text) (gas price gas' price' : ℕ) (actor actor' : Text) (d e : Db)
    → mark_tx_confirmed i t n hash gas price actor d ≡ ok e
    → mark_tx_confirmed i t m hash' gas' price' actor' e ≡ ok e
unfolding mark_tx_confirmed
mark_tx_confirmed-again i t n m hash hash' gas price gas' price' actor actor' d e h =
    record_outcome_again i t Status.confirmed State.confirmed _ _ d e
      (mark_tx_confirmed-Recorded i t n hash gas price actor d e h)

pub mark_tx_reverted-Recorded :
    (i t gas price : ℕ) (actor : Text) (d e : Db)
    → mark_tx_reverted i t gas price actor d ≡ ok e
    → Recorded i t Status.reverted State.reverted d e
unfolding mark_tx_reverted transaction_at status_in status_eq
mark_tx_reverted-Recorded i t gas price actor d e =
    record_outcome-Recorded i t Status.reverted State.reverted _ _ d e (λ x. ground arith)
      (λ x at. ground arith)
      (λ c at.
        let (same, u, landed) =
          transition_payment_in-ok i settleable State.reverted actor _ c e (λ p. refl) at in
        (same, landed))

-- Once MarkTxReverted has returned no error, calling it again returns no error and changes nothing.
pub mark_tx_reverted-again :
    (i t gas price gas' price' : ℕ) (actor actor' : Text) (d e : Db)
    → mark_tx_reverted i t gas price actor d ≡ ok e
    → mark_tx_reverted i t gas' price' actor' e ≡ ok e
unfolding mark_tx_reverted
mark_tx_reverted-again i t gas price gas' price' actor actor' d e h =
    record_outcome_again i t Status.reverted State.reverted _ _ d e
      (mark_tx_reverted-Recorded i t gas price actor d e h)

-- A call that records the payment's move passes an actor that the audit table takes.
record_outcome-actor :
    (i t : ℕ) (status : Status) (state : State) (f : Transaction → Transaction)
    (set : Payment → Payment) (actor : Text) (d e : Db)
    → ((p : Payment) → (set p).id ≡ p.id)
    → count_rows (transaction_at i t on_network) d.transactions ≡ 1
    → record_outcome i t status state f (transition_payment_in i settleable state actor set) d
      ≡ ok e
    → actor_type_ok actor ≡ true
record_outcome-actor i t status state f set actor d e keep one h =
    let (c, at_c, h₁) = >>=-ok (update_transactions (transaction_at i t on_network) f d) _ h in
    let (same, fine, landed) =
      transition_payment_in-ok i settleable state actor set c e keep (rw one at h₁) in
    fine

-- A caller whose actor the CHECK of payment_transitions refuses, as it refuses the "http-wait" of the
-- request that waits for the receipt, cannot record that a transaction on the network is confirmed
-- or reverted: both calls return an error.
pub finality-actor :
    (i t n : ℕ) (hash : Text) (gas price : ℕ) (actor : Text) (d e : Db)
    → actor_type_ok actor ≡ false
    → count_rows (transaction_at i t on_network) d.transactions ≡ 1
    → (mark_tx_confirmed i t n hash gas price actor d ≢ ok e)
      × (mark_tx_reverted i t gas price actor d ≢ ok e)
unfolding mark_tx_confirmed mark_tx_reverted
finality-actor i t n hash gas price actor d e bad one = (
  λ h.
      clash
        (record_outcome-actor i t Status.confirmed State.confirmed _ _ actor d e (λ p. refl) one h),
  λ h.
      clash
        (record_outcome-actor i t Status.reverted State.reverted _ _ actor d e (λ p. refl) one h),
)
  where
    clash : actor_type_ok actor ≡ true → ⊥
    clash fine = ground arith
