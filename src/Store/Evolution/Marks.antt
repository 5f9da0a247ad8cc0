-- ===== src/Store/Evolution/Marks.antt =====
-- internal/store/settlementwork.go and recovery.go: each write of the pipelines is a step of
-- `Evolves`, whatever its arguments and wherever it is called.
use facilitator.Base.{
  ℕ, ◌≡◌, refl, Option, none, some, [], ◌∷◌, Text, Bool, true, false, find_row, find_row-test,
  arith, if◌then◌else◌,
}
use facilitator.Settlement.State.{State, can_transition}
use facilitator.Settlement.State.Laws.{edge}
use facilitator.Settlement.Errors.{Result, ok, ◌>>=◌, settlement_race}
use facilitator.Store.Schema.{Payment, Transaction, Db}
use facilitator.Store.Statements.{update_transaction, payment_in, transition_payment}
use facilitator.Store.Broadcast
use facilitator.Store.Evolution.{Steps, Steps-ok, Steps-err, Steps->>=, Evolves-refl, key}
use facilitator.Store.Evolution.Statements.{
  update_transactions-Steps, update_transaction-Steps, moves-Steps, transition_payment-Steps,
  transition_payment_in-Steps,
}

-- An update of one transaction that keeps its key, and then a transition of the payment.
pub updates_then_moves-Steps :
    (d : Db) (test : Transaction → Bool) (f : Transaction → Transaction) (payment_id : ℕ)
    (from to : State) (actor : Text)
    → ((t : Transaction) → key (f t) ≡ key t)
    → Steps d (update_transaction test f d >>= transition_payment payment_id from to actor)
updates_then_moves-Steps d test f payment_id from to actor same =
    Steps->>= d (update_transaction test f d) (transition_payment payment_id from to actor)
      (update_transaction-Steps d test f same)
      (λ c at_c. transition_payment-Steps c payment_id from to actor)

pub mark_tx_signed-Steps :
    (d : Db) (transaction_id : ℕ) (raw_hash sighash : Text) (gas_limit max_fee priority_fee : ℕ)
    → Steps d
        (Broadcast.mark_tx_signed transaction_id raw_hash sighash gas_limit max_fee priority_fee d)
unfolding Broadcast.mark_tx_signed
mark_tx_signed-Steps d transaction_id raw_hash sighash gas_limit max_fee priority_fee =
    update_transaction-Steps d _ _ (λ t. refl)

pub mark_tx_broadcast-Steps :
    (d : Db) (payment_id transaction_id : ℕ) (tx_hash actor : Text)
    → Steps d (Broadcast.mark_tx_broadcast payment_id transaction_id tx_hash actor d)
unfolding Broadcast.mark_tx_broadcast
mark_tx_broadcast-Steps d payment_id transaction_id tx_hash actor =
    updates_then_moves-Steps d _ _ payment_id _ _ actor (λ t. refl)

pub mark_tx_ambiguous-Steps :
    (d : Db) (payment_id transaction_id : ℕ) (actor : Text)
    → Steps d (Broadcast.mark_tx_ambiguous payment_id transaction_id actor d)
unfolding Broadcast.mark_tx_ambiguous
mark_tx_ambiguous-Steps d payment_id transaction_id actor =
    updates_then_moves-Steps d _ _ payment_id _ _ actor (λ t. refl)

pub mark_intent_unsettleable-Steps :
    (d : Db) (payment_id transaction_id : ℕ) (actor : Text)
    → Steps d (Broadcast.mark_intent_unsettleable payment_id transaction_id actor d)
unfolding Broadcast.mark_intent_unsettleable
mark_intent_unsettleable-Steps d payment_id transaction_id actor =
    updates_then_moves-Steps d _ _ payment_id _ _ actor (λ t. refl)

pub mark_intent_expired-Steps :
    (d : Db) (payment_id transaction_id : ℕ) (actor : Text)
    → Steps d (Broadcast.mark_intent_expired payment_id transaction_id actor d)
unfolding Broadcast.mark_intent_expired
mark_intent_expired-Steps d payment_id transaction_id actor =
    updates_then_moves-Steps d _ _ payment_id _ _ actor (λ t. refl)

-- A read of one row decides between two continuations.
pub Steps-find {ℓ} :
    {A : Type ℓ} (d : Db) (o : Option A) (missing : Result Db) (found : A → Result Db)
    → Steps d missing
    → ((a : A) → o ≡ some a → Steps d (found a))
    → Steps d (elim o [ none ↦ missing | some a ↦ found a ])
Steps-find d none missing found m f = m
Steps-find d (some a) missing found m f = f a refl

pub Steps-if :
    (d : Db) (b : Bool) (yes_ no_ : Result Db)
    → Steps d yes_
    → Steps d no_
    → Steps d (if b then yes_ else no_)
Steps-if d true yes_ no_ y n = y
Steps-if d false yes_ no_ y n = n

confirming_edge :
    (payment_id : ℕ) (p : Payment)
    → payment_in payment_id (State.broadcast ∷ State.replaced ∷ []) p ≡ true
    → can_transition p.state State.confirming ≡ true
unfolding payment_in can_transition
confirming_edge payment_id p h = ground arith

pub mark_tx_confirming-Steps :
    (d : Db) (payment_id transaction_id block_number : ℕ) (block_hash actor : Text)
    → Steps d
        (Broadcast.mark_tx_confirming payment_id transaction_id block_number block_hash actor d)
unfolding Broadcast.mark_tx_confirming
mark_tx_confirming-Steps d payment_id transaction_id block_number block_hash actor =
    Steps->>= d _ _ (update_transactions-Steps d _ _ (λ t. refl)) (λ c at_c.
      Steps-find c (find_row sighted c.payments) (ok c) _ (Steps-ok c c (Evolves-refl c)) (λ p at_p.
        moves-Steps c sighted _ payment_id p.state State.confirming actor
          (λ q h. (refl, edge (confirming_edge payment_id q h)))
          (confirming_edge payment_id p (find_row-test sighted c.payments p at_p))))
  where
    sighted : Payment → Bool
    sighted = payment_in payment_id (State.broadcast ∷ State.replaced ∷ [])

pub mark_tx_confirmed-Steps :
    (d : Db) (payment_id transaction_id block_number : ℕ) (block_hash : Text)
    (gas_used gas_price : ℕ) (actor : Text)
    → Steps d (
        Broadcast.mark_tx_confirmed payment_id transaction_id block_number block_hash gas_used
          gas_price actor d)
unfolding Broadcast.mark_tx_confirmed
mark_tx_confirmed-Steps d payment_id transaction_id block_number block_hash gas_used gas_price
      actor =
    Steps->>= d _ _ (update_transactions-Steps d _ _ (λ t. refl)) (λ c at_c.
      Steps-if c _ _ _ (transition_payment_in-Steps c payment_id _ _ actor _ (λ p. refl))
        (Steps-if c _ _ _ (Steps-ok c c (Evolves-refl c)) (Steps-err c settlement_race)))

pub mark_tx_reverted-Steps :
    (d : Db) (payment_id transaction_id gas_used gas_price : ℕ) (actor : Text)
    → Steps d (Broadcast.mark_tx_reverted payment_id transaction_id gas_used gas_price actor d)
unfolding Broadcast.mark_tx_reverted
mark_tx_reverted-Steps d payment_id transaction_id gas_used gas_price actor =
    Steps->>= d _ _ (update_transactions-Steps d _ _ (λ t. refl)) (λ c at_c.
      Steps-if c _ _ _ (transition_payment_in-Steps c payment_id _ _ actor _ (λ p. refl))
        (Steps-if c _ _ _ (Steps-ok c c (Evolves-refl c)) (Steps-err c settlement_race)))
