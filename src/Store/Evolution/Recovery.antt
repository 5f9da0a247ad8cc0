-- ===== src/Store/Evolution/Recovery.antt =====
-- internal/store/recovery.go: each write of the recovery worker is a step of `Evolves`.
use facilitator.Base.{
  ℕ, ◌≡◌, refl, sym, subst, Option, none, some, [], ◌∷◌, Text, Bool, true, false, ◌&&◌, ◌==◌,
  find_row, find_row-mem, arith, if◌then◌else◌, ◌⊎◌, inl, inr,
}
use mathlib.Core.List.Memᴰ
use facilitator.Settlement.State.{State, can_transition}
use facilitator.Settlement.State.Laws.{◌⟶*◌, here, edge}
use facilitator.Settlement.Errors.{Result, ◌>>=◌, settlement_race, no_rows}
use facilitator.Settlement.Work.{Replacement}
use facilitator.Store.Schema.{Payment, Transaction, Db}
use facilitator.Store.Statements.{update_transaction, payment_in}
use facilitator.Store.Recovery
use facilitator.Store.Fillers
use facilitator.Store.Evolution.{Steps, Steps-ok, Steps-err, Steps->>=, Evolves-refl, key}
use facilitator.Store.Evolution.Statements.{
  update_transactions-Steps, update_transaction-Steps, insert_transaction-Steps, moves-Steps,
  payments-Evolves, transition_payment-Steps, transition_payment_in-Steps,
}
use facilitator.Store.Evolution.Marks.{updates_then_moves-Steps, Steps-find, Steps-if}

insert_replacement-Steps :
    (d : Db) (new_id payment_id old_tx_id : ℕ) (r : Replacement) (raw : Option Text)
    (sighash : Transaction → Option Text)
    → Steps d (Recovery.insert_replacement new_id payment_id old_tx_id r raw sighash d)
unfolding Recovery.insert_replacement
insert_replacement-Steps d new_id payment_id old_tx_id r raw sighash =
    Steps-find d (find_row old_row d.transactions) _ _ (Steps-err d no_rows) (λ old at_old.
      insert_transaction-Steps d _ (Memᴰ.map key (find_row-mem old_row d.transactions old at_old)))
  where
    old_row : Transaction → Bool
    old_row t = t.id == old_tx_id && t.payment_id == payment_id

link_replacement-Steps :
    (d : Db) (new_id payment_id old_tx_id : ℕ)
    → Steps d (Recovery.link_replacement new_id payment_id old_tx_id d)
unfolding Recovery.link_replacement
link_replacement-Steps d new_id payment_id old_tx_id = update_transactions-Steps d _ _ (λ t. refl)

-- The three statements by which a replacement supersedes a row.
supersede-Steps :
    (d : Db) (test : Transaction → Bool) (f : Transaction → Transaction)
    (new_id payment_id old_tx_id : ℕ) (r : Replacement) (raw : Option Text)
    (sighash : Transaction → Option Text) (k : Db → Result Db)
    → ((t : Transaction) → key (f t) ≡ key t)
    → ((c : Db) → Steps c (k c))
    → Steps d (
        update_transaction test f d >>= λ a.
        Recovery.insert_replacement new_id payment_id old_tx_id r raw sighash a >>= λ b.
        Recovery.link_replacement new_id payment_id old_tx_id b >>= k)
supersede-Steps d test f new_id payment_id old_tx_id r raw sighash k same rest =
    Steps->>= d _ _ (update_transaction-Steps d test f same) (λ a at_a.
      Steps->>= a _ _ (insert_replacement-Steps a new_id payment_id old_tx_id r raw sighash)
        (λ b at_b.
          Steps->>= b _ k (link_replacement-Steps b new_id payment_id old_tx_id)
            (λ c at_c. rest c)))

pub mark_tx_recovered_broadcast-Steps :
    (d : Db) (payment_id transaction_id : ℕ) (tx_hash actor : Text)
    → Steps d (Recovery.mark_tx_recovered_broadcast payment_id transaction_id tx_hash actor d)
unfolding Recovery.mark_tx_recovered_broadcast
mark_tx_recovered_broadcast-Steps d payment_id transaction_id tx_hash actor =
    updates_then_moves-Steps d _ _ payment_id _ _ actor (λ t. refl)

pub mark_ambiguous_retry-Steps :
    (d : Db) (payment_id transaction_id : ℕ)
    → Steps d (Recovery.mark_ambiguous_retry payment_id transaction_id d)
unfolding Recovery.mark_ambiguous_retry
mark_ambiguous_retry-Steps d payment_id transaction_id = update_transaction-Steps d _ _ (λ t. refl)

pub mark_tx_ambiguous_replaced-Steps :
    (d : Db) (new_id payment_id old_tx_id : ℕ) (r : Replacement) (actor : Text)
    → Steps d (Recovery.mark_tx_ambiguous_replaced new_id payment_id old_tx_id r actor d)
unfolding Recovery.mark_tx_ambiguous_replaced
mark_tx_ambiguous_replaced-Steps d new_id payment_id old_tx_id r actor =
    supersede-Steps d _ _ new_id payment_id old_tx_id r _ _ _ (λ t. refl)
      (λ c. transition_payment-Steps c payment_id _ _ actor)

replaceable_cases :
    (payment_id : ℕ) (p : Payment)
    → payment_in payment_id (State.broadcast ∷ State.replaced ∷ []) p ≡ true
    → (p.state ≡ State.broadcast) ⊎ (p.state ≡ State.replaced)
unfolding payment_in
replaceable_cases payment_id p h = ground arith

replaceable_path :
    (payment_id : ℕ) (p : Payment)
    → payment_in payment_id (State.broadcast ∷ State.replaced ∷ []) p ≡ true
    → p.state ⟶* State.replaced
unfolding can_transition
replaceable_path payment_id p h = elim (replaceable_cases payment_id p h) [
  | inl e ↦ subst (λ s. s ⟶* State.replaced) (sym e) (edge refl)
  | inr e ↦ subst (λ s. s ⟶* State.replaced) (sym e) here
]

broadcast_replaced : can_transition State.broadcast State.replaced ≡ true
unfolding can_transition
broadcast_replaced = refl

pub mark_tx_replaced-Steps :
    (d : Db) (new_id payment_id old_tx_id : ℕ) (r : Replacement) (actor : Text)
    → Steps d (Recovery.mark_tx_replaced new_id payment_id old_tx_id r actor d)
unfolding Recovery.mark_tx_replaced
mark_tx_replaced-Steps d new_id payment_id old_tx_id r actor =
    supersede-Steps d _ _ new_id payment_id old_tx_id r _ _ _ (λ t. refl)
      (λ c. Steps-find c (find_row test c.payments) _ _ (Steps-err c settlement_race) (λ p at_p.
        Steps-if c _ _ _
          (moves-Steps c test set payment_id State.broadcast State.replaced actor path
            broadcast_replaced)
          (Steps-ok c _ (payments-Evolves c test set path))))
  where
    test : Payment → Bool
    test = payment_in payment_id (State.broadcast ∷ State.replaced ∷ [])

    set : Payment → Payment
    set p = record p { state = State.replaced; updated_at = d.clock }

    path : (p : Payment) → test p ≡ true → (p.id ≡ (set p).id) × (p.state ⟶* (set p).state)
    path p h = (refl, replaceable_path payment_id p h)

pub mark_tx_reorged_out-Steps :
    (d : Db) (payment_id transaction_id : ℕ) (actor : Text)
    → Steps d (Recovery.mark_tx_reorged_out payment_id transaction_id actor d)
unfolding Recovery.mark_tx_reorged_out
mark_tx_reorged_out-Steps d payment_id transaction_id actor =
    updates_then_moves-Steps d _ _ payment_id _ _ actor (λ t. refl)

landed_key :
    (succeeded : Bool) (t u v : Transaction)
    → key u ≡ key t
    → key v ≡ key t
    → key (if succeeded then u else v) ≡ key t
landed_key true t u v a b = a
landed_key false t u v a b = b

land_original-Steps :
    (d : Db) (payment_id mined_tx_id : ℕ) (succeeded : Bool) (block_number : ℕ) (block_hash : Text)
    (gas_used gas_price : ℕ)
    → Steps d (
        Recovery.land_original payment_id mined_tx_id succeeded block_number block_hash gas_used
          gas_price d)
unfolding Recovery.land_original
land_original-Steps d payment_id mined_tx_id succeeded block_number block_hash gas_used gas_price =
    update_transaction-Steps d _ _ (λ t. landed_key succeeded t _ _ refl refl)

pub mark_replacement_landed-Steps :
    (d : Db) (payment_id mined_tx_id : ℕ) (succeeded : Bool) (block_number : ℕ) (block_hash : Text)
    (gas_used gas_price : ℕ) (actor : Text)
    → Steps d (
        Recovery.mark_replacement_landed payment_id mined_tx_id succeeded block_number block_hash
          gas_used gas_price actor d)
unfolding Recovery.mark_replacement_landed
mark_replacement_landed-Steps d payment_id mined_tx_id succeeded block_number block_hash gas_used
      gas_price actor =
    Steps->>= d _ _ (update_transaction-Steps d _ _ (λ t. refl)) (λ a at_a.
      Steps->>= a _ _
        (land_original-Steps a payment_id mined_tx_id succeeded block_number block_hash gas_used
          gas_price)
        (λ b at_b.
          Steps-if b _ _ _ (transition_payment_in-Steps b payment_id _ _ actor _ (λ p. refl))
            (transition_payment_in-Steps b payment_id _ _ actor _ (λ p. refl))))

pub mark_gap_filler_prepared-Steps :
    (d : Db) (transaction_id : ℕ) (raw_hash tx_hash raw : Text) (gas_limit max_fee priority_fee : ℕ)
    → Steps d (
        Fillers.mark_gap_filler_prepared transaction_id raw_hash tx_hash raw gas_limit max_fee
          priority_fee d)
unfolding Fillers.mark_gap_filler_prepared
mark_gap_filler_prepared-Steps d transaction_id raw_hash tx_hash raw gas_limit max_fee
      priority_fee =
    update_transaction-Steps d _ _ (λ t. refl)

pub mark_gap_filler_replaced-Steps :
    (d : Db) (new_id payment_id old_tx_id : ℕ) (r : Replacement) (raw : Text)
    → Steps d (Fillers.mark_gap_filler_replaced new_id payment_id old_tx_id r raw d)
unfolding Fillers.mark_gap_filler_replaced
mark_gap_filler_replaced-Steps d new_id payment_id old_tx_id r raw =
    Steps->>= d _ _ (update_transaction-Steps d _ _ (λ t. refl)) (λ a at_a.
      Steps->>= a _ _ (insert_replacement-Steps a new_id payment_id old_tx_id r _ _)
        (λ b at_b. link_replacement-Steps b new_id payment_id old_tx_id))

drop_siblings-Steps :
    (d : Db) (o : Option ℕ) (transaction_id : ℕ)
    → Steps d (Fillers.drop_siblings o transaction_id d)
unfolding Fillers.drop_siblings
drop_siblings-Steps d none transaction_id = Steps-ok d d (Evolves-refl d)
drop_siblings-Steps d (some p) transaction_id = update_transactions-Steps d _ _ (λ t. refl)

pub mark_gap_filler_resolved-Steps :
    (d : Db) (transaction_id gas_used gas_price : ℕ)
    → Steps d (Fillers.mark_gap_filler_resolved transaction_id gas_used gas_price d)
unfolding Fillers.mark_gap_filler_resolved
mark_gap_filler_resolved-Steps d transaction_id gas_used gas_price =
    Steps->>= d _ _ (update_transaction-Steps d _ _ (λ t. refl))
      (λ c at_c. drop_siblings-Steps c _ transaction_id)

pub mark_gap_filler_succeeded-Steps :
    (d : Db) (payment_id transaction_id block_number : ℕ) (block_hash : Text)
    (gas_used gas_price : ℕ) (actor : Text)
    → Steps d (
        Fillers.mark_gap_filler_succeeded payment_id transaction_id block_number block_hash gas_used
          gas_price actor d)
unfolding Fillers.mark_gap_filler_succeeded
mark_gap_filler_succeeded-Steps d payment_id transaction_id block_number block_hash gas_used
      gas_price actor =
    Steps->>= d _ _ (update_transaction-Steps d _ _ (λ t. refl)) (λ a at_a.
      Steps->>= a _ _ (drop_siblings-Steps a (some payment_id) transaction_id)
        (λ b at_b. transition_payment-Steps b payment_id _ _ actor))
