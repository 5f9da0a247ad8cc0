-- ===== src/Store/Uniqueness/Replacements.antt =====
-- internal/store/recovery.go and settlement.go: superseding the old row before the new one is
-- inserted leaves the index on active transactions satisfied.
use facilitator.Base.{
  ℕ, ◌≡◌, ◌≢◌, refl, ap, Option, none, [], ◌∷◌, Text, Bool, true, false, update_rows, count_rows,
  find_row, if◌then◌else◌, arith,
}
use facilitator.Settlement.State.{State, state_eq}
use facilitator.Settlement.Errors.{
  Result, ok, err, ◌>>=◌, active_payment_violation, settlement_race,
}
use facilitator.Settlement.Work.{Replacement}
use facilitator.Store.Schema.{Transaction, Status, Db, is_active, status_in, status_eq}
use facilitator.Store.Statements.{active_of, active_unique, transaction_at, update_transaction}
use facilitator.Store.Statements.Success.{update_transaction-ok}
use facilitator.Store.Recovery.{
  mark_tx_replaced, mark_tx_ambiguous_replaced, insert_replacement, link_replacement,
}
use facilitator.Store.Uniqueness.{
  Retires, Clean, active_unique-update_rows, active_unique-count, retired-count, >>=-Clean,
  update_transaction-Clean, insert_replacement-Clean, insert_replacement_unique, found_or_none,
  link_replacement-Clean, transition_payment-Clean, record_transition-Clean,
}

at_broadcast :
    (i id : ℕ) (t : Transaction)
    → transaction_at i id (Status.broadcast ∷ []) t ≡ true
    → active_of i t ≡ true
unfolding transaction_at active_of is_active status_in status_eq
at_broadcast i id t h = ground arith

at_ambiguous :
    (i id : ℕ) (t : Transaction)
    → transaction_at i id (Status.ambiguous ∷ []) t ≡ true
    → active_of i t ≡ true
unfolding transaction_at active_of is_active status_in status_eq
at_ambiguous i id t h = ground arith

inactive_Retires :
    (test : Transaction → Bool) (f : Transaction → Transaction)
    → ((t : Transaction) → (f t).payment_id ≡ t.payment_id)
    → ((t : Transaction) → is_active (f t) ≡ false)
    → Retires test f
inactive_Retires test f kept off = record {
  payment_kept = kept;
  not_activated = λ t e a. absurd (ground (arith, off t));
}

-- The payment's only active row has been retired: it has none left.
superseded :
    (i : ℕ) (test : Transaction → Bool) (f : Transaction → Transaction) (d c : Db)
    → ((t : Transaction) → test t ≡ true → active_of i t ≡ true)
    → ((t : Transaction) → (f t).payment_id ≡ t.payment_id)
    → ((t : Transaction) → is_active (f t) ≡ false)
    → active_unique d.transactions ≡ true
    → update_transaction test f d ≡ ok c
    → (active_unique c.transactions ≡ true) × (count_rows (active_of i) c.transactions ≡ 0)
unfolding active_of
superseded i test f d c was kept off h e =
    let (is_c, one) = update_transaction-ok test f d c e in
    let rows : c.transactions ≡ update_rows test f d.transactions =
      ap (λ (x : Db). x.transactions) is_c in
    let most = active_unique-count i d.transactions h in
    let sum = retired-count i test f d.transactions was gone in
    (
      rw rows (active_unique-update_rows (inactive_Retires test f kept off) d.transactions h),
      rw rows (omega arith),
    )
  where
    gone : (t : Transaction) → active_of i (f t) ≡ false
    gone t = ground (arith, off t)

-- The writes behind the retirement of the old row.
replaced-Clean :
    (new_id i old : ℕ) (r : Replacement) (raw : Option Text) (sighash : Transaction → Option Text)
    (test : Transaction → Bool) (f : Transaction → Transaction) (d : Db) (rest : Db → Result Db)
    → ((t : Transaction) → test t ≡ true → active_of i t ≡ true)
    → ((t : Transaction) → (f t).payment_id ≡ t.payment_id)
    → ((t : Transaction) → is_active (f t) ≡ false)
    → ((x : Db) → Clean (rest x))
    → active_unique d.transactions ≡ true
    → Clean (do
      c ← update_transaction test f d
      inserted ← insert_replacement new_id i old r raw sighash c
      linked ← link_replacement new_id i old inserted
      rest linked)
replaced-Clean new_id i old r raw sighash test f d rest was kept off tail h =
    >>=-Clean (update_transaction test f d) _
      (update_transaction-Clean test f d (inactive_Retires test f kept off) h)
      (λ c e.
        let (uniq, none_left) = superseded i test f d c was kept off h e in
        >>=-Clean (insert_replacement new_id i old r raw sighash c) _
          (insert_replacement-Clean new_id i old r raw sighash c uniq none_left)
          (λ x at_x.
            >>=-Clean (link_replacement new_id i old x) _
              (link_replacement-Clean new_id i old x
                (insert_replacement_unique new_id i old r raw sighash c x at_x))
              (λ y at_y. tail y)))

if-Clean : (b : Bool) (r s : Result Db) → Clean r → Clean s → Clean (if b then r else s)
if-Clean true r s h k = h
if-Clean false r s h k = k

-- Where the index holds, replacing a broadcast transaction does not violate it: the old row is
-- retired before the new one is inserted.
pub mark_tx_replaced-Clean :
    (new_id i old : ℕ) (r : Replacement) (actor : Text) (d : Db)
    → active_unique d.transactions ≡ true
    → mark_tx_replaced new_id i old r actor d ≢ err active_payment_violation
unfolding mark_tx_replaced is_active status_in status_eq
mark_tx_replaced-Clean new_id i old r actor d h =
    replaced-Clean new_id i old r none (λ t. none) (transaction_at i old (Status.broadcast ∷ [])) _
      d _ (at_broadcast i old) (λ t. refl) (λ t. refl)
      (λ x.
        found_or_none Clean (find_row _ x.payments) settlement_race _ (λ bad. ground arith)
          (λ p.
            if-Clean (state_eq p.state State.broadcast) _ _
              (record_transition-Clean i State.broadcast State.replaced actor _)
              (λ bad. ground arith)))
      h

-- Where the index holds, replacing an ambiguous transaction does not violate it.
pub mark_tx_ambiguous_replaced-Clean :
    (new_id i old : ℕ) (r : Replacement) (actor : Text) (d : Db)
    → active_unique d.transactions ≡ true
    → mark_tx_ambiguous_replaced new_id i old r actor d ≢ err active_payment_violation
unfolding mark_tx_ambiguous_replaced is_active status_in status_eq
mark_tx_ambiguous_replaced-Clean new_id i old r actor d h =
    replaced-Clean new_id i old r none (λ t. t.sighash)
      (transaction_at i old (Status.ambiguous ∷ [])) _ d _ (at_ambiguous i old) (λ t. refl)
      (λ t. refl) (λ x. transition_payment-Clean i State.manual_review State.replaced actor x) h
