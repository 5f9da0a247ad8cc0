-- ===== src/Store/Statements/Success.antt =====
-- internal/store: what a statement has written when it returns no error.
use facilitator.Base.{
  ℕ, ◌≡◌, refl, sym, ◌∙◌, List, [], ◌∷◌, Text, Bool, true, false, ◌==◌, update_rows, count_rows,
  if◌then◌else◌, ==-eq,
}
use facilitator.Settlement.State.{State, can_transition}
use facilitator.Settlement.Errors.{Error, Result, ok, err, ◌>>◌, guard, >>=-ok, ok_injective}
use facilitator.Store.Schema.{Transaction, Transition, Db}
use facilitator.Store.Statements.{
  active_unique, hash_unique, with_transactions, update_transactions, update_transaction,
  insert_transaction, record_transition, transition_payment, payment_in,
}

pub if-ok {ℓ} :
    {A : Type ℓ} (b : Bool) (r : Result A) (x : Error) {a : A}
    → (if b then r else err x) ≡ ok a
    → (b ≡ true) × (r ≡ ok a)
if-ok true r x h = (refl, h)
if-ok false r x h = absurd (cc)

pub >>-ok {ℓ} :
    {A : Type ℓ} (b : Bool) (x : Error) (r : Result A) {a : A}
    → (guard b x >> r) ≡ ok a
    → (b ≡ true) × (r ≡ ok a)
>>-ok true x r h = (refl, h)
>>-ok false x r h = absurd (cc)

abbrev pub with_rows : Db → List Transaction → Db
with_rows d rows = record d { transactions = rows }

pub with_transactions-ok :
    (d e : Db) (rows : List Transaction)
    → with_transactions d rows ≡ ok e
    → (e ≡ with_rows d rows) × (active_unique rows ≡ true)
unfolding with_transactions
with_transactions-ok d e rows h =
    let (active, h₁) = if-ok (active_unique rows) _ _ h in
    let (hashes, h₂) = if-ok (hash_unique rows) _ _ h₁ in (sym (ok_injective h₂), active)

pub update_transactions-ok :
    (test : Transaction → Bool) (f : Transaction → Transaction) (d e : Db)
    → update_transactions test f d ≡ ok e
    → e ≡ with_rows d (update_rows test f d.transactions)
unfolding update_transactions
update_transactions-ok test f d e h =
    (with_transactions-ok d e (update_rows test f d.transactions) h).0

pub update_transaction-ok :
    (test : Transaction → Bool) (f : Transaction → Transaction) (d e : Db)
    → update_transaction test f d ≡ ok e
    → (e ≡ with_rows d (update_rows test f d.transactions)) × (count_rows test d.transactions ≡ 1)
unfolding update_transaction
update_transaction-ok test f d e h =
    let (c, at_c, h₁) = >>=-ok (update_transactions test f d) _ h in
    let (one, h₂) = >>-ok (count_rows test d.transactions == 1) _ (ok c) h₁ in
    (sym (ok_injective h₂) ∙ update_transactions-ok test f d c at_c, ==-eq _ 1 one)

pub insert_transaction-ok :
    (t : Transaction) (d e : Db)
    → insert_transaction t d ≡ ok e
    → e ≡ with_rows d (t ∷ d.transactions)
unfolding insert_transaction
insert_transaction-ok t d e h =
    let (fresh, h₁) = >>-ok _ _ (with_transactions d (t ∷ d.transactions)) h in
    (with_transactions-ok d e (t ∷ d.transactions) h₁).0

abbrev pub with_audit : ℕ → State → State → Text → Db → Db
with_audit payment_id from to actor d = record d {
  payment_transitions = entry ∷ d.payment_transitions;
}
  where
    entry : Transition
    entry = record { payment_id = payment_id; from_state = from; to_state = to; actor_type = actor }

pub record_transition-ok :
    (payment_id : ℕ) (from to : State) (actor : Text) (d e : Db)
    → record_transition payment_id from to actor d ≡ ok e
    → e ≡ with_audit payment_id from to actor d
unfolding record_transition
record_transition-ok payment_id from to actor d e h =
    sym (ok_injective (>>-ok _ _ (ok (with_audit payment_id from to actor d)) h).1)

-- The payment was in `from`, and only then.
pub transition_payment-ok :
    (payment_id : ℕ) (from to : State) (actor : Text) (d e : Db)
    → transition_payment payment_id from to actor d ≡ ok e
    → (e
        ≡ with_audit payment_id from to actor (record d {
          payments =
              update_rows
                (payment_in payment_id (from ∷ []))
                (λ p. record p { state = to; updated_at = d.clock })
                d.payments;
        }))
      × (count_rows (payment_in payment_id (from ∷ [])) d.payments ≡ 1)
unfolding transition_payment
transition_payment-ok payment_id from to actor d e h =
    let (legal, h₁) = >>-ok (can_transition from to) _ _ h in
    let (one, h₂) = >>-ok (count_rows (payment_in payment_id (from ∷ [])) d.payments == 1) _ _ h₁ in
    (record_transition-ok payment_id from to actor _ e h₂, ==-eq _ 1 one)
