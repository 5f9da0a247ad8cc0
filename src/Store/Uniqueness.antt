-- ===== src/Store/Uniqueness.antt =====
-- migrations/: UNIQUE (payment_id) on the active transactions. Which assignments keep it, and when
-- a transaction can be inserted.
pub mod Replacements
pub mod Intents
use facilitator.Base.{
  ℕ, suc, ◌+◌, ◌≤◌, ◌≡◌, ◌≢◌, refl, sym, ap, ◌∙◌, subst, Option, none, some, List, [], ◌∷◌, Text,
  Bool, true, false, ◌&&◌, ◌||◌, not, ◌==◌, update_rows, count_rows, find_row, find_row-test,
  find_row-none-count, if◌then◌else◌, ==-eq, Bool-cases, ◌⊎◌, inl, inr, arith, &&-true,
  Option-cases,
}
use facilitator.Settlement.State.{State, can_transition, state_eq}
use facilitator.Settlement.Errors.{
  Error, Result, ok, err, ◌>>=◌, ◌>>◌, guard, active_payment_violation, settlement_race,
  invalid_transition, actor_type_violation, primary_key_violation, no_rows,
}
use facilitator.Settlement.Work.{Replacement, IntentRequest, Intent}
use facilitator.Store.Schema.{Payment, Transaction, Status, Db, is_active, status_in, actor_type_ok}
use facilitator.Store.Statements.{
  active_of, active_unique, hash_unique, with_transactions, update_transactions, update_transaction,
  insert_transaction, transaction_at, record_transition, transition_payment, payment_in,
}
use facilitator.Store.Statements.Success.{
  update_transaction-ok, update_transactions-ok, with_transactions-ok, with_rows, >>-ok,
}
use facilitator.Store.Recovery.{
  mark_tx_replaced, mark_tx_ambiguous_replaced, insert_replacement, link_replacement,
}

-- The assignment leaves a transaction with its payment and activates none.
pub record Retires (test : Transaction → Bool) (f : Transaction → Transaction) : Type 0 where
  pub payment_kept : (t : Transaction) → (f t).payment_id ≡ t.payment_id
  pub not_activated :
      (t : Transaction) → test t ≡ true → is_active (f t) ≡ true → is_active t ≡ true

module _ {test : Transaction → Bool} {f : Transaction → Transaction} (r : Retires test f) where
  count-update_rows :
      (i : ℕ) (ts : List Transaction)
      → count_rows (active_of i) (update_rows test f ts) ≤ count_rows (active_of i) ts
  unfolding count_rows update_rows active_of
  count-update_rows i [] = ground arith
  count-update_rows i (t ∷ ts) =
      ground (arith, r.payment_kept t, r.not_activated t, count-update_rows i ts)

  -- The row's own test of uniqueness, where the rows below count no more than before.
  row_unique :
      (t : Transaction) (n m : ℕ)
      → m ≤ n
      → (not (is_active t) || n == 0) ≡ true
      → test t ≡ true
      → (not (is_active (f t)) || m == 0) ≡ true
  row_unique t n m le h e = ground (arith, r.not_activated t e)

  pub active_unique-update_rows :
      (ts : List Transaction)
      → active_unique ts ≡ true
      → active_unique (update_rows test f ts) ≡ true
  unfolding active_unique update_rows
  active_unique-update_rows [] h = refl
  active_unique-update_rows (t ∷ ts) h =
      let (top, rest) =
        &&-true (not (is_active t) || count_rows (active_of t.payment_id) ts == 0)
          (active_unique ts) h in
      let below = active_unique-update_rows ts rest in
      elim (Bool-cases (test t)) [
        | inl e ↦
            let here : (not (is_active (f t))
                  || count_rows (active_of (f t).payment_id) (update_rows test f ts) == 0)
                ≡ true =
              rw (r.payment_kept t) (row_unique t _ _ (count-update_rows t.payment_id ts) top e) in
            rw (e, here) below
        | inr e ↦
            let here : (not (is_active t)
                  || count_rows (active_of t.payment_id) (update_rows test f ts) == 0)
                ≡ true =
              ground (arith, count-update_rows t.payment_id ts) in
            rw (e, here) below
      ]

-- At most one transaction of a payment is active.
pub active_unique-count :
    (i : ℕ) (ts : List Transaction) → active_unique ts ≡ true → count_rows (active_of i) ts ≤ 1
unfolding active_unique count_rows active_of
active_unique-count i [] h = ground arith
active_unique-count i (t ∷ ts) h = ground (arith, active_unique-count i ts)

-- Transactions that an assignment retires are active no more.
pub retired-count :
    (i : ℕ) (test : Transaction → Bool) (f : Transaction → Transaction) (ts : List Transaction)
    → ((t : Transaction) → test t ≡ true → active_of i t ≡ true)
    → ((t : Transaction) → active_of i (f t) ≡ false)
    → count_rows (active_of i) (update_rows test f ts) + count_rows test ts
      ≡ count_rows (active_of i) ts
unfolding count_rows update_rows
retired-count i test f [] was is = refl
retired-count i test f (t ∷ ts) was is =
    ground (arith, was t, is t, retired-count i test f ts was is)

-- The result is not the violation of the index.
abbrev pub Clean {ℓ} : {A : Type ℓ} → Result A → Type ℓ
Clean r = r ≢ err active_payment_violation

pub >>=-Clean {ℓ κ} :
    {A : Type ℓ} {B : Type κ} (m : Result A) (f : A → Result B)
    → m ≢ err active_payment_violation
    → ((a : A) → m ≡ ok a → f a ≢ err active_payment_violation)
    → (m >>= f) ≢ err active_payment_violation
>>=-Clean (ok a) f h k = k a refl
>>=-Clean (err e) f h k = λ bad. h (cc)

pub guard-Clean {ℓ} :
    {A : Type ℓ} (b : Bool) (x : Error) (r : Result A)
    → x ≢ active_payment_violation
    → r ≢ err active_payment_violation
    → (guard b x >> r) ≢ err active_payment_violation
guard-Clean true x r h k = k
guard-Clean false x r h k = λ bad. h (cc)

with_transactions-Clean :
    (d : Db) (rows : List Transaction)
    → active_unique rows ≡ true
    → Clean (with_transactions d rows)
unfolding with_transactions
with_transactions-Clean d rows h = λ bad. ground arith

update_transactions-Clean :
    (test : Transaction → Bool) (f : Transaction → Transaction) (d : Db)
    → Retires test f
    → active_unique d.transactions ≡ true
    → Clean (update_transactions test f d)
unfolding update_transactions
update_transactions-Clean test f d r h =
    with_transactions-Clean d (update_rows test f d.transactions)
      (active_unique-update_rows r d.transactions h)

pub update_transaction-Clean :
    (test : Transaction → Bool) (f : Transaction → Transaction) (d : Db)
    → Retires test f
    → active_unique d.transactions ≡ true
    → Clean (update_transaction test f d)
unfolding update_transaction
update_transaction-Clean test f d r h =
    >>=-Clean (update_transactions test f d) _ (update_transactions-Clean test f d r h)
      (λ c at. guard-Clean _ settlement_race (ok c) (λ bad. ground arith) (λ bad. ground arith))

pub record_transition-Clean :
    (i : ℕ) (from to : State) (actor : Text) (d : Db) → Clean (record_transition i from to actor d)
unfolding record_transition
record_transition-Clean i from to actor d =
    guard-Clean (actor_type_ok actor) actor_type_violation _ (λ bad. ground arith)
      (λ bad. ground arith)

pub transition_payment-Clean :
    (i : ℕ) (from to : State) (actor : Text) (d : Db) → Clean (transition_payment i from to actor d)
unfolding transition_payment
transition_payment-Clean i from to actor d =
    guard-Clean (can_transition from to) (invalid_transition from to) _ (λ bad. ground arith)
      (guard-Clean (count_rows (payment_in i (from ∷ [])) d.payments == 1) settlement_race _
        (λ bad. ground arith) (record_transition-Clean i from to actor _))

-- Where every active transaction of the inserted one's payment is gone, it can be inserted.
pub insert_transaction-Clean :
    (t : Transaction) (d : Db)
    → active_unique d.transactions ≡ true
    → count_rows (active_of t.payment_id) d.transactions ≡ 0
    → Clean (insert_transaction t d)
unfolding insert_transaction active_unique
insert_transaction-Clean t d h none_left =
    guard-Clean _ primary_key_violation _ (λ bad. ground arith)
      (with_transactions-Clean d (t ∷ d.transactions) (ground arith))

pub insert_replacement-Clean :
    (new_id i old : ℕ) (r : Replacement) (raw : Option Text) (sighash : Transaction → Option Text)
    (d : Db)
    → active_unique d.transactions ≡ true
    → count_rows (active_of i) d.transactions ≡ 0
    → Clean (insert_replacement new_id i old r raw sighash d)
unfolding insert_replacement
insert_replacement-Clean new_id i old r raw sighash d h none_left =
    by_row (find_row (λ (t : Transaction). t.id == old && t.payment_id == i) d.transactions) refl
  where
    by_row :
        (o : Option Transaction)
        → find_row (λ (t : Transaction). t.id == old && t.payment_id == i) d.transactions ≡ o
        → Clean (insert_replacement new_id i old r raw sighash d)
    by_row none e = λ bad.
        let no : err no_rows ≡ err active_payment_violation = rw (insert_replacement, e) at bad in
        ground arith
    by_row (some t) e =
        let at_i : t.payment_id ≡ i =
          ==-eq _ i (&&-true (t.id == old) _ (find_row-test _ d.transactions t e)).1 in
        rw (insert_replacement, e)
          (insert_transaction-Clean _ d h
            (subst (λ j. count_rows (active_of j) d.transactions ≡ 0) (sym at_i) none_left))

pub found_or_none {ℓ} :
    {A : Type ℓ} (P : Result Db → Type 0) (o : Option A) (x : Error) (found : A → Result Db)
    → P (err x)
    → ((t : A) → P (found t))
    → P (elim o as (λ y. Result Db) [ none ↦ err x | some t ↦ found t ])
found_or_none P none x found h k = h
found_or_none P (some t) x found h k = k t

insert_transaction_unique :
    (t : Transaction) (d e : Db)
    → insert_transaction t d ≡ ok e
    → active_unique e.transactions ≡ true
unfolding insert_transaction
insert_transaction_unique t d e h =
    let (fresh, h₁) = >>-ok _ _ (with_transactions d (t ∷ d.transactions)) h in
    let (is_e, uniq) = with_transactions-ok d e (t ∷ d.transactions) h₁ in
    rw (ap (λ (x : Db). x.transactions) is_e) uniq

pub insert_replacement_unique :
    (new_id i old : ℕ) (r : Replacement) (raw : Option Text) (sighash : Transaction → Option Text)
    (d e : Db)
    → insert_replacement new_id i old r raw sighash d ≡ ok e
    → active_unique e.transactions ≡ true
unfolding insert_replacement
insert_replacement_unique new_id i old r raw sighash d e =
    found_or_none (λ r. r ≡ ok e → active_unique e.transactions ≡ true)
      (find_row (λ (t : Transaction). t.id == old && t.payment_id == i) d.transactions) no_rows _
      (λ h. ground arith) (λ t h. insert_transaction_unique _ d e h)

linked-Retires :
    (new_id i old : ℕ)
    → Retires
        (λ (t : Transaction). t.id == old && t.payment_id == i)
        (λ (t : Transaction). record t { replaced_by_id = some new_id })
unfolding is_active
linked-Retires new_id i old = record { payment_kept = λ t. refl; not_activated = λ t e a. a }

pub link_replacement-Clean :
    (new_id i old : ℕ) (d : Db)
    → active_unique d.transactions ≡ true
    → Clean (link_replacement new_id i old d)
unfolding link_replacement
link_replacement-Clean new_id i old d h =
    update_transactions-Clean _ _ d (linked-Retires new_id i old) h
