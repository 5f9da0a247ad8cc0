-- ===== src/Store/Finality.antt =====
-- internal/store/settlementwork.go: MarkTxConfirmed and MarkTxReverted are called by the worker and
-- by the request that waits for the receipt, in any order.
pub mod Repeats
use facilitator.Base.{
  ℕ, suc, ◌+◌, ◌≡◌, ◌≢◌, refl, sym, ap, ◌∙◌, subst, Option, none, some, List, [], ◌∷◌, Text, Bool,
  true, false, ◌&&◌, ◌||◌, not, ◌==◌, update_rows, count_rows, find_row, find_row-mem,
  find_row-test, if◌then◌else◌, Bool-cases, ◌⊎◌, inl, inr, arith, &&-true, Option-cases,
}
use facilitator.Settlement.State.{State, state_eq, is_in}
use facilitator.Settlement.State.Laws.{state_eq_refl}
use facilitator.Settlement.Errors.{
  Error, Result, ok, err, ◌>>=◌, ◌>>◌, guard, >>=-ok, ok_injective, settlement_race,
  actor_type_violation,
}
use facilitator.Store.Schema.{Payment, Transaction, Status, Db, status_in, status_eq, actor_type_ok}
use facilitator.Store.Statements.{
  active_unique, hash_unique, with_transactions, update_transactions, transaction_at,
  record_transition, payment_in, transition_payment_in, validate_all,
}
use facilitator.Store.Statements.Success.{if-ok, >>-ok, with_rows, record_transition-ok, with_audit}
use facilitator.Store.Broadcast.{
  mark_tx_confirmed, mark_tx_reverted, terminal_settlement_matches, on_network, settleable,
}

-- An assignment whose rows the WHERE no longer selects changes nothing the second time.
update_rows-none {ℓ} :
    {A : Type ℓ} (test : A → Bool) (f : A → A) (xs : List A)
    → count_rows test xs ≡ 0
    → update_rows test f xs ≡ xs
unfolding update_rows count_rows
update_rows-none test f [] h = refl
update_rows-none test f (x ∷ xs) h = ground (arith, update_rows-none test f xs)

count-update_rows_out {ℓ} :
    {A : Type ℓ} (test : A → Bool) (f : A → A) (xs : List A)
    → ((x : A) → test (f x) ≡ false)
    → count_rows test (update_rows test f xs) ≡ 0
unfolding update_rows count_rows
count-update_rows_out test f [] out = refl
count-update_rows_out test f (x ∷ xs) out =
    ground (arith, out x, count-update_rows_out test f xs out)

-- Rows that an assignment moves from one WHERE to another are counted there.
count-update_rows_in {ℓ} :
    {A : Type ℓ} (test goal : A → Bool) (f : A → A) (xs : List A)
    → ((x : A) → test x ≡ true → goal (f x) ≡ true)
    → count_rows test xs ≢ 0
    → count_rows goal (update_rows test f xs) ≢ 0
unfolding update_rows count_rows
count-update_rows_in test goal f [] to h = λ bad. h refl
count-update_rows_in test goal f (x ∷ xs) to h =
    ground (arith, to x, count-update_rows_in test goal f xs to)

-- The constraints that PostgreSQL holds between statements.
abbrev pub Constrained : Db → Type 0
Constrained d = (active_unique d.transactions ≡ true) × (hash_unique d.transactions ≡ true)

with_transactions-same : (d : Db) → Constrained d → with_transactions d d.transactions ≡ ok d
unfolding with_transactions
with_transactions-same d h = rw (h.0, h.1) refl

with_transactions-Constrained :
    (d e : Db) (rows : List Transaction)
    → with_transactions d rows ≡ ok e
    → (e ≡ with_rows d rows) × Constrained (with_rows d rows)
unfolding with_transactions
with_transactions-Constrained d e rows h =
    let (active, h₁) = if-ok (active_unique rows) _ _ h in
    let (hashes, h₂) = if-ok (hash_unique rows) _ _ h₁ in (sym (ok_injective h₂), (active, hashes))

pub update_transactions-Constrained :
    (test : Transaction → Bool) (f : Transaction → Transaction) (d e : Db)
    → update_transactions test f d ≡ ok e
    → (e ≡ with_rows d (update_rows test f d.transactions))
      × Constrained (with_rows d (update_rows test f d.transactions))
unfolding update_transactions
update_transactions-Constrained test f d e h = with_transactions-Constrained d e _ h

-- A repeated call finds the transaction off the network and the outcome recorded.
repeated :
    (test : Transaction → Bool) (f : Transaction → Transaction) (d : Db)
    → Constrained d
    → count_rows test d.transactions ≡ 0
    → update_transactions test f d ≡ ok d
unfolding update_transactions
repeated test f d h none_left =
    rw (update_rows-none test f d.transactions none_left) (with_transactions-same d h)

find_row-count {ℓ} :
    {A : Type ℓ} (test : A → Bool) (xs : List A) (x : A)
    → find_row test xs ≡ some x
    → count_rows test xs ≢ 0
unfolding find_row count_rows
find_row-count test [] x h = ground arith
find_row-count test (y ∷ xs) x h = ground (arith, find_row-count test xs x)

abbrev moved_row : Db → State → (Payment → Payment) → Payment → Payment
moved_row d to set p = let q = set p in record q { state = to; updated_at = d.clock }

arrives :
    (i : ℕ) (from : List State) (to : State) (d : Db) (set : Payment → Payment)
    → ((p : Payment) → (set p).id ≡ p.id)
    → (p : Payment) → payment_in i from p ≡ true
    → payment_in i (to ∷ []) (moved_row d to set p) ≡ true
unfolding payment_in is_in
arrives i from to d set keep p at = ground (arith, keep p, state_eq_refl to)

record_transition-actor :
    (i : ℕ) (from to : State) (actor : Text) (d e : Db)
    → record_transition i from to actor d ≡ ok e
    → actor_type_ok actor ≡ true
unfolding record_transition
record_transition-actor i from to actor d e h = (>>-ok (actor_type_ok actor) _ _ h).0

-- A successful move of a payment: the actor is one that the audit table takes, and the payment is
-- in its new state.
pub transition_payment_in-ok :
    (i : ℕ) (from : List State) (to : State) (actor : Text) (set : Payment → Payment) (d e : Db)
    → ((p : Payment) → (set p).id ≡ p.id)
    → transition_payment_in i from to actor set d ≡ ok e
    → (e.transactions ≡ d.transactions)
      × (actor_type_ok actor ≡ true)
      × (count_rows (payment_in i (to ∷ [])) e.payments ≢ 0)
unfolding transition_payment_in
transition_payment_in-ok i from to actor set d e keep h =
    let (u, legal, h₁) = >>=-ok (validate_all from to) _ h in
    by_row (find_row (payment_in i from) d.payments) refl h₁
  where
    by_row :
        (o : Option Payment)
        → find_row (payment_in i from) d.payments ≡ o
        → (elim o as (λ x. Result Db) [
          | none ↦ err settlement_race
          | some previous ↦ record_transition i previous.state to actor (record d {
            payments = update_rows (payment_in i from) (moved_row d to set) d.payments;
          })
        ])
          ≡ ok e
        → (e.transactions ≡ d.transactions)
          × (actor_type_ok actor ≡ true)
          × (count_rows (payment_in i (to ∷ [])) e.payments ≢ 0)
    by_row none at k = absurd (ground arith)
    by_row (some p) at k =
        let is_e = record_transition-ok i p.state to actor _ e k in
        (
          ap (λ (x : Db). x.transactions) is_e,
          record_transition-actor i p.state to actor _ e k,
          rw (ap (λ (x : Db). x.payments) is_e) (
              count-update_rows_in (payment_in i from) (payment_in i (to ∷ [])) (moved_row d to set)
                d.payments (λ q. arrives i from to d set keep q)
                (find_row-count (payment_in i from) d.payments p at)),
        )

-- What either function has done where it returns no error.
pub record Recorded (i t : ℕ) (status : Status) (state : State) (d e : Db) : Type 0 where
  pub constrained : Constrained e
  pub off_network : count_rows (transaction_at i t on_network) e.transactions ≡ 0
  pub terminal : terminal_settlement_matches i t status state e ≡ true

pub matches :
    (i t : ℕ) (status : Status) (state : State) (d : Db)
    → count_rows (transaction_at i t (status ∷ [])) d.transactions ≢ 0
    → count_rows (payment_in i (state ∷ [])) d.payments ≢ 0
    → terminal_settlement_matches i t status state d ≡ true
unfolding terminal_settlement_matches
matches i t status state d h k = ground arith

-- The body that the two functions share: the transaction's assignment, then the payment's.
abbrev pub record_outcome :
    ℕ → ℕ → Status → State → (Transaction → Transaction) → (Db → Result Db) → Db → Result Db
record_outcome i t status state f move d = do
  final ← update_transactions (transaction_at i t on_network) f d
  if count_rows (transaction_at i t on_network) d.transactions == 1
      then move final
      else (if terminal_settlement_matches i t status state final
          then ok final
          else err settlement_race)

module _ (i t : ℕ) (status : Status) (state : State) (f : Transaction → Transaction)
    (move : Db → Result Db) where
  pub record_outcome-Recorded :
      (d e : Db)
      → ((x : Transaction) → transaction_at i t on_network (f x) ≡ false)
      → ((x : Transaction)
          → transaction_at i t on_network x ≡ true
          → transaction_at i t (status ∷ []) (f x) ≡ true)
      → ((c : Db)
          → move c ≡ ok e
          → (e.transactions ≡ c.transactions)
            × (count_rows (payment_in i (state ∷ [])) e.payments ≢ 0))
      → record_outcome i t status state f move d ≡ ok e
      → Recorded i t status state d e
  record_outcome-Recorded d e out in_ moves h =
      let (c, at_c, h₁) = >>=-ok (update_transactions (transaction_at i t on_network) f d) _ h in
      let (is_c, good) = update_transactions-Constrained _ f d c at_c in
      let rows : c.transactions ≡ update_rows (transaction_at i t on_network) f d.transactions =
        ap (λ (x : Db). x.transactions) is_c in
      elim (Bool-cases (count_rows (transaction_at i t on_network) d.transactions == 1)) [
        | inl one ↦
            let (same, landed) = moves c (rw one at h₁) in
            record {
              constrained = rw (same, rows) good;
              off_network = rw (same, rows) (count-update_rows_out _ f d.transactions out);
              terminal =
                  matches i t status state e
                    (rw (same, rows)
                      (count-update_rows_in _ _ f d.transactions in_ (λ zero. ground arith)))
                    landed;
            }
        | inr more ↦
            let (recorded, h₂) =
              if-ok (terminal_settlement_matches i t status state c) _ _ (rw more at h₁) in
            let is_e : e ≡ c = sym (ok_injective h₂) in
            record {
              constrained = rw (is_e, rows) good;
              off_network = rw (is_e, rows) (count-update_rows_out _ f d.transactions out);
              terminal = rw is_e recorded;
            }
      ]

  pub record_outcome_again :
      (d e : Db) → Recorded i t status state d e → record_outcome i t status state f move e ≡ ok e
  record_outcome_again d e r =
      rw
        (
          repeated (transaction_at i t on_network) f e r.constrained r.off_network,
          r.off_network,
          r.terminal,
        )
        refl
