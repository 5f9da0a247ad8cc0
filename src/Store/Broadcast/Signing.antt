-- ===== src/Store/Broadcast/Signing.antt =====
-- internal/store/settlementwork.go: which writes leave a transaction awaiting its signature.
use facilitator.Base.{
  ℕ, ◌+◌, ◌≤◌, ◌≡◌, refl, ap, subst, List, [], ◌∷◌, Text, Bool, true, false, ◌==◌, update_rows,
  count_rows, if◌then◌else◌, Bool-cases, inl, inr, arith, ==-eq,
}
use facilitator.Settlement.State.{State}
use facilitator.Settlement.Errors.{Result, ok, ◌>>=◌, >>=-ok}
use facilitator.Store.Schema.{Transaction, Db, status_eq}
use facilitator.Store.Statements.{update_transaction, transition_payment}
use facilitator.Store.Statements.Success.{update_transaction-ok, transition_payment-ok}
use facilitator.Store.Broadcast.{
  unsigned_at, mark_tx_signed, mark_tx_broadcast, mark_tx_ambiguous, mark_intent_expired,
  mark_intent_unsettleable,
}

abbrev pub unsigned_rows : ℕ → Db → ℕ
unsigned_rows t d = count_rows (unsigned_at t) d.transactions

-- A write after which no more rows await their signature.
abbrev pub SignsNone : ℕ → Db → Result Db → Type 0
SignsNone t d r = (e : Db) → r ≡ ok e → unsigned_rows t e ≤ unsigned_rows t d

count-update_rows_le :
    (goal test : Transaction → Bool) (f : Transaction → Transaction) (ts : List Transaction)
    → ((x : Transaction) → goal (f x) ≡ true → goal x ≡ true)
    → count_rows goal (update_rows test f ts) ≤ count_rows goal ts
unfolding count_rows update_rows
count-update_rows_le goal test f [] h = ground arith
count-update_rows_le goal test f (x ∷ ts) h =
    ground (arith, h x, count-update_rows_le goal test f ts h)

count-update_rows_none :
    (test : Transaction → Bool) (f : Transaction → Transaction) (ts : List Transaction)
    → ((x : Transaction) → test (f x) ≡ false)
    → count_rows test (update_rows test f ts) ≡ 0
unfolding count_rows update_rows
count-update_rows_none test f [] h = refl
count-update_rows_none test f (x ∷ ts) h = ground (arith, h x, count-update_rows_none test f ts h)

update_transaction-SignsNone :
    (t : ℕ) (test : Transaction → Bool) (f : Transaction → Transaction) (d : Db)
    → ((x : Transaction) → unsigned_at t (f x) ≡ true → unsigned_at t x ≡ true)
    → SignsNone t d (update_transaction test f d)
update_transaction-SignsNone t test f d keep e h =
    let rows : e.transactions ≡ update_rows test f d.transactions =
      ap (λ (x : Db). x.transactions) (update_transaction-ok test f d e h).0 in
    rw rows (count-update_rows_le (unsigned_at t) test f d.transactions keep)

-- An assignment to transactions, then a move of the payment.
then_move-SignsNone :
    (t : ℕ) (test : Transaction → Bool) (f : Transaction → Transaction) (i : ℕ) (from to : State)
    (actor : Text) (d : Db)
    → ((x : Transaction) → unsigned_at t (f x) ≡ true → unsigned_at t x ≡ true)
    → SignsNone t d (do c ← update_transaction test f d; transition_payment i from to actor c)
then_move-SignsNone t test f i from to actor d keep e h =
    let (c, at_c, h₁) = >>=-ok (update_transaction test f d) _ h in
    let rows : e.transactions ≡ c.transactions =
      ap (λ (x : Db). x.transactions) (transition_payment-ok i from to actor c e h₁).0 in
    rw rows (update_transaction-SignsNone t test f d keep c at_c)

module _ (t i id : ℕ) (actor : Text) (d : Db) where
  pub mark_tx_ambiguous-SignsNone : SignsNone t d (mark_tx_ambiguous i id actor d)
  unfolding mark_tx_ambiguous unsigned_at status_eq
  mark_tx_ambiguous-SignsNone = then_move-SignsNone t _ _ i _ _ actor d (λ x h. ground arith)

  pub mark_tx_broadcast-SignsNone :
      (hash : Text) → SignsNone t d (mark_tx_broadcast i id hash actor d)
  unfolding mark_tx_broadcast unsigned_at status_eq
  mark_tx_broadcast-SignsNone hash = then_move-SignsNone t _ _ i _ _ actor d (λ x h. ground arith)

  pub mark_intent_expired-SignsNone : SignsNone t d (mark_intent_expired i id actor d)
  unfolding mark_intent_expired unsigned_at status_eq
  mark_intent_expired-SignsNone = then_move-SignsNone t _ _ i _ _ actor d (λ x h. ground arith)

  pub mark_intent_unsettleable-SignsNone : SignsNone t d (mark_intent_unsettleable i id actor d)
  unfolding mark_intent_unsettleable unsigned_at status_eq
  mark_intent_unsettleable-SignsNone = then_move-SignsNone t _ _ i _ _ actor d (λ x h. ground arith)

-- An assignment that signs a transaction spends the row that awaited it.
spends :
    (t id : ℕ) (f : Transaction → Transaction) (d e : Db)
    → ((j : ℕ) (x : Transaction) → unsigned_at j (f x) ≡ false)
    → update_transaction (unsigned_at id) f d ≡ ok e
    → (if id == t then 1 else 0) + unsigned_rows t e ≤ unsigned_rows t d
spends t id f d e off h =
    let (is_e, one) = update_transaction-ok (unsigned_at id) f d e h in
    let rows : e.transactions ≡ update_rows (unsigned_at id) f d.transactions =
      ap (λ (x : Db). x.transactions) is_e in
    let fewer : unsigned_rows t e ≤ unsigned_rows t d = rw rows (
      count-update_rows_le (unsigned_at t) (unsigned_at id) f d.transactions
        (λ x bad. absurd (ground (arith, off t x)))) in
    let gone : unsigned_rows id e ≡ 0 =
      rw rows (count-update_rows_none (unsigned_at id) f d.transactions (off id)) in
    elim (Bool-cases (id == t)) [
      | inl same ↦
          let was : unsigned_rows t d ≡ 1 =
            subst (λ j. unsigned_rows j d ≡ 1) (==-eq id t same) one in
          let is : unsigned_rows t e ≡ 0 =
            subst (λ j. unsigned_rows j e ≡ 0) (==-eq id t same) gone in
          rw (same, was, is) (omega arith)
      | inr other ↦ rw other (omega arith)
    ]

pub mark_tx_signed-spends :
    (t id : ℕ) (raw sighash : Text) (gas fee tip : ℕ) (d e : Db)
    → mark_tx_signed id raw sighash gas fee tip d ≡ ok e
    → (if id == t then 1 else 0) + unsigned_rows t e ≤ unsigned_rows t d
unfolding mark_tx_signed unsigned_at status_eq
mark_tx_signed-spends t id raw sighash gas fee tip d e h = spends t id _ d e (λ j x. ground arith) h
