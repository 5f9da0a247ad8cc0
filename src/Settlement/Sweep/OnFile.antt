-- ===== src/Settlement/Sweep/OnFile.antt =====
-- internal/settlement/recovery.go: nothing is handed to the network that no row holds.
use facilitator.Base.{
  ℕ, ◌≡◌, refl, sym, subst, Option, none, some, List, [], ◌∷◌, map, Memᴰ, Text, Bool, true, false,
  ◌&&◌, ◌==◌, inl, inr, update_rows, count_rows, find_row, map-update_rows, Bool-cases,
  if◌then◌else◌, arith, ==-eq, &&-true, Option-cases,
}
use facilitator.Settlement.State.{State, state_eq}
use facilitator.Settlement.Errors.{
  Result, ok, err, ◌>>=◌, >>=-ok, ok_injective, settlement_race, no_rows,
}
use facilitator.Settlement.Work.{Replacement}
use facilitator.Settlement.Sweep.Actions.{
  Issue, supersedes_ambiguous, supersedes, fills, bumps, hash_column, OnFile,
}
use facilitator.Store.Schema.{Payment, Transaction, Db}
use facilitator.Store.Statements.{
  update_transaction, payment_in, transition_payment, record_transition,
}
use facilitator.Store.Statements.Success.{
  update_transactions-ok, update_transaction-ok, insert_transaction-ok, transition_payment-ok,
  record_transition-ok,
}
use facilitator.Store.Recovery
use facilitator.Store.Fillers

-- A column of a table.
module _ {B : Type 0} (column : Transaction → B) (c : B) where
  abbrev Holds : Db → Type 0
  Holds d = Memᴰ c (map column d.transactions)

  -- The row that an update of exactly one row writes.
  updated_row :
      (test : Transaction → Bool) (f : Transaction → Transaction) (ts : List Transaction)
      → count_rows test ts ≡ 1
      → ((t : Transaction) → test t ≡ true → column (f t) ≡ c)
      → Memᴰ c (map column (update_rows test f ts))
  unfolding count_rows update_rows
  updated_row test f [] one set = absurd (omega arith)
  updated_row test f (t ∷ ts) one set = elim (Bool-cases (test t)) [
    | inl e ↦ Memᴰ.head (rw e (sym (set t e)))
    | inr e ↦ Memᴰ.tail (updated_row test f ts (ground arith) set)
  ]

  insert_replacement-Holds :
      (new_id payment_id old_tx_id : ℕ) (r : Replacement) (raw : Option Text)
      (sighash : Transaction → Option Text) (d e : Db)
      → ((t : Transaction)
          → t.id ≡ new_id
          → t.raw_transaction_hash ≡ some r.raw_hash
          → t.raw_transaction ≡ raw
          → column t ≡ c)
      → Recovery.insert_replacement new_id payment_id old_tx_id r raw sighash d ≡ ok e
      → Holds e
  unfolding Recovery.insert_replacement
  insert_replacement-Holds new_id payment_id old_tx_id r raw sighash d e set h =
      elim (Option-cases (find_row old_row d.transactions)) [
        | inl e₁ ↦ absurd (missing (rw (Recovery.insert_replacement, e₁) at h))
        | inr (old, e₁) ↦
            rw (insert_transaction-ok _ d e (rw (Recovery.insert_replacement, e₁) at h))
              (Memᴰ.head (sym (set _ refl refl refl)))
      ]
    where
      old_row : Transaction → Bool
      old_row t = t.id == old_tx_id && t.payment_id == payment_id

      missing : err no_rows ≡ ok e → ⊥
      missing p = cc

  link_replacement-Holds :
      (new_id payment_id old_tx_id : ℕ) (d e : Db)
      → ((t : Transaction) → column (record t { replaced_by_id = some new_id }) ≡ column t)
      → Recovery.link_replacement new_id payment_id old_tx_id d ≡ ok e
      → Holds d
      → Holds e
  unfolding Recovery.link_replacement
  link_replacement-Holds new_id payment_id old_tx_id d e keep h held =
      rw (update_transactions-ok _ _ d e h)
        (rw (map-update_rows column _ _ d.transactions keep) held)

  transition_payment-Holds :
      (payment_id : ℕ) (from to : State) (actor : Text) (d e : Db)
      → transition_payment payment_id from to actor d ≡ ok e
      → Holds d
      → Holds e
  transition_payment-Holds payment_id from to actor d e h held =
      rw (transition_payment-ok payment_id from to actor d e h).0 held

  -- The old row is superseded, the new one inserted and linked, and a last write keeps the rows.
  replacement-Holds :
      (test : Transaction → Bool) (f : Transaction → Transaction) (new_id payment_id old_tx_id : ℕ)
      (r : Replacement) (raw : Option Text) (sighash : Transaction → Option Text) (d e : Db)
      (rest : Db → Result Db)
      → ((t : Transaction)
          → t.id ≡ new_id
          → t.raw_transaction_hash ≡ some r.raw_hash
          → t.raw_transaction ≡ raw
          → column t ≡ c)
      → ((t : Transaction) → column (record t { replaced_by_id = some new_id }) ≡ column t)
      → ((b : Db) → rest b ≡ ok e → Holds b → Holds e)
      → (update_transaction test f d >>= λ s.
          Recovery.insert_replacement new_id payment_id old_tx_id r raw sighash s >>= λ a.
          Recovery.link_replacement new_id payment_id old_tx_id a >>= rest)
        ≡ ok e
      → Holds e
  replacement-Holds test f new_id payment_id old_tx_id r raw sighash d e rest set keep last h =
      let (s, at_s, h₁) = >>=-ok (update_transaction test f d) _ h in
      let (a, at_a, h₂) =
        >>=-ok (Recovery.insert_replacement new_id payment_id old_tx_id r raw sighash s) _ h₁ in
      let (b, at_b, h₃) =
        >>=-ok (Recovery.link_replacement new_id payment_id old_tx_id a) rest h₂ in
      last b h₃ (
        link_replacement-Holds new_id payment_id old_tx_id a b keep at_b
          (insert_replacement-Holds new_id payment_id old_tx_id r raw sighash s a set at_a))

  ok-Holds : (b e : Db) → ok b ≡ ok e → Holds b → Holds e
  ok-Holds b e h held = subst Holds (ok_injective h) held

  record_transition-Holds :
      (payment_id : ℕ) (from to : State) (actor : Text) (d e : Db)
      → record_transition payment_id from to actor d ≡ ok e
      → Holds d
      → Holds e
  record_transition-Holds payment_id from to actor d e h held =
      rw (record_transition-ok payment_id from to actor d e h) held

  -- The end of MarkTxReplaced: the payment moves if it was not replaced already.
  moved-Holds :
      (payment_id : ℕ) (actor : Text) (moved : Db) (from_broadcast : Bool) (e : Db)
      → (if from_broadcast
          then record_transition payment_id State.broadcast State.replaced actor moved
          else ok moved)
        ≡ ok e
      → Holds moved
      → Holds e
  moved-Holds payment_id actor moved true e h held =
      record_transition-Holds payment_id _ _ actor moved e h held
  moved-Holds payment_id actor moved false e h held = ok-Holds moved e h held

  found-Holds :
      (o : Option Payment) (next : Payment → Result Db) (e : Db)
      → ((p : Payment) → next p ≡ ok e → Holds e)
      → elim o as (λ x. Result Db) [ none ↦ err settlement_race | some p ↦ next p ] ≡ ok e
      → Holds e
  found-Holds none next e each h = absurd (cc)
  found-Holds (some p) next e each h = each p h

module _ (keccak : Text → Text) where
  -- A write that issues a signature leaves it in its row.
  pub Issue-OnFile :
      (d e : Db) (id : ℕ) (raw : Text) → Issue keccak d id raw e → OnFile keccak id raw e
  unfolding Recovery.mark_tx_ambiguous_replaced Recovery.mark_tx_replaced
      Fillers.mark_gap_filler_prepared Fillers.mark_gap_filler_replaced Fillers.status_at
  Issue-OnFile d e id raw (supersedes_ambiguous i old r actor same h) = inl (
      replacement-Holds hash_column _ _ _ id i old r none _ d e _
        (λ t is hash bytes. rw (is, hash, same)) (λ t. refl)
        (λ b. transition_payment-Holds hash_column _ i _ _ actor b e) h)
  Issue-OnFile d e id raw (supersedes i old r actor same h) = inl (
      replacement-Holds hash_column _ _ _ id i old r none _ d e _
        (λ t is hash bytes. rw (is, hash, same)) (λ t. refl)
        (λ b at_b held.
          found-Holds hash_column _ (find_row test b.payments)
            (λ p.
              if state_eq p.state State.broadcast
              then record_transition i State.broadcast State.replaced actor (moved b)
              else ok (moved b))
            e
            (λ p h₂.
              moved-Holds hash_column _ i actor (moved b) (state_eq p.state State.broadcast) e h₂
                held)
            at_b)
        h)
    where
      test : Payment → Bool
      test = payment_in i (State.broadcast ∷ State.replaced ∷ [])

      moved : Db → Db
      moved b = record b {
        payments =
            update_rows test (λ p. record p { state = State.replaced; updated_at = d.clock })
              b.payments;
      }
  Issue-OnFile d e id raw (fills raw_hash tx_hash gas max_fee priority same h) =
      let (rows, one) = update_transaction-ok _ _ d e h in
      inl (
        rw rows (
          updated_row hash_column (id, some (keccak raw)) _ _ d.transactions one
            (λ t at_t. let is = ==-eq t.id id (&&-true _ _ at_t).0 in rw (is, same))))
  Issue-OnFile d e id raw (bumps i old r same h) =
      let (s, at_s, h₁) = >>=-ok (update_transaction _ _ d) _ h in
      let (a, at_a, h₂) = >>=-ok (Recovery.insert_replacement id i old r (some raw) _ s) _ h₁ in
      inl (
        link_replacement-Holds hash_column _ id i old a e (λ t. refl) h₂
          (insert_replacement-Holds hash_column _ id i old r (some raw) _ s a
            (λ t is hash bytes. rw (is, hash, same)) at_a))
