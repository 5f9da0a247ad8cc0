-- ===== src/Store/Evolution/Statements.antt =====
-- internal/store: each SQL statement of an operation is a step of `Evolves`.
use facilitator.Base.{
  ℕ, ◌≡◌, refl, sym, subst, Option, none, some, List, [], ◌∷◌, map, Memᴰ, Text, Bool, true, ◌==◌,
  update_rows, count_rows, find_row, find_row-test, map-update_rows, Bool-cases, arith, inl, inr,
  &&-true,
}
use mathlib.Core.List.Memᴰ
use facilitator.Settlement.State.{State, is_in, state_eq, can_transition}
use facilitator.Settlement.State.Laws.{◌⟶*◌, edge, state_eq-eq}
use facilitator.Settlement.Errors.{
  Result, ok, err, >>=-ok, settlement_race, actor_type_violation, invalid_transition,
}
use facilitator.Store.Schema.{Payment, Transaction, Transition, Db, actor_type_ok}
use facilitator.Store.Statements.{
  with_transactions, update_transactions, update_transaction, insert_transaction, record_transition,
  payment_in, transition_payment, transition_payment_in, validate_all,
}
use facilitator.Store.Evolution.{
  Moved-refl, Moved-update_rows, Key, key, Evolves, Evolves-refl, Steps, Steps-ok, Steps->>=,
  Steps-guard,
}

with_transactions-Steps :
    (d : Db) (rows : List Transaction)
    → ((k : Key) → Memᴰ k (map key rows) → Memᴰ k (map key d.transactions))
    → Steps d (with_transactions d rows)
unfolding with_transactions
with_transactions-Steps d rows keys e h =
    Steps-ok d (record d { transactions = rows })
      (record {
        moved = Moved-refl d.payments;
        audited = λ a. a;
        inherited = keys;
        accounts = refl;
      })
      e (ground arith)

pub update_transactions-Steps :
    (d : Db) (test : Transaction → Bool) (f : Transaction → Transaction)
    → ((t : Transaction) → key (f t) ≡ key t)
    → Steps d (update_transactions test f d)
unfolding update_transactions
update_transactions-Steps d test f same =
    with_transactions-Steps d (update_rows test f d.transactions)
      (λ k m. subst (λ ks. Memᴰ k ks) (map-update_rows key test f d.transactions same) m)

pub update_transaction-Steps :
    (d : Db) (test : Transaction → Bool) (f : Transaction → Transaction)
    → ((t : Transaction) → key (f t) ≡ key t)
    → Steps d (update_transaction test f d)
unfolding update_transaction
update_transaction-Steps d test f same =
    Steps->>= d (update_transactions test f d) _ (update_transactions-Steps d test f same)
      (λ c at_c. Steps-guard c _ _ _ (λ one. Steps-ok c c (Evolves-refl c)))

pub insert_transaction-Steps :
    (d : Db) (t : Transaction)
    → Memᴰ (key t) (map key d.transactions)
    → Steps d (insert_transaction t d)
unfolding insert_transaction
insert_transaction-Steps d t held =
    Steps-guard d _ _ _ (λ fresh. with_transactions-Steps d (t ∷ d.transactions) keys)
  where
    keys : (k : Key) → Memᴰ k (map key (t ∷ d.transactions)) → Memᴰ k (map key d.transactions)
    keys k (Memᴰ.head e) = Memᴰ.cast e held
    keys k (Memᴰ.tail m) = m

pub is_in-can_transition :
    (s : State) (from : List State) (to : State)
    → is_in s from ≡ true
    → validate_all from to ≡ ok tt
    → can_transition s to ≡ true
unfolding is_in validate_all
is_in-can_transition s [] to i v = absurd (cc)
is_in-can_transition s (t ∷ ts) to i v = elim (Bool-cases (state_eq s t)) [
  | inl e ↦ subst (λ x. can_transition x to ≡ true) (sym (state_eq-eq s t e)) (ground arith)
  | inr e ↦ is_in-can_transition s ts to (rw e at i) (ground arith)
]

-- A change of payments along paths of edges alone.
pub payments-Evolves :
    (d : Db) (test : Payment → Bool) (f : Payment → Payment)
    → ((p : Payment) → test p ≡ true → (p.id ≡ (f p).id) × (p.state ⟶* (f p).state))
    → Evolves d (record d { payments = update_rows test f d.payments })
payments-Evolves d test f move = record {
  moved = Moved-update_rows test f d.payments move;
  audited = λ a. a;
  inherited = λ k m. m;
  accounts = refl;
}

-- The payments that a test selects move along an edge to `to`, and the move is audited.
pub moves-Steps :
    (d : Db) (test : Payment → Bool) (f : Payment → Payment) (payment_id : ℕ) (from to : State)
    (actor : Text)
    → ((p : Payment) → test p ≡ true → (p.id ≡ (f p).id) × (p.state ⟶* (f p).state))
    → can_transition from to ≡ true
    → Steps d (
        record_transition payment_id from to actor
          (record d { payments = update_rows test f d.payments }))
unfolding record_transition
moves-Steps d test f payment_id from to actor move legal =
    Steps-guard d (actor_type_ok actor) actor_type_violation (ok after)
      (λ allowed. Steps-ok d after evolves)
  where
    entry : Transition
    entry = record { payment_id = payment_id; from_state = from; to_state = to; actor_type = actor }

    after : Db
    after = record d {
      payments = update_rows test f d.payments;
      payment_transitions = entry ∷ d.payment_transitions;
    }

    evolves : Evolves d after
    evolves = record {
      moved = Moved-update_rows test f d.payments move;
      audited = λ a. (legal, a);
      inherited = λ k m. m;
      accounts = refl;
    }

payment_in-state :
    (payment_id : ℕ) (from : List State) (p : Payment)
    → payment_in payment_id from p ≡ true
    → is_in p.state from ≡ true
unfolding payment_in
payment_in-state payment_id from p h = (&&-true _ _ h).1

pub transition_payment-Steps :
    (d : Db) (payment_id : ℕ) (from to : State) (actor : Text)
    → Steps d (transition_payment payment_id from to actor d)
unfolding transition_payment validate_all
transition_payment-Steps d payment_id from to actor =
    Steps-guard d (can_transition from to) (invalid_transition from to) _ (λ legal.
      Steps-guard d (count_rows test d.payments == 1) settlement_race (written legal) (λ one.
        moves-Steps d test set payment_id from to actor
          (λ p h. (
            refl,
            edge (
                is_in-can_transition p.state (from ∷ []) to
                  (payment_in-state payment_id (from ∷ []) p h) (validated legal)),
          ))
          legal))
  where
    test : Payment → Bool
    test = payment_in payment_id (from ∷ [])

    set : Payment → Payment
    set p = record p { state = to; updated_at = d.clock }

    written : can_transition from to ≡ true → Result Db
    written legal =
        record_transition payment_id from to actor
          (record d { payments = update_rows test set d.payments })

    validated : can_transition from to ≡ true → validate_all (from ∷ []) to ≡ ok tt
    validated legal = rw legal

pub transition_payment_in-Steps :
    (d : Db) (payment_id : ℕ) (from : List State) (to : State) (actor : Text)
    (set : Payment → Payment)
    → ((p : Payment) → p.id ≡ (set p).id)
    → Steps d (transition_payment_in payment_id from to actor set d)
unfolding transition_payment_in
transition_payment_in-Steps d payment_id from to actor set same e h =
    let (u, valid, rest) = >>=-ok (validate_all from to) _ h in
    moved valid (find_row (payment_in payment_id from) d.payments) refl rest
  where
    moved :
        validate_all from to ≡ ok tt
        → (o : Option Payment) → find_row (payment_in payment_id from) d.payments ≡ o
        → elim o as (λ x. Result Db) [
          | none ↦ err settlement_race
          | some previous ↦ record_transition payment_id previous.state to actor (record d {
            payments =
                update_rows
                  (payment_in payment_id from)
                  (λ p. let q = set p in record q { state = to; updated_at = d.clock })
                  d.payments;
          })
        ]
          ≡ ok e
        → Evolves d e
    moved valid none at_o r = absurd (cc)
    moved valid (some previous) at_o r =
        moves-Steps d _ _ payment_id previous.state to actor
          (λ p t. (
            same p,
            edge
                (is_in-can_transition p.state from to (payment_in-state payment_id from p t) valid),
          ))
          (is_in-can_transition previous.state from to
            (payment_in-state payment_id from previous (find_row-test _ d.payments previous at_o))
            valid)
          e r
