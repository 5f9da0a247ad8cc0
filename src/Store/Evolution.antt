-- ===== src/Store/Evolution.antt =====
-- How a database may change under the operations of internal/store that reuse a nonce: payments
-- follow the edges of the state machine, what is audited is an edge, and no transaction gets a nonce
-- that its payment did not hold.
pub mod Statements
pub mod Marks
pub mod Recovery
pub mod Entries
pub mod Leases
use facilitator.Base.{
  ℕ, ◌≡◌, refl, sym, ap, ◌∙◌, subst, Option, none, some, List, [], ◌∷◌, ◌++◌, map, Memᴰ, Text, Bool,
  true, false, ◌&&◌, ◌==◌, All, All-mem, update_rows, count_rows, find_row, find_row-test,
  find_row-mem, map-update_rows, Bool-cases, arith, ==-eq, ◌⊎◌, inl, inr, if◌then◌else◌, &&-true,
  Option-cases,
}
use mathlib.Core.List.Memᴰ
use facilitator.Settlement.State.{State, is_in, state_eq, can_transition}
use facilitator.Settlement.State.Laws.{◌⟶*◌, here, next, edge, ⟶*-trans, state_eq-eq}
use facilitator.Settlement.Errors.{
  Error, Result, ok, err, ◌>>=◌, ◌>>◌, guard, guard-ok, >>=-ok, Result-cases, settlement_race,
  actor_type_violation, invalid_transition,
}
use facilitator.Store.Schema.{
  Payment, Transaction, Transition, Status, Db, SignerAccount, actor_type_ok,
}
use facilitator.Store.Statements.{
  with_transactions, update_transactions, update_transaction, insert_transaction, record_transition,
  payment_in, transition_payment, transition_payment_in, validate_all,
}

-- Row by row: the same payment, in the same state or further along a path of edges. Rows may be
-- added behind the old ones, and none is lost.
abbrev pub Moved : List Payment → List Payment → Type 0
Moved [] qs = Unit
Moved (p ∷ ps) [] = ⊥
Moved (p ∷ ps) (q ∷ qs) = (p.id ≡ q.id) × (p.state ⟶* q.state) × Moved ps qs

pub Moved-refl : (ps : List Payment) → Moved ps ps
Moved-refl [] = tt
Moved-refl (p ∷ ps) = (refl, here, Moved-refl ps)

pub Moved-trans : (ps qs rs : List Payment) → Moved ps qs → Moved qs rs → Moved ps rs
Moved-trans [] qs rs a b = tt
Moved-trans (p ∷ ps) [] rs a b = absurd a
Moved-trans (p ∷ ps) (q ∷ qs) [] a b = absurd b
Moved-trans (p ∷ ps) (q ∷ qs) (r ∷ rs) a b =
    (a.0 ∙ b.0, ⟶*-trans a.1 b.1, Moved-trans ps qs rs a.2 b.2)

pub Moved-append : (ps rs : List Payment) → Moved ps (ps ++ rs)
Moved-append [] rs = tt
Moved-append (p ∷ ps) rs = (refl, here, Moved-append ps rs)

pub Moved-update_rows :
    (test : Payment → Bool) (f : Payment → Payment) (ps : List Payment)
    → ((p : Payment) → test p ≡ true → (p.id ≡ (f p).id) × (p.state ⟶* (f p).state))
    → Moved ps (update_rows test f ps)
unfolding update_rows
Moved-update_rows test f [] move = tt
Moved-update_rows test f (p ∷ ps) move =
    let (same, path) = row (test p) refl in (same, path, Moved-update_rows test f ps move)
  where
    row :
        (b : Bool)
        → test p ≡ b
        → (p.id ≡ (if b then f p else p).id) × (p.state ⟶* (if b then f p else p).state)
    row true e = move p e
    row false e = (refl, here)

-- What a nonce belongs to.
abbrev pub Key : Type 0
Key = ℕ × Text × ℕ

abbrev pub key : Transaction → Key
key t = (t.payment_id, t.signer_address, t.transaction_nonce)

abbrev pub Legal : Transition → Type 0
Legal t = can_transition t.from_state t.to_state ≡ true

pub record Evolves (d e : Db) : Type 0 where
  pub moved : Moved d.payments e.payments
  pub audited : All Legal d.payment_transitions → All Legal e.payment_transitions
  pub inherited : (k : Key) → Memᴰ k (map key e.transactions) → Memᴰ k (map key d.transactions)
  pub accounts : e.signer_accounts ≡ d.signer_accounts

pub Evolves-refl : (d : Db) → Evolves d d
Evolves-refl d = record {
  moved = Moved-refl d.payments;
  audited = λ h. h;
  inherited = λ k m. m;
  accounts = refl;
}

pub Evolves-trans : {d e f : Db} → Evolves d e → Evolves e f → Evolves d f
Evolves-trans {d} {e} {f} a b = record {
  moved = Moved-trans d.payments e.payments f.payments a.moved b.moved;
  audited = λ h. b.audited (a.audited h);
  inherited = λ k m. a.inherited k (b.inherited k m);
  accounts = b.accounts ∙ a.accounts;
}

-- Every successful end of an operation that starts at `d`.
abbrev pub Steps : Db → Result Db → Type 0
Steps d r = (e : Db) → r ≡ ok e → Evolves d e

pub Steps-ok : (d e : Db) → Evolves d e → Steps d (ok e)
Steps-ok d e v f h = subst (Evolves d) (ok_eq h) v
  where
    ok_eq : ok e ≡ ok f → e ≡ f
    ok_eq p = cc

pub Steps-err : (d : Db) (x : Error) → Steps d (err x)
Steps-err d x e h = absurd (cc)

pub Steps->>= :
    (d : Db) (m : Result Db) (f : Db → Result Db)
    → Steps d m
    → ((c : Db) → m ≡ ok c → Steps c (f c))
    → Steps d (m >>= f)
Steps->>= d m f first then_ e h =
    let (c, at_c, rest) = >>=-ok m f h in Evolves-trans (first c at_c) (then_ c at_c e rest)

pub Steps-guard :
    (d : Db) (b : Bool) (x : Error) (r : Result Db)
    → (b ≡ true → Steps d r)
    → Steps d (guard b x >> r)
Steps-guard d true x r h = h refl
Steps-guard d false x r h = Steps-err d x
