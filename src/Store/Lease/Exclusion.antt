-- ===== src/Store/Lease/Exclusion.antt =====
-- internal/store/lease.go: one worker at a time.
use facilitator.Base.{
  ℕ, ◌+◌, ◌<◌, ◌≡◌, ◌≢◌, refl, sym, ap, ◌∙◌, Option, none, some, List, [], ◌∷◌, Text, text_eq,
  text_eq-eq, text_eq_refl, subst, is_empty, Bool, true, false, ◌&&◌, not, ◌==◌, ltb, find_row,
  update_rows, count_rows, if◌then◌else◌, Bool-cases, inl, inr, arith, ==-eq, find_row-test, ◌↔◌,
}
use facilitator.Settlement.Errors.{
  Result, ok, err, ok_injective, lease_lost, lease_unavailable, invalid_request,
}
use facilitator.Settlement.Work.{Lease}
use facilitator.Store.Schema.{Payment, Db}
use facilitator.Store.Statements.Success.{>>-ok}
use facilitator.Store.Lease.{
  is_free, free_at, claimed, lease_of, claim_payment, claimed_by, held_at, live_at, renew_lease,
}

module _ {ℓ} {A : Type ℓ} where
  absent :
      (test id : A → Bool) (f : A → A) (xs : List A)
      → ((x : A) → test x ≡ true → id x ≡ true)
      → count_rows id xs ≡ 0
      → find_row test xs ≡ none
  unfolding count_rows find_row
  absent test id f [] sub h = refl
  absent test id f (x ∷ xs) sub h = ground (arith, sub x, absent test id f xs sub)

  absent_after :
      (test goal id : A → Bool) (f : A → A) (xs : List A)
      → ((x : A) → goal x ≡ true → id x ≡ true)
      → ((x : A) → id (f x) ≡ id x)
      → count_rows id xs ≡ 0
      → count_rows goal (update_rows test f xs) ≡ 0
  unfolding count_rows update_rows
  absent_after test goal id f [] sub keep h = refl
  absent_after test goal id f (x ∷ xs) sub keep h =
      ground (arith, sub x, sub (f x), keep x, absent_after test goal id f xs sub keep)

  -- Where one row has the id and an assignment selects it, that row as assigned is the only one
  -- that a WHERE on the id can select.
  only_row :
      (test goal id : A → Bool) (f : A → A) (xs : List A) (p : A)
      → ((x : A) → test x ≡ true → id x ≡ true)
      → ((x : A) → goal x ≡ true → id x ≡ true)
      → ((x : A) → id (f x) ≡ id x)
      → count_rows id xs ≡ 1
      → find_row test xs ≡ some p
      → count_rows goal (update_rows test f xs) ≡ (if goal (f p) then 1 else 0)
  unfolding count_rows find_row update_rows
  only_row test goal id f [] p sub sub' keep one at = ground arith
  only_row test goal id f (x ∷ xs) p sub sub' keep one at = elim (Bool-cases (id x)) [
    | inl mine ↦
        let gone : count_rows id xs ≡ 0 = ground arith in
        let no_other = absent test id f xs sub gone in
        elim (Bool-cases (test x)) [
          | inl hit ↦
              let same : x ≡ p = ground arith in
              rw (hit, same) (ground (arith, absent_after test goal id f xs sub' keep gone))
          | inr miss ↦ absurd (ground arith)
        ]
    | inr other ↦
        let miss : test x ≡ false = ground (arith, sub x) in
        let skip : goal x ≡ false = ground (arith, sub' x) in
        let rest = only_row test goal id f xs p sub sub' keep (ground arith) (ground arith) in
        rw (miss, skip) (ground arith)
  ]

  none_found : (test : A → Bool) (xs : List A) → count_rows test xs ≡ 0 → find_row test xs ≡ none
  unfolding count_rows find_row
  none_found test [] h = refl
  none_found test (x ∷ xs) h = ground (arith, none_found test xs)

abbrev id_is : ℕ → Payment → Bool
id_is i p = p.id == i

-- What a claim has written.
claim_payment-ok :
    (i : ℕ) (worker : Text) (duration now : ℕ) (d e : Db) (l : Lease)
    → claim_payment i worker duration (some now) d ≡ ok (l, e)
    → (p : Payment) × (find_row (free_at i now) d.payments ≡ some p)
      × (e.payments
          ≡ update_rows (free_at i now) (claimed worker (now + duration) d.clock) d.payments)
unfolding claim_payment
claim_payment-ok i worker duration now d e l h =
    by_row (find_row (free_at i now) d.payments) refl (>>-ok _ _ _ h).1
  where
    by_row :
        (o : Option Payment)
        → find_row (free_at i now) d.payments ≡ o
        → (elim o as (λ x. Result (Lease × Db)) [
          | none ↦ err lease_unavailable
          | some p ↦ ok (
            lease_of worker (now + duration) p,
            record d {
              payments =
                  update_rows (free_at i now) (claimed worker (now + duration) d.clock) d.payments;
            },
          )
        ])
          ≡ ok (l, e)
        → (p : Payment) × (find_row (free_at i now) d.payments ≡ some p)
          × (e.payments
              ≡ update_rows (free_at i now) (claimed worker (now + duration) d.clock) d.payments)
    by_row none at k = absurd (ground arith)
    by_row (some p) at k = (p, at, sym (ap (λ t. (t.1).payments) (ok_injective k)))

free-id : (i now : ℕ) (p : Payment) → free_at i now p ≡ true → id_is i p ≡ true
unfolding free_at
free-id i now p h = ground arith

held-id : (i : ℕ) (w : Text) (p : Payment) → held_at i w p ≡ true → id_is i p ≡ true
unfolding held_at
held-id i w p h = ground arith

live-id : (i : ℕ) (w : Text) (now : ℕ) (p : Payment) → live_at i w now p ≡ true → id_is i p ≡ true
unfolding live_at held_at
live-id i w now p h = ground arith

claimed-not_free :
    (i : ℕ) (worker : Text) (until later clock : ℕ) (p : Payment)
    → later < until
    → ◌≡◌ {A = ℕ} (if free_at i later (claimed worker until clock p) then 1 else 0) 0
unfolding free_at is_free
claimed-not_free i worker until later clock p lt = ground arith

-- Where payment ids are unique, no claim of a payment succeeds, by any worker, until a lease on it
-- has run out.
pub claim_payment-excludes :
    (i : ℕ) (worker other : Text) (duration duration' now later : ℕ) (d e : Db) (l : Lease)
    (x : Lease × Db)
    → count_rows (λ (p : Payment). p.id == i) d.payments ≡ 1
    → claim_payment i worker duration (some now) d ≡ ok (l, e)
    → later < now + duration
    → claim_payment i other duration' (some later) e ≢ ok x
unfolding claim_payment
claim_payment-excludes i worker other duration duration' now later d e l x one h lt again =
    let (p, at, rows) = claim_payment-ok i worker duration now d e l h in
    let left =
      only_row (free_at i now) (free_at i later) (id_is i) (claimed worker (now + duration) d.clock)
        d.payments p (free-id i now) (free-id i later) (λ q. refl) one at in
    let zero : count_rows (free_at i later) e.payments ≡ 0 =
      rw rows (left ∙ claimed-not_free i worker (now + duration) later d.clock p lt) in
    let nothing = none_found (free_at i later) e.payments zero in
    let refused =
      (>>-ok (not (is_empty other) && not (duration' == 0)) invalid_request _ again).1 in
    absurd (ground arith)

claimed-live :
    (i : ℕ) (worker other : Text) (until later clock : ℕ) (p : Payment)
    → p.id ≡ i
    → live_at i other later (claimed worker until clock p)
      ≡ (text_eq worker other && ltb later until)
unfolding live_at held_at claimed_by
claimed-live i worker other until later clock p e = ground arith

renew_lease-live :
    (i : ℕ) (w : Text) (now duration : ℕ) (d : Db) (x : ℕ × Db)
    → renew_lease i w (some now) duration d ≡ ok x
    → count_rows (live_at i w now) d.payments ≡ 1
unfolding renew_lease
renew_lease-live i w now duration d x h =
    ==-eq _ 1
      (>>-ok (count_rows (live_at i w now) d.payments == 1) lease_lost _ (>>-ok _ _ _ h).1).0

renew_lease-renews :
    (i : ℕ) (w : Text) (now duration : ℕ) (d : Db)
    → is_empty w ≡ false
    → 0 < duration
    → count_rows (live_at i w now) d.payments ≡ 1
    → (x : ℕ × Db) × (renew_lease i w (some now) duration d ≡ ok x)
unfolding renew_lease
renew_lease-renews i w now duration d named long one =
    let tested : (duration == 0) ≡ false = ground arith in
    (
      (
        now + duration,
        record d {
          payments =
              update_rows (live_at i w now)
                (λ p. record p { claimed_until = some (now + duration) }) d.payments;
        },
      ),
      rw (named, tested, one) refl,
    )

-- Where payment ids are unique, after a claim a worker renews its lease exactly if it is the worker
-- that claimed and the lease has not run out.
pub renew_lease-holder :
    (i : ℕ) (worker other : Text) (duration duration' now later : ℕ) (d e : Db) (l : Lease)
    → count_rows (λ (p : Payment). p.id == i) d.payments ≡ 1
    → claim_payment i worker duration (some now) d ≡ ok (l, e)
    → is_empty other ≡ false
    → 0 < duration'
    → ((x : ℕ × Db) × (renew_lease i other (some later) duration' e ≡ ok x))
      ↔ ((worker ≡ other) × (later < now + duration))
renew_lease-holder i worker other duration duration' now later d e l one h named long =
    let (p, at, rows) = claim_payment-ok i worker duration now d e l h in
    let left =
      only_row (free_at i now) (live_at i other later) (id_is i)
        (claimed worker (now + duration) d.clock) d.payments p (free-id i now)
        (live-id i other later) (λ q. refl) one at in
    let mine = ==-eq p.id i (free-id i now p (find_row-test (free_at i now) d.payments p at)) in
    let count =
      ap (count_rows (live_at i other later)) rows
      ∙ left
      ∙ ap (λ (b : Bool). if b then 1 else 0)
          (claimed-live i worker other (now + duration) later d.clock p mine) in
    (
      λ t.
          let live = renew_lease-live i other later duration' e t.0 t.1 in
          let (same, lt) : (text_eq worker other ≡ true) × (later < now + duration) =
            ground arith in
          (text_eq-eq worker other same, lt),
      λ t.
          let same : text_eq worker other ≡ true =
            subst (λ w. text_eq worker w ≡ true) t.0 (text_eq_refl worker) in
          renew_lease-renews i other later duration' e named long (ground (arith, t.1)),
    )
