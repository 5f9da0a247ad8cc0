-- ===== src/Store/Lease.antt =====
-- internal/store/lease.go and ClaimPayment of settlementwork.go: time-bounded claims on payments.
pub mod Exclusion
use facilitator.Base.{
  ℕ, zero, suc, ◌+◌, Option, none, some, List, [], ◌∷◌, map, Text, text_eq, is_empty, Bool, true,
  false, ◌&&◌, ◌||◌, not, leb, ltb, ◌==◌, if◌then◌else◌, find_row, update_rows, count_rows,
}
use facilitator.Settlement.State.{State, is_in}
use facilitator.Settlement.Errors.{
  Error, Result, ok, err, ◌>>=◌, ◌>>◌, guard, lease_lost, lease_unavailable, invalid_request,
}
use facilitator.Settlement.Work.{Lease, ClaimRequest}
use facilitator.Store.Schema.{Payment, Db}

-- (claimed_by IS NULL OR claimed_until <= now); a comparison with NULL holds for no row.
unfoldable pub is_free : ℕ → Payment → Bool
is_free now p = elim p.claimed_by [
  | none ↦ true
  | some w ↦ elim p.claimed_until [ none ↦ false | some until ↦ leb until now ]
]

abbrev pub claimed : Text → ℕ → ℕ → Payment → Payment
claimed worker until clock p = record p {
  claimed_by = some worker;
  claimed_until = some until;
  updated_at = clock;
}

abbrev pub lease_of : Text → ℕ → Payment → Lease
lease_of worker until p = record {
  payment_id = p.id;
  payment_identity = p.payment_identity;
  state = p.state;
  worker = worker;
  until = until;
}

unfoldable pub free_at : ℕ → ℕ → Payment → Bool
unfolding is_free
free_at payment_id now p = p.id == payment_id && is_free now p

unfoldable pub claim_payment : ℕ → Text → ℕ → Option ℕ → Db → Result (Lease × Db)
unfolding free_at find_row update_rows
claim_payment payment_id worker duration none db = err invalid_request
claim_payment payment_id worker duration (some now) db = do
  guard (not (is_empty worker) && not (duration == 0)) invalid_request
  elim (find_row (free_at payment_id now) db.payments) [
    | none ↦ err lease_unavailable
    | some p ↦ ok (
      lease_of worker (now + duration) p,
      record db {
        payments =
            update_rows (free_at payment_id now) (claimed worker (now + duration) db.clock)
              db.payments;
      },
    )
  ]

-- ORDER BY updated_at.
insert_by_age : Payment → List Payment → List Payment
insert_by_age p [] = p ∷ []
insert_by_age p (q ∷ qs) =
    if ltb q.updated_at p.updated_at then q ∷ insert_by_age p qs else p ∷ q ∷ qs

oldest_first : List Payment → List Payment
unfolding insert_by_age
oldest_first [] = []
oldest_first (p ∷ ps) = insert_by_age p (oldest_first ps)

unfoldable pub take : ℕ → List Payment → List Payment
take zero ps = []
take (suc n) [] = []
take (suc n) (p ∷ ps) = p ∷ take n ps

pub select : (Payment → Bool) → List Payment → List Payment
select test [] = []
select test (p ∷ ps) = if test p then p ∷ select test ps else select test ps

unfoldable pub claimable : ClaimRequest → ℕ → Payment → Bool
unfolding is_in is_free
claimable request now p = is_in p.state request.states && is_free now p

-- The payments of the subquery.
unfoldable pub candidates : ClaimRequest → ℕ → List Payment → List Payment
unfolding take oldest_first select claimable
candidates request now ps = take request.limit (oldest_first (select (claimable request now) ps))

unfoldable pub has_id : ℕ → List Payment → Bool
has_id i [] = false
has_id i (p ∷ ps) = p.id == i || has_id i ps

-- WHERE id IN (subquery) AND the lease is still free.
unfoldable pub claims : ClaimRequest → ℕ → List Payment → Payment → Bool
unfolding candidates has_id is_free
claims request now ps p = has_id p.id (candidates request now ps) && is_free now p

-- ClaimRequest.Validate.
unfoldable pub is_valid_claim : ClaimRequest → Bool
is_valid_claim r =
    not (is_empty r.worker)
    && (elim r.states [ [] ↦ false | s ∷ ss ↦ true ]
        && (not (r.duration == 0) && not (r.limit == 0)))

unfoldable pub claim_payments : ClaimRequest → Db → Result (List Lease × Db)
unfolding claims is_valid_claim update_rows select
claim_payments request db = elim request.now [
  | none ↦ err invalid_request
  | some now ↦
      if is_valid_claim request
      then ok (
        map (lease_of request.worker (now + request.duration))
            (select (claims request now db.payments) db.payments),
        record db {
          payments =
              update_rows (claims request now db.payments)
                (claimed request.worker (now + request.duration) db.clock) db.payments;
        },
      )
      else err invalid_request
]

unfoldable pub claimed_by : Text → Payment → Bool
unfolding text_eq
claimed_by worker p = elim p.claimed_by [ none ↦ false | some w ↦ text_eq w worker ]

-- WHERE id = $1 AND claimed_by = $2.
unfoldable pub held_at : ℕ → Text → Payment → Bool
unfolding claimed_by
held_at payment_id worker p = p.id == payment_id && claimed_by worker p

-- AND claimed_until > now.
unfoldable pub live_at : ℕ → Text → ℕ → Payment → Bool
unfolding held_at
live_at payment_id worker now p =
    held_at payment_id worker p
    && elim p.claimed_until [ none ↦ false | some until ↦ ltb now until ]

unfoldable pub renew_lease : ℕ → Text → Option ℕ → ℕ → Db → Result (ℕ × Db)
unfolding live_at update_rows count_rows
renew_lease payment_id worker none duration db = err lease_lost
renew_lease payment_id worker (some now) duration db = do
  guard (not (is_empty worker) && not (duration == 0)) lease_lost
  guard (count_rows (live_at payment_id worker now) db.payments == 1) lease_lost
  ok (
    now + duration,
    record db {
      payments =
          update_rows (live_at payment_id worker now)
            (λ p. record p { claimed_until = some (now + duration) }) db.payments;
    },
  )

unfoldable pub release_lease : ℕ → Text → Db → Result Db
unfolding held_at update_rows count_rows
release_lease payment_id worker db = do
  guard (not (is_empty worker)) lease_lost
  guard (count_rows (held_at payment_id worker) db.payments == 1) lease_lost
  ok (record db {
    payments =
        update_rows (held_at payment_id worker)
          (λ p. record p { claimed_by = none; claimed_until = none; updated_at = db.clock })
          db.payments;
  })
