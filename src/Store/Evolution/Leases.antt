-- ===== src/Store/Evolution/Leases.antt =====
-- internal/store/lease.go: taking, renewing and dropping a lease moves no payment.
use facilitator.Base.{
  ℕ, ◌+◌, ◌≡◌, refl, Option, none, some, Text, Bool, true, false, ◌&&◌, ◌==◌, not, is_empty,
  update_rows, count_rows, find_row, if◌then◌else◌, subst, map,
}
use facilitator.Settlement.State.Laws.{◌⟶*◌, here}
use facilitator.Settlement.Errors.{
  Error, Result, ok, err, ◌>>◌, guard, lease_lost, lease_unavailable, invalid_request,
}
use facilitator.Settlement.Work.{ClaimRequest}
use facilitator.Store.Schema.{Payment, Db}
use facilitator.Store.Lease.{
  claim_payment, claim_payments, renew_lease, release_lease, free_at, claims, is_valid_claim,
  live_at, held_at, claimed, lease_of, select,
}
use facilitator.Store.Evolution.{Steps, Steps-ok, Steps-guard, Evolves, Evolves-refl}
use facilitator.Store.Evolution.Statements.{payments-Evolves}

-- The database after a call that may fail.
abbrev pub db_after {ℓ} : {A : Type ℓ} → Db → Result (A × Db) → Db
db_after d (ok (a, e)) = e
db_after d (err x) = d

-- What a write to the lease columns alone does.
lease-Evolves :
    (d : Db) (test : Payment → Bool) (f : Payment → Payment)
    → ((p : Payment) → p.id ≡ (f p).id)
    → ((p : Payment) → p.state ≡ (f p).state)
    → Evolves d (record d { payments = update_rows test f d.payments })
lease-Evolves d test f ids states =
    payments-Evolves d test f (λ p h. (ids p, subst (λ s. p.state ⟶* s) (states p) here))

after_guard {ℓ} :
    {A : Type ℓ} (d : Db) (b : Bool) (x : Error) (r : Result (A × Db))
    → Evolves d (db_after d r)
    → Evolves d (db_after d (guard b x >> r))
after_guard d true x r h = h
after_guard d false x r h = Evolves-refl d

after_find {ℓ κ} :
    {A : Type ℓ} {B : Type κ} (d : Db) (o : Option B) (x : Error) (found : B → Result (A × Db))
    → ((b : B) → Evolves d (db_after d (found b)))
    → Evolves d (db_after d (elim o [ none ↦ err x | some b ↦ found b ]))
after_find d none x found h = Evolves-refl d
after_find d (some b) x found h = h b

pub claim_payment-Evolves :
    (d : Db) (payment_id : ℕ) (worker : Text) (duration : ℕ) (now : Option ℕ)
    → Evolves d (db_after d (claim_payment payment_id worker duration now d))
unfolding claim_payment
claim_payment-Evolves d payment_id worker duration none = Evolves-refl d
claim_payment-Evolves d payment_id worker duration (some now) =
    after_guard d (not (is_empty worker) && not (duration == 0)) invalid_request _ (
      after_find d (find_row (free_at payment_id now) d.payments) lease_unavailable _ (λ p.
        lease-Evolves d (free_at payment_id now) (claimed worker (now + duration) d.clock)
          (λ q. refl) (λ q. refl)))

pub claim_payments-Evolves :
    (d : Db) (request : ClaimRequest) → Evolves d (db_after d (claim_payments request d))
unfolding claim_payments
claim_payments-Evolves d request =
    after_find d request.now invalid_request _ (λ now. valid now (is_valid_claim request))
  where
    valid :
        (now : ℕ) (b : Bool)
        → Evolves d (
            db_after d (
              if b
              then ok (
                map
                    (lease_of request.worker (now + request.duration))
                    (select (claims request now d.payments) d.payments),
                record d {
                  payments =
                      update_rows
                        (claims request now d.payments)
                        (claimed request.worker (now + request.duration) d.clock)
                        d.payments;
                },
              )
              else err invalid_request))
    valid now true =
        lease-Evolves d (claims request now d.payments)
          (claimed request.worker (now + request.duration) d.clock) (λ q. refl) (λ q. refl)
    valid now false = Evolves-refl d

pub renew_lease-Evolves :
    (d : Db) (payment_id : ℕ) (worker : Text) (now : Option ℕ) (duration : ℕ)
    → Evolves d (db_after d (renew_lease payment_id worker now duration d))
unfolding renew_lease
renew_lease-Evolves d payment_id worker none duration = Evolves-refl d
renew_lease-Evolves d payment_id worker (some now) duration =
    after_guard d (not (is_empty worker) && not (duration == 0)) lease_lost _ (
      after_guard d (count_rows (live_at payment_id worker now) d.payments == 1) lease_lost _ (
        lease-Evolves d (live_at payment_id worker now)
          (λ p. record p { claimed_until = some (now + duration) }) (λ q. refl) (λ q. refl)))

pub release_lease-Steps :
    (d : Db) (payment_id : ℕ) (worker : Text) → Steps d (release_lease payment_id worker d)
unfolding release_lease
release_lease-Steps d payment_id worker =
    Steps-guard d (not (is_empty worker)) lease_lost _ (λ named.
      Steps-guard d (count_rows (held_at payment_id worker) d.payments == 1) lease_lost
        (ok released)
        (λ held.
          Steps-ok d released
            (lease-Evolves d (held_at payment_id worker) drop (λ q. refl) (λ q. refl))))
  where
    drop : Payment → Payment
    drop p = record p { claimed_by = none; claimed_until = none; updated_at = d.clock }

    released : Db
    released = record d { payments = update_rows (held_at payment_id worker) drop d.payments }
