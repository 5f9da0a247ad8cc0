-- ===== src/Store/Evolution/Entries.antt =====
-- internal/store: how the operations on payments themselves (verification, leases, intents) evolve
-- the database.
use facilitator.Base.{
  ℕ, ◌≡◌, refl, Option, none, some, [], ◌∷◌, ◌++◌, Text, codes, Bool, true, false, ◌==◌,
  update_rows, count_rows, find_row, arith, if◌then◌else◌,
}
use facilitator.Settlement.State.{State, can_transition}
use facilitator.Settlement.State.Laws.{edge}
use facilitator.Settlement.Errors.{
  Result, ok, err, primary_key_violation, authorization_conflict, invalid_request,
}
use facilitator.Store.Schema.{Payment, Db, VerificationResult}
use facilitator.Store.Statements.{payment_in, record_transition}
use facilitator.Store.Verification
use facilitator.Store.Verification.{VerifiedPayment}
use facilitator.Store.Evolution.{
  Moved-refl, Moved-append, Steps, Steps-guard, Evolves, Evolves-refl, Evolves-trans,
}
use facilitator.Store.Evolution.Statements.{moves-Steps}

received_edge :
    (new_id : ℕ) (p : Payment)
    → payment_in new_id (State.received ∷ []) p ≡ true
    → can_transition p.state State.verified ≡ true
unfolding payment_in can_transition
received_edge new_id p h = ground arith

received_verified : can_transition State.received State.verified ≡ true
unfolding can_transition
received_verified = refl

insert_payment-Steps :
    (d : Db) (new_id : ℕ) (v : VerifiedPayment) → Steps d (Verification.insert_payment new_id v d)
unfolding Verification.insert_payment
insert_payment-Steps d new_id v = Steps-guard d is_fresh primary_key_violation written (λ fresh e h.
    Evolves-trans appended (
      moves-Steps longer test set new_id State.received State.verified (codes "http")
        (λ p t. (refl, edge (received_edge new_id p t))) received_verified e h))
  where
    is_fresh : Bool
    is_fresh = count_rows (λ (p : Payment). p.id == new_id) d.payments == 0

    longer : Db
    longer = record d { payments = d.payments ++ Verification.received_row new_id v d ∷ [] }

    test : Payment → Bool
    test = payment_in new_id (State.received ∷ [])

    set : Payment → Payment
    set p = record p { state = State.verified; updated_at = d.clock }

    written : Result Db
    written =
        record_transition new_id State.received State.verified (codes "http")
          (record longer { payments = update_rows test set longer.payments })

    appended : Evolves d longer
    appended = record {
      moved = Moved-append d.payments _;
      audited = λ a. a;
      inherited = λ k m. m;
      accounts = refl;
    }

pub log_attempt-Evolves :
    (d : Db) (o : Option ℕ) (identity : Text) (r : VerificationResult) (reason : Text)
    → Evolves d (Verification.log_attempt o identity r reason d)
log_attempt-Evolves d o identity r reason = record {
  moved = Moved-refl d.payments;
  audited = λ a. a;
  inherited = λ k m. m;
  accounts = refl;
}

record_verified-Evolves :
    (d : Db) (new_id : ℕ) (a : Verification.Attempt) (v : VerifiedPayment)
    → Evolves d (Verification.record_verified new_id a v d).0
unfolding Verification.record_verified
record_verified-Evolves d new_id a v =
    known (find_row (Verification.with_identity v.identity) d.payments)
  where
    inserted :
        (r : Result Db)
        → Verification.insert_payment new_id v d ≡ r
        → Evolves d (Verification.finish_insert r a new_id d).0
    inserted (err e) h = Evolves-refl d
    inserted (ok c) h =
        Evolves-trans (insert_payment-Steps d new_id v c h)
          (log_attempt-Evolves c (some new_id) a.payment_identity a.result a.reason_code)

    fresh :
        (b : Bool)
        → Evolves d
            (if b
              then Verification.finish_insert (Verification.insert_payment new_id v d) a new_id d
              else (
                Verification.log_attempt none a.payment_identity VerificationResult.failed
                    Verification.reason_nonce_already_used d,
                err authorization_conflict,
              )).0
    fresh true = inserted (Verification.insert_payment new_id v d) refl
    fresh false =
        log_attempt-Evolves d none a.payment_identity VerificationResult.failed
          Verification.reason_nonce_already_used

    known :
        (o : Option Payment)
        → Evolves d
            (elim o as (λ x. Db × Result (Unit {0})) [
              | some p ↦ (
                Verification.log_attempt (some p.id) a.payment_identity a.result a.reason_code d,
                ok tt,
              )
              | none ↦
                  if count_rows (Verification.same_authorization v) d.payments == 0
                  then Verification.finish_insert
                      (Verification.insert_payment new_id v d)
                      a
                      new_id
                      d
                  else (
                    Verification.log_attempt none a.payment_identity VerificationResult.failed
                        Verification.reason_nonce_already_used d,
                    err authorization_conflict,
                  )
            ]).0
    known (some p) = log_attempt-Evolves d (some p.id) a.payment_identity a.result a.reason_code
    known none = fresh _

pub record_verification-Evolves :
    (d : Db) (new_id : ℕ) (a : Verification.Attempt)
    → Evolves d (Verification.record_verification new_id a d).0
unfolding Verification.record_verification
record_verification-Evolves d new_id a = by_result a.result a.payment
  where
    by_result :
        (r : VerificationResult) (o : Option VerifiedPayment)
        → Evolves d
            (elim r as (λ x. Db × Result (Unit {0})) [
              | VerificationResult.failed ↦
                  (Verification.log_attempt none a.payment_identity a.result a.reason_code d, ok tt)
              | VerificationResult.verified ↦ elim o [
                | none ↦ (d, err invalid_request)
                | some v ↦ Verification.record_verified new_id a v d
              ]
            ]).0
    by_result VerificationResult.failed o =
        log_attempt-Evolves d none a.payment_identity a.result a.reason_code
    by_result VerificationResult.verified none = Evolves-refl d
    by_result VerificationResult.verified (some v) = record_verified-Evolves d new_id a v
