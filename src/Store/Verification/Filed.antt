-- ===== src/Store/Verification/Filed.antt =====
-- internal/store/store.go: what recordVerification has written of a verified payment.
use facilitator.Base.{
  ℕ, ◌≡◌, refl, sym, subst, Option, none, some, List, [], ◌∷◌, ◌++◌, map, Memᴰ, Text, codes,
  text_eq-eq, Bool, true, false, ◌==◌, if◌then◌else◌, find_row, find_row-test, find_row-mem,
  update_rows, map-update_rows, count_rows,
}
use mathlib.Core.List.Memᴰ
use facilitator.Settlement.State.{State}
use facilitator.Settlement.Errors.{Result, ok, err, primary_key_violation, authorization_conflict}
use facilitator.Store.Schema.{Payment, Db, VerificationResult}
use facilitator.Store.Statements.{payment_in, record_transition}
use facilitator.Store.Statements.Success.{record_transition-ok, >>-ok}
use facilitator.Store.Verification
use facilitator.Store.Verification.{VerifiedPayment, Attempt}

abbrev pub identity_in : Payment → Text
identity_in p = p.payment_identity

-- A payment of this identity is there, unless an error is reported.
abbrev pub Filed : Text → Db × Result (Unit {0}) → Type 0
Filed identity outcome = outcome.1 ≡ ok tt → Memᴰ identity (map identity_in outcome.0.payments)

insert_payment-mem :
    (new_id : ℕ) (v : VerifiedPayment) (d e : Db)
    → Verification.insert_payment new_id v d ≡ ok e
    → Memᴰ v.identity (map identity_in e.payments)
unfolding Verification.insert_payment
insert_payment-mem new_id v d e h =
    let (fresh, h₁) =
      >>-ok (count_rows (λ (p : Payment). p.id == new_id) d.payments == 0) primary_key_violation
        (record_transition new_id State.received State.verified (codes "http") written) h in
    let after =
      record_transition-ok new_id State.received State.verified (codes "http") written e h₁ in
    subst (λ (x : Db). Memᴰ v.identity (map identity_in x.payments)) (sym after)
      (subst (λ xs. Memᴰ v.identity xs)
        (sym (map-update_rows identity_in test set longer (λ p. refl)))
        (Memᴰ.map identity_in (Memᴰ.append_right d.payments (Memᴰ.head refl))))
  where
    longer : List Payment
    longer = d.payments ++ Verification.received_row new_id v d ∷ []

    test : Payment → Bool
    test = payment_in new_id (State.received ∷ [])

    set : Payment → Payment
    set p = record p { state = State.verified; updated_at = d.clock }

    written : Db
    written = record d { payments = update_rows test set longer }

finish_insert-Filed :
    (v : VerifiedPayment) (a : Attempt) (new_id : ℕ) (d : Db) (r : Result Db)
    → ((e : Db) → r ≡ ok e → Memᴰ v.identity (map identity_in e.payments))
    → Filed v.identity (Verification.finish_insert r a new_id d)
finish_insert-Filed v a new_id d (err e) there h = absurd (cc)
finish_insert-Filed v a new_id d (ok e) there h = there e refl

pub record_verified-Filed :
    (new_id : ℕ) (a : Attempt) (v : VerifiedPayment) (d : Db)
    → Filed v.identity (Verification.record_verified new_id a v d)
unfolding Verification.record_verified
record_verified-Filed new_id a v d =
    known (find_row (Verification.with_identity v.identity) d.payments) refl
  where
    fresh :
        (b : Bool)
        → Filed v.identity (
            if b
            then Verification.finish_insert (Verification.insert_payment new_id v d) a new_id d
            else (
              Verification.log_attempt none a.payment_identity VerificationResult.failed
                  Verification.reason_nonce_already_used d,
              err authorization_conflict,
            ))
    fresh true h =
        finish_insert-Filed v a new_id d (Verification.insert_payment new_id v d)
          (insert_payment-mem new_id v d) h
    fresh false h = absurd (cc)

    known :
        (o : Option Payment)
        → find_row (Verification.with_identity v.identity) d.payments ≡ o
        → Filed v.identity (elim o as (λ x. Db × Result (Unit {0})) [
          | some p ↦ (
            Verification.log_attempt (some p.id) a.payment_identity a.result a.reason_code d,
            ok tt,
          )
          | none ↦
              if count_rows (Verification.same_authorization v) d.payments == 0
              then Verification.finish_insert (Verification.insert_payment new_id v d) a new_id d
              else (
                Verification.log_attempt none a.payment_identity VerificationResult.failed
                    Verification.reason_nonce_already_used d,
                err authorization_conflict,
              )
        ])
    known (some p) at_p h =
        subst (λ t. Memᴰ t (map identity_in d.payments))
          (text_eq-eq p.payment_identity v.identity (find_row-test _ d.payments p at_p))
          (Memᴰ.map identity_in
            (find_row-mem (Verification.with_identity v.identity) d.payments p at_p))
    known none at_none h = fresh _ h
