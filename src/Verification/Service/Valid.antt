-- ===== src/Verification/Service/Valid.antt =====
-- internal/verification/service.go: what stands behind a payment that is answered as valid.
use facilitator.Base.{
  ℕ, ◌≡◌, refl, ap, Option, none, some, List, [], ◌∷◌, map, Memᴰ, Text, codes, Bool, true, false,
  if◌then◌else◌,
}
use facilitator.Settlement.Errors.{Error, Result, ok, err, ok_injective}
use facilitator.Store.Schema.{Db, VerificationResult}
use facilitator.Store.Verification.{
  VerifiedPayment, Attempt, record_verification, reason_nonce_already_used,
}
use facilitator.Store.Verification.Filed.{identity_in, Filed, record_verified-Filed}
use facilitator.Verification.Request.{
  Library, VerifyRequest, Parsed, refused, parsed, parse_request,
}
use facilitator.Verification.Request.Supported.{Supported, parse_request-Supported}
use facilitator.Verification.Service.{
  VerifyResponse, SchemeAnswer, scheme_error, scheme_refusal, scheme_response, Oracle, nonce_bytes,
  reason_text, record_attempt, answer_recorded, answer_verified, refuse_payment, report_unavailable,
  accept_payment, weigh_scheme, weigh_nonce, weigh_code, verify_parsed, verify_request, is_conflict,
  invalid,
}

-- The request is supported, the payer is no contract, the nonce is unused on chain, the x402 scheme
-- answered this very response, and with a recorder the payment is on file.
pub record Backed (recorder : Bool) (library : Library) (oracle : Oracle) (request : VerifyRequest)
    (response : VerifyResponse) (after : Db) : Type 0 where
  pub payment : VerifiedPayment
  pub accepted : parse_request library request ≡ parsed payment
  pub supported : Supported library request payment
  pub no_code : oracle.get_code payment.payer ≡ some []
  pub unused :
      oracle.authorization_state payment.asset payment.payer (nonce_bytes payment.nonce)
      ≡ some (some false)
  pub approved :
      oracle.scheme_verify request.payment_payload request.payment_requirements
      ≡ scheme_response (some response)
  pub on_file : recorder ≡ true → Memᴰ payment.identity (map identity_in after.payments)

-- The outcome answers this response, and the response is valid.
abbrev Valid : VerifyResponse → Db × Result VerifyResponse → Type 0
Valid response outcome = (outcome.1 ≡ ok response) × (response.is_valid ≡ true)

refuse_payment-not-Valid :
    (recorder : Bool) (new_id : ℕ) (identity reason payer : Text) (d : Db)
    (response : VerifyResponse)
    → Valid response (refuse_payment recorder new_id identity reason payer d)
    → ⊥
unfolding refuse_payment
refuse_payment-not-Valid recorder new_id identity reason payer d response (h, valid) =
    by_record (record_attempt recorder new_id _ d) h
  where
    by_record :
        (o : Db × Result (Unit {0}))
        → (answer_recorded
            (record { is_valid = false; invalid_reason = reason; payer = payer })
            o).1
          ≡ ok response
        → ⊥
    by_record (e, err x) same = cc
    by_record (e, ok u) same = cc

report_unavailable-not-Valid :
    (recorder : Bool) (new_id : ℕ) (payment : VerifiedPayment) (d : Db) (response : VerifyResponse)
    → Valid response (report_unavailable recorder new_id payment d)
    → ⊥
unfolding report_unavailable
report_unavailable-not-Valid recorder new_id payment d response (h, valid) = cc

-- The outcome is this response, and with a recorder the payment is on file.
abbrev Taken : Bool → VerifiedPayment → VerifyResponse → VerifyResponse → Db → Type 0
Taken recorder payment given response after =
    (given ≡ response) × (recorder ≡ true → Memᴰ payment.identity (map identity_in after.payments))

accept_payment-Taken :
    (recorder : Bool) (new_id : ℕ) (payment : VerifiedPayment) (given response : VerifyResponse)
    (d : Db)
    → Valid response (accept_payment recorder new_id payment given d)
    → Taken recorder payment given response (accept_payment recorder new_id payment given d).0
unfolding accept_payment record_attempt record_verification
accept_payment-Taken recorder new_id payment given response d =
    by_record (record_attempt recorder new_id attempt d) (on_file recorder)
  where
    attempt : Attempt
    attempt = record {
      payment_identity = payment.identity;
      result = VerificationResult.verified;
      reason_code = [];
      payment = some payment;
    }

    on_file : (b : Bool) → b ≡ true → Filed payment.identity (record_attempt b new_id attempt d)
    on_file true e = record_verified-Filed new_id attempt payment d
    on_file false e = absurd (cc)

    conflict :
        (e : Db) (x : Error) (b : Bool)
        → Valid response
            (if b then (e, ok (invalid reason_nonce_already_used payment.payer)) else (e, err x))
        → ⊥
    conflict e x true (h, valid) = cc
    conflict e x false (h, valid) = cc

    by_record :
        (o : Db × Result (Unit {0}))
        → (recorder ≡ true → Filed payment.identity o)
        → Valid response (answer_verified payment.payer given o)
        → Taken recorder payment given response (answer_verified payment.payer given o).0
    by_record (e, ok u) filed (h, valid) = (ok_injective h, λ r. filed r refl)
    by_record (e, err x) filed v = absurd (conflict e x (is_conflict x) v)

weigh_scheme-Taken :
    (recorder : Bool) (new_id : ℕ) (payment : VerifiedPayment) (answer : SchemeAnswer)
    (response : VerifyResponse) (d : Db)
    → Valid response (weigh_scheme recorder new_id payment answer d)
    → (answer ≡ scheme_response (some response))
      × (recorder ≡ true
          → Memᴰ payment.identity
              (map identity_in (weigh_scheme recorder new_id payment answer d).0.payments))
unfolding weigh_scheme
weigh_scheme-Taken recorder new_id payment scheme_error response d v =
    absurd (report_unavailable-not-Valid recorder new_id payment d response v)
weigh_scheme-Taken recorder new_id payment (scheme_refusal reason payer) response d v =
    absurd (refuse_payment-not-Valid recorder new_id payment.identity reason payer d response v)
weigh_scheme-Taken recorder new_id payment (scheme_response none) response d v =
    absurd (report_unavailable-not-Valid recorder new_id payment d response v)
weigh_scheme-Taken recorder new_id payment (scheme_response (some given)) response d v =
    by_valid given.is_valid v
  where
    outcome : Bool → Db × Result VerifyResponse
    outcome b =
        if b
        then accept_payment recorder new_id payment given d
        else report_unavailable recorder new_id payment d

    by_valid :
        (b : Bool)
        → Valid response (outcome b)
        → (scheme_response (some given) ≡ scheme_response (some response))
          × (recorder ≡ true → Memᴰ payment.identity (map identity_in (outcome b).0.payments))
    by_valid true v =
        let (same, filed) = accept_payment-Taken recorder new_id payment given response d v in
        (ap (λ x. scheme_response (some x)) same, filed)
    by_valid false v = absurd (report_unavailable-not-Valid recorder new_id payment d response v)

-- A response that says valid, and no error: the request is in the supported lane, its payer has no code,
-- its nonce is unused on chain, the x402 scheme gave this response, and with a recorder a payment of
-- this identity is in the database.
pub verify_request-Backed :
    (recorder : Bool) (new_id : ℕ) (library : Library) (oracle : Oracle) (request : VerifyRequest)
    (d : Db) (response : VerifyResponse)
    → (verify_request recorder new_id library oracle request d).1 ≡ ok response
    → response.is_valid ≡ true
    → Backed recorder library oracle request response
        (verify_request recorder new_id library oracle request d).0
unfolding verify_request verify_parsed weigh_code weigh_nonce
verify_request-Backed recorder new_id library oracle request d response h valid =
    by_parse (parse_request library request) refl (h, valid)
  where
    by_nonce :
        (payment : VerifiedPayment)
        → parse_request library request ≡ parsed payment
        → oracle.get_code payment.payer ≡ some []
        → (state : Option (Option Bool))
        → oracle.authorization_state payment.asset payment.payer (nonce_bytes payment.nonce) ≡ state
        → Valid response (weigh_nonce recorder new_id oracle request payment state d)
        → Backed recorder library oracle request response
            (weigh_nonce recorder new_id oracle request payment state d).0
    by_nonce payment at_p at_c none at_s v =
        absurd (report_unavailable-not-Valid recorder new_id payment d response v)
    by_nonce payment at_p at_c (some none) at_s v =
        absurd (report_unavailable-not-Valid recorder new_id payment d response v)
    by_nonce payment at_p at_c (some (some true)) at_s v = absurd (
        refuse_payment-not-Valid recorder new_id payment.identity reason_nonce_already_used
          payment.payer d response v)
    by_nonce payment at_p at_c (some (some false)) at_s v =
        let (approved, filed) =
          weigh_scheme-Taken recorder new_id payment
            (oracle.scheme_verify request.payment_payload request.payment_requirements) response d
            v in
        record {
          payment = payment;
          accepted = at_p;
          supported = parse_request-Supported library request payment at_p;
          no_code = at_c;
          unused = at_s;
          approved = approved;
          on_file = filed;
        }

    by_code :
        (payment : VerifiedPayment)
        → parse_request library request ≡ parsed payment
        → (code : Option (List ℕ)) → oracle.get_code payment.payer ≡ code
        → Valid response (weigh_code recorder new_id oracle request payment code d)
        → Backed recorder library oracle request response
            (weigh_code recorder new_id oracle request payment code d).0
    by_code payment at_p none at_c v =
        absurd (report_unavailable-not-Valid recorder new_id payment d response v)
    by_code payment at_p (some (b ∷ code)) at_c v = absurd (
        refuse_payment-not-Valid recorder new_id payment.identity (codes "unsupported_payer_type")
          payment.payer d response v)
    by_code payment at_p (some []) at_c v = by_nonce payment at_p at_c _ refl v

    by_parse :
        (o : Parsed VerifiedPayment)
        → parse_request library request ≡ o
        → Valid response (verify_parsed recorder new_id library oracle request o d)
        → Backed recorder library oracle request response
            (verify_parsed recorder new_id library oracle request o d).0
    by_parse (refused reason) at_o v =
        absurd
          (refuse_payment-not-Valid recorder new_id [] (reason_text library reason) [] d response v)
    by_parse (parsed payment) at_o v = by_code payment at_o _ refl v
