-- ===== src/Verification/Service.antt =====
-- internal/verification/service.go: Verify and what it records. What the node and the x402 scheme
-- answer is a parameter; without a recorder nothing is written.
pub mod Valid
use facilitator.Base.{
  ℕ, zero, suc, ◌+◌, ◌*◌, Option, none, some, List, [], ◌∷◌, Text, codes, is_empty, Bool, true,
  false, not, if◌then◌else◌,
}
use facilitator.Settlement.Calldata.{hex_value, trim_prefix, first_bytes}
use facilitator.Settlement.Errors.{Error, Result, err, ok, authorization_conflict, unavailable}
use facilitator.Store.Schema.{Db, VerificationResult}
use facilitator.Store.Verification.{
  VerifiedPayment, Attempt, record_verification, reason_nonce_already_used,
}
use facilitator.Verification.Request.{
  LibraryReason, Reason, library_reason, requirements_mismatch, unsupported_network,
  unsupported_asset, unsupported_extension, unsupported_transfer_method, Library, Requirements,
  PaymentPayload, VerifyRequest, Parsed, refused, parsed, parse_request,
}

pub record VerifyResponse : Type 0 where
  pub is_valid : Bool
  pub invalid_reason : Text
  pub payer : Text

pub data SchemeAnswer : Type 0 where
  scheme_error : SchemeAnswer
  -- An x402.VerifyError with its reason and payer.
  scheme_refusal : Text → Text → SchemeAnswer
  -- `none` is nil.
  scheme_response : Option VerifyResponse → SchemeAnswer

-- Scheme and CodeReader. `none` is an error; an inner `none` is a result that is no Boolean.
pub record Oracle : Type 0 where
  pub get_code : Text → Option (List ℕ)
  pub authorization_state : Text → Text → List ℕ → Option (Option Bool)
  pub scheme_verify : PaymentPayload → Requirements → SchemeAnswer

unfoldable pub reason_text : Library → Reason → Text
reason_text library (library_reason reason) = library.text_of reason
reason_text library requirements_mismatch = codes "invalid_payment_requirements_mismatch"
reason_text library unsupported_network = codes "unsupported_network"
reason_text library unsupported_asset = codes "unsupported_asset"
reason_text library unsupported_extension = codes "unsupported_extension"
reason_text library unsupported_transfer_method = codes "unsupported_asset_transfer_method"

-- The bytes that hex.DecodeString has read when it stops.
unfoldable pub decoded_bytes : Text → List ℕ
unfolding hex_value
decoded_bytes [] = []
decoded_bytes (a ∷ []) = []
decoded_bytes (a ∷ b ∷ s) =
    let rest = decoded_bytes s in
    elim (hex_value a) [
      | none ↦ []
      | some x ↦ elim (hex_value b) [ none ↦ [] | some y ↦ (16 * x + y) ∷ rest ]
    ]

-- copy into an array of so many zero bytes.
unfoldable pub padded : ℕ → List ℕ → List ℕ
padded zero bytes = []
padded (suc n) [] = 0 ∷ padded n []
padded (suc n) (b ∷ bytes) = b ∷ padded n bytes

unfoldable pub nonce_bytes : Text → List ℕ
unfolding decoded_bytes padded trim_prefix
nonce_bytes nonce = padded 32 (decoded_bytes (trim_prefix nonce))

-- `recorder` says whether there is one.
unfoldable pub record_attempt : Bool → ℕ → Attempt → Db → Db × Result (Unit {0})
unfolding record_verification
record_attempt false new_id attempt db = (db, ok tt)
record_attempt true new_id attempt db = record_verification new_id attempt db

abbrev pub failed_attempt : Text → Text → Attempt
failed_attempt identity reason = record {
  payment_identity = identity;
  result = VerificationResult.failed;
  reason_code = reason;
  payment = none;
}

abbrev pub invalid : Text → Text → VerifyResponse
invalid reason payer = record { is_valid = false; invalid_reason = reason; payer = payer }

-- What is answered once an attempt is recorded.
abbrev pub answer_recorded : VerifyResponse → Db × Result (Unit {0}) → Db × Result VerifyResponse
answer_recorded response (db, err e) = (db, err e)
answer_recorded response (db, ok u) = (db, ok response)

unfoldable pub refuse_payment : Bool → ℕ → Text → Text → Text → Db → Db × Result VerifyResponse
unfolding record_attempt
refuse_payment recorder new_id identity reason payer db =
    answer_recorded (invalid reason payer)
      (record_attempt recorder new_id (failed_attempt identity reason) db)

-- Of the cause and an error of the recorder, which the source joins, the cause is returned.
unfoldable pub report_unavailable : Bool → ℕ → VerifiedPayment → Db → Db × Result VerifyResponse
unfolding record_attempt
report_unavailable recorder new_id payment db = (
  (record_attempt recorder new_id
      (failed_attempt payment.identity (codes "verification_unavailable")) db).0,
  err unavailable,
)

-- errors.Is(err, ErrAuthorizationConflict).
unfoldable pub is_conflict : Error → Bool
is_conflict authorization_conflict = true
is_conflict _ = false

abbrev pub answer_verified :
    Text → VerifyResponse → Db × Result (Unit {0}) → Db × Result VerifyResponse
answer_verified payer response (db, ok u) = (db, ok response)
answer_verified payer response (db, err e) =
    if is_conflict e then (db, ok (invalid reason_nonce_already_used payer)) else (db, err e)

unfoldable pub accept_payment :
    Bool → ℕ → VerifiedPayment → VerifyResponse → Db → Db × Result VerifyResponse
unfolding record_attempt is_conflict
accept_payment recorder new_id payment response db = answer_verified payment.payer response (
    record_attempt recorder new_id
      (record {
        payment_identity = payment.identity;
        result = VerificationResult.verified;
        reason_code = [];
        payment = some payment;
      })
      db)

unfoldable pub weigh_scheme :
    Bool → ℕ → VerifiedPayment → SchemeAnswer → Db → Db × Result VerifyResponse
unfolding refuse_payment report_unavailable accept_payment
weigh_scheme recorder new_id payment scheme_error db = report_unavailable recorder new_id payment db
weigh_scheme recorder new_id payment (scheme_refusal reason payer) db =
    refuse_payment recorder new_id payment.identity reason payer db
weigh_scheme recorder new_id payment (scheme_response none) db =
    report_unavailable recorder new_id payment db
weigh_scheme recorder new_id payment (scheme_response (some response)) db =
    if response.is_valid
    then accept_payment recorder new_id payment response db
    else report_unavailable recorder new_id payment db

-- Behind the look at the payer's code.
unfoldable pub weigh_nonce :
    Bool
    → ℕ
    → Oracle
    → VerifyRequest
    → VerifiedPayment
    → Option (Option Bool)
    → Db
    → Db × Result VerifyResponse
unfolding refuse_payment report_unavailable weigh_scheme
weigh_nonce recorder new_id oracle request payment (some (some false)) db =
    weigh_scheme recorder new_id payment
      (oracle.scheme_verify request.payment_payload request.payment_requirements) db
weigh_nonce recorder new_id oracle request payment (some (some true)) db =
    refuse_payment recorder new_id payment.identity reason_nonce_already_used payment.payer db
weigh_nonce recorder new_id oracle request payment (some none) db =
    report_unavailable recorder new_id payment db
weigh_nonce recorder new_id oracle request payment none db =
    report_unavailable recorder new_id payment db

unfoldable pub weigh_code :
    Bool
    → ℕ
    → Oracle
    → VerifyRequest
    → VerifiedPayment
    → Option (List ℕ)
    → Db
    → Db × Result VerifyResponse
unfolding refuse_payment report_unavailable weigh_nonce nonce_bytes
weigh_code recorder new_id oracle request payment none db =
    report_unavailable recorder new_id payment db
weigh_code recorder new_id oracle request payment (some (b ∷ code)) db =
    refuse_payment recorder new_id payment.identity (codes "unsupported_payer_type") payment.payer
      db
weigh_code recorder new_id oracle request payment (some []) db =
    weigh_nonce recorder new_id oracle request payment
      (oracle.authorization_state payment.asset payment.payer (nonce_bytes payment.nonce)) db

unfoldable pub verify_parsed :
    Bool
    → ℕ
    → Library
    → Oracle
    → VerifyRequest
    → Parsed VerifiedPayment
    → Db
    → Db × Result VerifyResponse
unfolding refuse_payment weigh_code reason_text
verify_parsed recorder new_id library oracle request (refused reason) db =
    refuse_payment recorder new_id [] (reason_text library reason) [] db
verify_parsed recorder new_id library oracle request (parsed payment) db =
    weigh_code recorder new_id oracle request payment (oracle.get_code payment.payer) db

-- Verify. `new_id` is the uuid of a new payment.
unfoldable pub verify_request :
    Bool → ℕ → Library → Oracle → VerifyRequest → Db → Db × Result VerifyResponse
unfolding parse_request verify_parsed
verify_request recorder new_id library oracle request db =
    verify_parsed recorder new_id library oracle request (parse_request library request) db

-- RecordInvalidRequest.
unfoldable pub record_invalid_request : Bool → ℕ → Db → Db × Result (Unit {0})
unfolding record_attempt
record_invalid_request recorder new_id db =
    record_attempt recorder new_id (failed_attempt [] (codes "invalid_request")) db
