-- ===== src/Store/Verification.antt =====
-- internal/store/store.go: recordVerification. The advisory lock makes it one step; the retry after
-- a transient abort repeats a step that has left nothing behind.
pub mod Filed
use facilitator.Base.{
  ℕ, Option, none, some, List, [], ◌∷◌, ◌++◌, Text, text_eq, codes, Bool, false, ◌&&◌, ◌||◌, ltb,
  ◌==◌, if◌then◌else◌, find_row, update_rows, count_rows,
}
use facilitator.Settlement.State.{State}
use facilitator.Settlement.Errors.{
  Result, ok, err, ◌>>◌, guard, invalid_request, authorization_conflict, primary_key_violation,
}
use facilitator.Store.Schema.{Payment, Merchant, Db, VerificationAttempt, VerificationResult}
use facilitator.Store.Statements.{payment_in, record_transition}

-- verification.Payment.
pub record VerifiedPayment : Type 0 where
  pub identity : Text
  pub asset : Text
  pub payer : Text
  pub recipient : Text
  pub amount : ℕ
  pub nonce : Text
  pub valid_after : ℕ
  pub valid_before : ℕ
  pub payload_hash : Text
  pub signature : Text

-- verification.Attempt.
pub record Attempt : Type 0 where
  pub payment_identity : Text
  pub result : VerificationResult
  pub reason_code : Text
  pub payment : Option VerifiedPayment

abbrev pub log_attempt : Option ℕ → Text → VerificationResult → Text → Db → Db
log_attempt payment_id identity result reason db = record db {
  verification_attempts = entry ∷ db.verification_attempts;
}
  where
    entry : VerificationAttempt
    entry = record {
      payment_id = payment_id;
      payment_identity = identity;
      result = result;
      reason_code = reason;
    }

-- ORDER BY created_at, id LIMIT 1.
abbrev is_older : Merchant → Merchant → Bool
is_older m n = ltb m.created_at n.created_at || (m.created_at == n.created_at && ltb m.id n.id)

unfoldable pub oldest_claimant : Text → List Merchant → Option Merchant
unfolding text_eq
oldest_claimant recipient [] = none
oldest_claimant recipient (m ∷ ms) =
    let rest = oldest_claimant recipient ms in
    if text_eq m.recipient_address recipient && m.active
    then elim rest [ none ↦ some m | some n ↦ if is_older n m then some n else some m ]
    else rest

abbrev merchant_id_of : Option Merchant → Option ℕ
merchant_id_of none = none
merchant_id_of (some m) = some m.id

abbrev same_text : Option Text → Text → Bool
same_text none s = false
same_text (some t) s = text_eq t s

-- UNIQUE (network, asset, payer_address, authorization_nonce), the network being one.
unfoldable pub same_authorization : VerifiedPayment → Payment → Bool
unfolding text_eq
same_authorization v p =
    text_eq p.asset v.asset
    && (same_text p.payer_address v.payer && same_text p.authorization_nonce v.nonce)

abbrev pub received_row : ℕ → VerifiedPayment → Db → Payment
received_row new_id v db = record {
  id = new_id;
  payment_identity = v.identity;
  merchant_id = merchant_id_of (oldest_claimant v.recipient db.merchants);
  asset = v.asset;
  payer_address = some v.payer;
  recipient_address = some v.recipient;
  amount_atomic = v.amount;
  authorization_nonce = some v.nonce;
  payload_hash = some v.payload_hash;
  valid_after = some v.valid_after;
  valid_before = some v.valid_before;
  payer_signature = none;
  state = State.received;
  settlement_requested_at = none;
  confirmed_at = none;
  claimed_by = none;
  claimed_until = none;
  updated_at = db.clock;
}

unfoldable pub insert_payment : ℕ → VerifiedPayment → Db → Result Db
insert_payment new_id v db = do
  guard (count_rows (λ (p : Payment). p.id == new_id) db.payments == 0) primary_key_violation
  record_transition new_id State.received State.verified (codes "http") (record db {
    payments =
        update_rows (payment_in new_id (State.received ∷ []))
          (λ p. record p { state = State.verified; updated_at = db.clock })
          (db.payments ++ received_row new_id v db ∷ []);
  })

abbrev pub finish_insert : Result Db → Attempt → ℕ → Db → Db × Result (Unit {0})
finish_insert (err e) attempt new_id db = (db, err e)
finish_insert (ok after) attempt new_id db = (
  log_attempt (some new_id) attempt.payment_identity attempt.result attempt.reason_code after,
  ok tt,
)

-- ReasonNonceAlreadyUsed, as docs/PROTOCOL_RESEARCH.md lists it.
abbrev pub reason_nonce_already_used : Text
reason_nonce_already_used = codes "invalid_exact_evm_nonce_already_used"

abbrev pub with_identity : Text → Payment → Bool
with_identity identity p = text_eq p.payment_identity identity

unfoldable pub record_verified : ℕ → Attempt → VerifiedPayment → Db → Db × Result (Unit {0})
record_verified new_id attempt v db = elim (find_row (with_identity v.identity) db.payments) [
  | some p ↦ (
    log_attempt (some p.id) attempt.payment_identity attempt.result attempt.reason_code db,
    ok tt,
  )
  | none ↦
      if count_rows (same_authorization v) db.payments == 0
      then finish_insert (insert_payment new_id v db) attempt new_id db
      else (
        log_attempt none attempt.payment_identity VerificationResult.failed
            reason_nonce_already_used db,
        err authorization_conflict,
      )
]

-- The identity of a failed attempt is its own; `reason_code` is empty where the source writes NULL.
unfoldable pub record_verification : ℕ → Attempt → Db → Db × Result (Unit {0})
record_verification new_id attempt db = elim attempt.result [
  | VerificationResult.failed ↦
      (log_attempt none attempt.payment_identity attempt.result attempt.reason_code db, ok tt)
  | VerificationResult.verified ↦ elim attempt.payment [
    | none ↦ (db, err invalid_request)
    | some v ↦ record_verified new_id attempt v db
  ]
]
