-- ===== src/Store/Intent.antt =====
-- internal/store/settlement.go: CreateSettlementIntent, with its admission checks in their order.
use facilitator.Base.{
  ℕ, ◌+◌, Option, none, some, List, [], ◌∷◌, Text, text_eq, codes, has_prefix, is_empty, length,
  Bool, true, false, ◌&&◌, not, leb, ltb, ◌==◌, if◌then◌else◌, find_row, update_rows, count_rows,
}
use facilitator.Settlement.State.{State, can_transition, state_eq}
use facilitator.Settlement.Errors.{
  Error, Result, ok, err, ◌>>=◌, ◌>>◌, guard, payment_not_found, payment_not_verified,
  recipient_not_merchant, authorization_expiring, merchant_quota_exceeded, global_quota_exceeded,
  signature_conflict, state_changed, invalid_request,
}
use facilitator.Settlement.Work.{Intent, IntentRequest}
use facilitator.Store.Schema.{
  Payment, Transaction, Merchant, Status, Db, Attempt, AttemptResult, accepted, duplicate, rejected,
  status_eq,
}
use facilitator.Store.Statements.{active_of, insert_transaction, record_transition, payment_in}
use facilitator.Store.Signer.{allocate_nonce, parse_nonce}
use facilitator.Walletproof.{normalize_address}

-- IntentRequest.Validate. A margin, quota or window that is not positive is refused.
unfoldable pub is_valid_request : IntentRequest → Bool
unfolding has_prefix
is_valid_request r =
    not (is_empty r.payment_identity)
    && (not (is_empty r.signer_address)
        && ((length r.payer_signature == 132 && has_prefix r.payer_signature (codes "0x"))
            && (not (r.expiry_margin == 0)
                && (not (r.quota == 0)
                    && (not (r.quota_window == 0)
                        && (not (r.global_quota == 0) && leb r.quota r.global_quota))))))

-- A committed answer, or an error with the database that it leaves.
abbrev pub Outcome : Type 0
Outcome = Db × Result Intent

abbrev pub with_attempt : Option ℕ → Text → AttemptResult → Text → Db → Db
with_attempt payment_id identity result reason db = record db {
  settlement_attempts = entry ∷ db.settlement_attempts;
}
  where
    entry : Attempt
    entry = record {
      payment_id = payment_id;
      payment_identity = identity;
      result = result;
      reason_code = reason;
    }

-- rejectSettlement: the refusal is committed, and nothing else is.
unfoldable pub reject_settlement : Option ℕ → Text → Text → Error → Db → Outcome
reject_settlement payment_id identity reason cause db =
    (with_attempt payment_id identity rejected reason db, err cause)

-- tx_hash IS NOT NULL.
abbrev has_hash : Transaction → Bool
has_hash t = elim t.tx_hash [ none ↦ false | some h ↦ true ]

unfoldable pub terminal_of : ℕ → Status → Transaction → Bool
unfolding status_eq
terminal_of payment_id status t =
    t.payment_id == payment_id && (status_eq t.status status && has_hash t)

-- ORDER BY updated_at DESC LIMIT 1.
unfoldable pub latest : (Transaction → Bool) → List Transaction → Option Transaction
latest test [] = none
latest test (t ∷ ts) =
    let rest = latest test ts in
    if test t
    then elim rest [
      | none ↦ some t
      | some u ↦ if ltb t.updated_at u.updated_at then some u else some t
    ]
    else rest

abbrev pub hash_or_empty : Option Text → Text
hash_or_empty none = []
hash_or_empty (some h) = h

unfoldable pub duplicate_intent : IntentRequest → Payment → Transaction → Bool → Bool → Db → Outcome
duplicate_intent request p t is_reverted is_confirmed db = elim (parse_nonce t.transaction_nonce) [
  | err e ↦ (db, err e)
  | ok nonce ↦ (
    with_attempt (some p.id) request.payment_identity duplicate [] db,
    ok (record {
      payment_id = p.id;
      payment_identity = request.payment_identity;
      transaction_id = t.id;
      signer_address = t.signer_address;
      nonce = nonce;
      tx_hash = hash_or_empty t.tx_hash;
      is_reverted = is_reverted;
      is_confirmed = is_confirmed;
      duplicate = true;
    }),
  )
]

unfoldable pub terminal_transaction : Payment → Db → Option Transaction
unfolding terminal_of latest state_eq
terminal_transaction p db =
    if state_eq p.state State.confirmed
    then latest (terminal_of p.id Status.confirmed) db.transactions
    else (if state_eq p.state State.reverted
        then latest (terminal_of p.id Status.reverted) db.transactions
        else none)

-- settlement_requested_at > now() - window.
abbrev pub in_window : ℕ → ℕ → Payment → Bool
in_window window clock p = elim p.settlement_requested_at [
  | none ↦ false
  | some at ↦ ltb clock (at + window)
]

abbrev pub of_merchant : ℕ → Payment → Bool
of_merchant merchant_id p = elim p.merchant_id [ none ↦ false | some m ↦ m == merchant_id ]

unfoldable pub merchant_settled : ℕ → ℕ → Db → ℕ
merchant_settled merchant_id window db =
    count_rows (λ p. of_merchant merchant_id p && in_window window db.clock p) db.payments

unfoldable pub overall_settled : ℕ → Db → ℕ
overall_settled window db = count_rows (in_window window db.clock) db.payments

unfoldable pub active_merchant : ℕ → Db → Option Merchant
active_merchant merchant_id db =
    find_row (λ (m : Merchant). m.id == merchant_id && m.active) db.merchants

-- The refusal of a payment that has no transaction yet, `none` if it is admitted.
unfoldable pub refusal : IntentRequest → ℕ → Payment → Db → Option (Text × Error)
unfolding can_transition
refusal request now p db =
    if can_transition p.state State.broadcasting
    then elim p.merchant_id [
      | none ↦ some (codes "recipient_not_registered", recipient_not_merchant)
      | some merchant_id ↦ elim (active_merchant merchant_id db) [
        | none ↦ some (codes "recipient_not_registered", recipient_not_merchant)
        | some m ↦ elim p.valid_before [
          | none ↦ some (codes "authorization_expiring", authorization_expiring)
          | some valid_before ↦
              if ltb (now + request.expiry_margin) valid_before
              then (if leb request.quota (merchant_settled merchant_id request.quota_window db)
                  then some (codes "merchant_quota_exceeded", merchant_quota_exceeded)
                  else (if leb request.global_quota (overall_settled request.quota_window db)
                      then some (codes "facilitator_quota_exceeded", global_quota_exceeded)
                      else none))
              else some (codes "authorization_expiring", authorization_expiring)
        ]
      ]
    ]
    else some (codes "payment_not_verified", payment_not_verified)

abbrev pub signature_agrees : Option Text → Text → Bool
signature_agrees none s = true
signature_agrees (some t) s = text_eq t s

-- The row that reserves the nonce.
abbrev pub intent_row : ℕ → ℕ → Text → ℕ → ℕ → Transaction
intent_row new_id payment_id signer nonce clock = record {
  id = new_id;
  payment_id = payment_id;
  tx_hash = none;
  signer_address = signer;
  transaction_nonce = nonce;
  status = Status.intent;
  raw_transaction_hash = none;
  sighash = none;
  raw_transaction = none;
  gas_limit = none;
  max_fee_per_gas = none;
  max_priority_fee_per_gas = none;
  block_number = none;
  block_hash = none;
  gas_used = none;
  effective_gas_price = none;
  replaced_by_id = none;
  broadcast_attempted_at = none;
  first_seen_at = none;
  confirmed_at = none;
  ambiguous_attempts = 0;
  updated_at = clock;
}

unfoldable pub requested : Text → ℕ → Payment → Payment
requested signature clock p = record p {
  payer_signature = some signature;
  state = State.broadcasting;
  settlement_requested_at = some clock;
  updated_at = clock;
}

abbrev pub accepted_intent : ℕ → IntentRequest → Text → Payment → ℕ → Intent
accepted_intent new_id request signer p nonce = record {
  payment_id = p.id;
  payment_identity = request.payment_identity;
  transaction_id = new_id;
  signer_address = signer;
  nonce = nonce;
  tx_hash = [];
  is_reverted = false;
  is_confirmed = false;
  duplicate = false;
}

-- The writes behind the allocation of the nonce.
unfoldable pub commit_intent : ℕ → IntentRequest → Text → Payment → ℕ → Db → Result (Db × Intent)
commit_intent new_id request signer p nonce db = do
  guard (count_rows (payment_in p.id (p.state ∷ [])) db.payments == 1) state_changed
  audited ← record_transition p.id p.state State.broadcasting (codes "http") (record db {
    payments =
        update_rows (payment_in p.id (p.state ∷ [])) (requested request.payer_signature db.clock)
          db.payments;
  })
  inserted ← insert_transaction (intent_row new_id p.id signer nonce db.clock) audited
  ok (
    with_attempt (some p.id) request.payment_identity accepted [] inserted,
    accepted_intent new_id request signer p nonce,
  )

unfoldable pub reserve : ℕ → IntentRequest → Text → Payment → Db → Result (Db × Intent)
reserve new_id request signer p db = do
  guard (signature_agrees p.payer_signature request.payer_signature) signature_conflict
  (nonce, allocated) ← allocate_nonce signer db
  commit_intent new_id request signer p nonce allocated

abbrev pub settle_once : Result (Db × Intent) → Db → Outcome
settle_once (ok (after, intent)) db = (after, ok intent)
settle_once (err e) db = (db, err e)

abbrev pub identified_by : Text → Payment → Bool
identified_by identity p = text_eq p.payment_identity identity

-- A payment that is found: its terminal transaction, its active one, or admission.
unfoldable pub settle_payment : ℕ → IntentRequest → ℕ → Text → Payment → Db → Outcome
settle_payment new_id request now signer p db = elim (terminal_transaction p db) [
  | some t ↦
      duplicate_intent request p t (state_eq p.state State.reverted)
        (state_eq p.state State.confirmed) db
  | none ↦ elim (find_row (active_of p.id) db.transactions) [
    | some t ↦ duplicate_intent request p t false false db
    | none ↦ elim (refusal request now p db) [
      | some (reason, cause) ↦
          reject_settlement (some p.id) request.payment_identity reason cause db
      | none ↦ settle_once (reserve new_id request signer p db) db
    ]
  ]
]

-- `new_id` is the uuid that the database generates.
unfoldable pub create_settlement_intent : ℕ → IntentRequest → Db → Outcome
create_settlement_intent new_id request db = elim request.now [
  | none ↦ (db, err invalid_request)
  | some now ↦
      if is_valid_request request
      then elim (normalize_address request.signer_address) [
        | none ↦ (db, err invalid_request)
        | some signer ↦ elim (find_row (identified_by request.payment_identity) db.payments) [
          | none ↦
              reject_settlement none request.payment_identity (codes "payment_not_found")
                payment_not_found db
          | some p ↦ settle_payment new_id request now signer p db
        ]
      ]
      else (db, err invalid_request)
]
