-- ===== src/Settlement/Settle.antt =====
-- internal/settlement/service.go: Settle, Broadcast and respondWithTx. ParseRequest's answer is an
-- argument; of a wire response the outcome is kept, and not the payer, network and amount that are
-- copied from the payment.
pub mod Outcome
use facilitator.Base.{
  ℕ, Option, none, some, List, [], ◌∷◌, Text, codes, is_empty, Bool, true, false, not,
  if◌then◌else◌,
}
use facilitator.Settlement.Errors.{
  Error, Result, ok, err, ◌>>=◌, payment_not_found, payment_not_verified, recipient_not_merchant,
  authorization_expiring, merchant_quota_exceeded, global_quota_exceeded, payment_unsettleable,
  lease_unavailable, broadcast_pending,
}
use facilitator.Settlement.Work.{Work, Intent, IntentRequest}
use facilitator.Settlement.Service.{Config, Network, World, broadcast_claimed}
use facilitator.Settlement.Confirmation.{
  Receipt, Chain, Observation, observation_pending, observation_confirmed, observation_reverted,
  wait_for_settlement,
}
use facilitator.Store.Schema.{Db}
use facilitator.Store.Broadcast.{mark_tx_confirmed, mark_tx_reverted}
use facilitator.Store.Lease.{claim_payment, release_lease}
use facilitator.Store.Load.{load_settlement_work}
use facilitator.Store.Intent.{create_settlement_intent}

pub data WireReason : Type 0 where
  reason_invalid_request reason_payment_not_found reason_payment_not_verified
        reason_recipient_not_merchant reason_authorization_expiring reason_merchant_quota_exceeded
        reason_global_quota_exceeded reason_simulation_reverted reason_settlement_unavailable
        reason_broadcast_failed reason_transaction_failed reason_failed_to_get_receipt :
      WireReason

pub data SettleResponse : Type 0 where
  -- Success: true, with the transaction's hash.
  settled : Text → SettleResponse
  rejected : WireReason → SettleResponse

abbrev pub receipt_unavailable : SettleResponse
receipt_unavailable = rejected reason_failed_to_get_receipt

abbrev pub reverted_tx : SettleResponse
reverted_tx = rejected reason_transaction_failed

-- The write of a final outcome, answered with `response` unless it fails.
abbrev pub persisted : Result Db → SettleResponse → World → World × SettleResponse
persisted (ok db) response w = (record w { db = db }, response)
persisted (err e) response w = (w, receipt_unavailable)

-- `observation` is what waitForSettlement returns.
unfoldable pub respond_with_tx : Observation → ℕ → ℕ → Text → World → World × SettleResponse
unfolding mark_tx_confirmed mark_tx_reverted
respond_with_tx (observation_confirmed r) payment_id transaction_id tx_hash w =
    persisted
      (mark_tx_confirmed payment_id transaction_id r.block_number r.block_hash r.gas_used
        r.effective_gas_price (codes "http-wait") w.db)
      (settled tx_hash) w
respond_with_tx (observation_reverted r) payment_id transaction_id tx_hash w =
    persisted
      (mark_tx_reverted payment_id transaction_id r.gas_used r.effective_gas_price
        (codes "http-wait") w.db)
      reverted_tx w
respond_with_tx observation_pending payment_id transaction_id tx_hash w = (w, receipt_unavailable)

-- The settings that Settle reads beside those of the broadcast.
pub record SettleConfig : Type 0 where
  pub broadcast_config : Config
  pub signer_address : Text
  pub merchant_quota : ℕ
  pub global_quota : ℕ
  pub quota_window : ℕ
  pub lease_duration : ℕ
  pub confirmations : ℕ
  pub response_wait : ℕ

-- The deferred release; its error is logged only.
abbrev released : ℕ → Text → World × Result Text → World × Result Text
released payment_id actor (w, answer) = elim (release_lease payment_id actor w.db) [
  | ok db ↦ (record w { db = db }, answer)
  | err e ↦ (w, answer)
]

unfoldable pub broadcast : SettleConfig → Network → ℕ → ℕ → Text → World → World × Result Text
unfolding claim_payment load_settlement_work broadcast_claimed release_lease
broadcast config network now payment_id actor w =
    elim (claim_payment payment_id actor config.lease_duration (some now) w.db) [
      | err lease_unavailable ↦ (w, err broadcast_pending)
      | err e ↦ (w, err e)
      | ok (lease, db) ↦
          released payment_id actor
            (elim (load_settlement_work payment_id db) as (λ x. World × Result Text) [
              | err e ↦ (record w { db = db }, err e)
              | ok work ↦
                  broadcast_claimed config.broadcast_config network now work actor
                    (record w { db = db })
            ])
    ]

-- What verification.ParseRequest has read of a payment.
pub record ParsedPayment : Type 0 where
  pub identity : Text
  pub signature : Text

-- The switch over the store's errors; another error is returned as it is.
unfoldable pub rejection : Error → Option WireReason
rejection payment_not_found = some reason_payment_not_found
rejection payment_not_verified = some reason_payment_not_verified
rejection recipient_not_merchant = some reason_recipient_not_merchant
rejection authorization_expiring = some reason_authorization_expiring
rejection merchant_quota_exceeded = some reason_merchant_quota_exceeded
rejection global_quota_exceeded = some reason_global_quota_exceeded
rejection _ = none

unfoldable pub intent_request : SettleConfig → ℕ → ParsedPayment → IntentRequest
intent_request config now payment = record {
  payment_identity = payment.identity;
  signer_address = config.signer_address;
  payer_signature = payment.signature;
  expiry_margin = config.broadcast_config.expiry_margin;
  quota = config.merchant_quota;
  quota_window = config.quota_window;
  global_quota = config.global_quota;
  now = some now;
}

-- Behind the intent: a recorded outcome is replayed, a hash is waited for, and else the payment is
-- broadcast. `readings` are the polls of the wait.
unfoldable pub settle_intent :
    SettleConfig → Network → List Chain → ℕ → Intent → World → World × SettleResponse
unfolding broadcast load_settlement_work respond_with_tx wait_for_settlement
settle_intent config network readings now intent w =
    if not (is_empty intent.tx_hash)
    then (if intent.is_reverted
        then (w, reverted_tx)
        else if intent.is_confirmed
        then (w, settled intent.tx_hash)
        else if intent.duplicate
        then (w, receipt_unavailable)
        else wait intent.transaction_id intent.tx_hash w)
    else (let (w₁, answer) = broadcast config network now intent.payment_id (codes "http") w in
        elim answer [
          | ok tx_hash ↦ wait intent.transaction_id tx_hash w₁
          | err authorization_expiring ↦ (w₁, rejected reason_authorization_expiring)
          | err payment_unsettleable ↦ (w₁, rejected reason_simulation_reverted)
          | err e ↦ recovered (load_settlement_work intent.payment_id w₁.db) w₁
        ])
  where
    wait : ℕ → Text → World → World × SettleResponse
    wait transaction_id tx_hash v =
        respond_with_tx
          (wait_for_settlement config.response_wait config.confirmations readings tx_hash)
          intent.payment_id transaction_id tx_hash v

    -- The broadcast may have been recorded by another actor after all.
    recovered : Result Work → World → World × SettleResponse
    recovered (err e) v = (v, rejected reason_broadcast_failed)
    recovered (ok work) v =
        if is_empty work.tx_hash
        then (v, rejected reason_broadcast_failed)
        else wait work.transaction_id work.tx_hash v

-- `new_id` is the uuid that the database generates, `parsed` the payment or the refusal's reason.
unfoldable pub settle :
    SettleConfig
    → Network
    → List Chain
    → ℕ
    → ℕ
    → Result ParsedPayment
    → World
    → World × Result SettleResponse
unfolding create_settlement_intent intent_request rejection settle_intent
settle config network readings now new_id (err reason) w = (w, ok (rejected reason_invalid_request))
settle config network readings now new_id (ok payment) w =
    answer (create_settlement_intent new_id (intent_request config now payment) w.db)
  where
    reply : World × SettleResponse → World × Result SettleResponse
    reply (v, response) = (v, ok response)

    answer : Db × Result Intent → World × Result SettleResponse
    answer (db, ok intent) =
        reply (settle_intent config network readings now intent (record w { db = db }))
    answer (db, err e) = elim (rejection e) [
      | some reason ↦ (record w { db = db }, ok (rejected reason))
      | none ↦ (record w { db = db }, err e)
    ]
