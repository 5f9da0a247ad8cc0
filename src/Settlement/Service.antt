-- ===== src/Settlement/Service.antt =====
-- internal/settlement/service.go: broadcastClaimed. What the signer and the network answer to one
-- attempt is a parameter; what is handed to the network is kept in `sent`, newest first. Bytes are
-- given as their hexadecimal text.
pub mod Once
use facilitator.Base.{
  ℕ, ◌+◌, Option, none, some, List, [], ◌∷◌, ◌++◌, Text, codes, is_empty, equal_fold, Bool, true,
  false, not, ltb, if◌then◌else◌, ℤ,
}
use facilitator.Settlement.Errors.{
  Error, Result, ok, err, unavailable, invalid_fees, invalid_calldata, ambiguous_outcome,
  unexpected_status, authorization_expiring, payment_unsettleable, hash_mismatch,
}
use facilitator.Settlement.Fees.{FeeResult, fees, fee_error, estimate_fees}
use facilitator.Settlement.Work.{Authorization, Work, broadcast_pending, ambiguous_broadcast}
use facilitator.Store.Schema.{Db}
use facilitator.Store.Broadcast.{
  mark_tx_signed, mark_tx_broadcast, mark_tx_ambiguous, mark_intent_expired,
  mark_intent_unsettleable,
}

-- The settings that broadcastClaimed reads; a text that is not a decimal integer is `none`.
pub record Config : Type 0 where
  pub expiry_margin : ℕ
  pub gas_limit : ℕ
  pub max_priority_fee_gas : Option ℤ
  pub max_fee_per_gas : Option ℤ

pub record SignedTransaction : Type 0 where
  pub raw : Text
  pub sighash : Text

-- signer.Transaction, less the constants (chain id, USDC contract, no value).
pub record Unsigned : Type 0 where
  pub nonce : ℕ
  pub calldata : Text
  pub gas_limit : ℕ
  pub max_fee_per_gas : ℕ
  pub max_priority_fee_per_gas : ℕ
  pub authorization : Authorization

pub data Simulation : Type 0 where
  passes reverts unknown : Simulation

-- The answers of the ABI encoder, the node, the signer and the hash function; `none` is an error.
pub record Network : Type 0 where
  pub transfer_data : Authorization → Option Text
  pub call : Text → Text → Simulation
  pub latest_base_fee : Option (Option ℤ)
  pub sign_transaction : Unsigned → Option SignedTransaction
  pub keccak256 : Text → Text
  pub send_raw_transaction : Text → Option Text

pub record World : Type 0 where
  pub db : Db
  pub sent : List (ℕ × Text)

unfoldable pub service_fees : Config → Network → Result (ℕ × ℕ)
unfolding estimate_fees
service_fees config network = elim network.latest_base_fee [
  | none ↦ err unavailable
  | some none ↦ err invalid_fees
  | some (some base_fee) ↦ elim config.max_priority_fee_gas [
    | none ↦ err invalid_fees
    | some tip ↦ elim config.max_fee_per_gas [
      | none ↦ err invalid_fees
      | some ceiling ↦ elim (estimate_fees (some base_fee) (some tip) (some ceiling)) [
        | fees max_fee priority ↦ ok (max_fee, priority)
        | fee_error e ↦ err invalid_fees
      ]
    ]
  ]
]

-- A write of the store and the error that the caller gets if it succeeds, or the write's own.
abbrev pub marked : Result Db → Error → World → World × Result Text
marked (ok db) cause w = (record w { db = db }, err cause)
marked (err e) cause w = (w, err e)

abbrev pub recorded : Result Db → Text → World → World × Result Text
recorded (ok db) hash w = (record w { db = db }, ok hash)
recorded (err e) hash w = (w, err e)

-- requireBroadcastHash, of an answer that is not an error.
unfoldable pub acknowledged : Option Text → Text → Bool
unfolding equal_fold
acknowledged none expected = false
acknowledged (some returned) expected = equal_fold returned expected

abbrev refusal : Option Text → Error
refusal none = unavailable
refusal (some returned) = hash_mismatch

-- From the send on: nothing here depends on the request's context any more.
unfoldable pub send_signed : Network → Work → Text → Text → World → World × Result Text
unfolding acknowledged mark_tx_broadcast mark_tx_ambiguous
send_signed network work actor raw w =
    if acknowledged answer hash
    then recorded (mark_tx_broadcast work.payment_id work.transaction_id hash actor w.db) hash
        handed_over
    else marked (mark_tx_ambiguous work.payment_id work.transaction_id actor w.db) (refusal answer)
        handed_over
  where
    hash : Text
    hash = codes "0x" ++ network.keccak256 raw

    answer : Option Text
    answer = network.send_raw_transaction (codes "0x" ++ raw)

    handed_over : World
    handed_over = record w { sent = (work.transaction_id, raw) ∷ w.sent }

-- A transaction is sent only after the write that records its signature.
unfoldable pub send_recorded :
    Network → Work → Text → Unsigned → SignedTransaction → World → World × Result Text
unfolding mark_tx_signed send_signed
send_recorded network work actor unsigned signed w =
    elim (mark_tx_signed work.transaction_id (network.keccak256 signed.raw) signed.sighash
      unsigned.gas_limit unsigned.max_fee_per_gas unsigned.max_priority_fee_per_gas w.db) [
        | err e ↦ (w, err e)
        | ok db ↦ send_signed network work actor signed.raw (record w { db = db })
      ]

abbrev pub unsigned_transaction : Config → Work → Text → ℕ → ℕ → Unsigned
unsigned_transaction config work calldata max_fee priority_fee = record {
  nonce = work.nonce;
  calldata = calldata;
  gas_limit = config.gas_limit;
  max_fee_per_gas = max_fee;
  max_priority_fee_per_gas = priority_fee;
  authorization = work.authorization;
}

-- An authorization that is still good: build, simulate, price, sign, send.
unfoldable pub sign_and_send : Config → Network → Work → Text → World → World × Result Text
unfolding service_fees send_recorded mark_intent_unsettleable
sign_and_send config network work actor w = elim (network.transfer_data work.authorization) [
  | none ↦ (w, err invalid_calldata)
  | some calldata ↦ elim (network.call work.signer_address calldata) [
    | unknown ↦ (w, err unavailable)
    | reverts ↦
        marked (mark_intent_unsettleable work.payment_id work.transaction_id actor w.db)
          payment_unsettleable w
    | passes ↦ elim (service_fees config network) [
      | err e ↦ (w, err e)
      | ok (max_fee, priority_fee) ↦
          elim (network.sign_transaction
            (unsigned_transaction config work calldata max_fee priority_fee)) [
              | none ↦ (w, err unavailable)
              | some signed ↦
                  send_recorded network work actor
                    (unsigned_transaction config work calldata max_fee priority_fee) signed w
            ]
    ]
  ]
]

unfoldable pub broadcast_claimed : Config → Network → ℕ → Work → Text → World → World × Result Text
unfolding ambiguous_broadcast broadcast_pending sign_and_send mark_tx_ambiguous mark_intent_expired
broadcast_claimed config network now work actor w =
    if not (is_empty work.tx_hash)
    then (w, ok work.tx_hash)
    else if ambiguous_broadcast work
    then marked (mark_tx_ambiguous work.payment_id work.transaction_id actor w.db) ambiguous_outcome
        w
    else if not (broadcast_pending work)
    then (w, err unexpected_status)
    else if ltb (now + config.expiry_margin) work.authorization.valid_before
    then sign_and_send config network work actor w
    else marked (mark_intent_expired work.payment_id work.transaction_id actor w.db)
        authorization_expiring w
