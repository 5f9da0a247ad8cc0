-- ===== src/Settlement/Recovery.antt =====
-- internal/settlement/recovery.go: what recovery does with one payment. What is handed to the network
-- is kept in `sent`, with the row that it belongs to. `new_id` is the uuid that the database
-- generates if a row is inserted.
pub mod Backoff
pub mod Quiet
use facilitator.Base.{
  ℕ, ◌+◌, ◌-◌, ◌*◌, ◌^◌, ◌%◌, min, Option, none, some, ◌∷◌, ◌++◌, Text, codes, text_eq, is_empty,
  Bool, true, false, ltb, ◌==◌, ◌&&◌, if◌then◌else◌, ℤ, pos, negsuc,
}
use facilitator.Settlement.Errors.{
  Error, Result, ok, err, ◌>>=◌, ◌>>◌, guard, unavailable, invalid_fees, invalid_calldata,
  no_raw_hash, no_stored_fees, sighash_mismatch, raw_hash_mismatch, hash_mismatch,
}
use facilitator.Settlement.Fees.{bump_fees}
use facilitator.Settlement.Work.{Authorization, Work, Replacement}
use facilitator.Settlement.Service.{
  Config, Network, SignedTransaction, Unsigned, World, acknowledged,
}
use facilitator.Settlement.Confirmation.{Chain}
use facilitator.Store.Schema.{Db, Status, status_eq}
use facilitator.Store.Load.{load_settlement_work}
use facilitator.Store.Recovery.{
  mark_tx_recovered_broadcast, mark_ambiguous_retry, mark_tx_ambiguous_replaced, mark_tx_replaced,
}

-- The settings that recovery reads.
pub record RecoveryConfig : Type 0 where
  pub service_config : Config
  pub signer_address : Text
  pub recovery_grace : ℕ
  pub replacement_after : ℕ
  pub confirmations : ℕ
  pub lease_duration : ℕ

-- What recovery asks of the outside: `knows` is eth_getTransactionByHash.
pub record Surroundings : Type 0 where
  pub network : Network
  pub chain : Chain
  pub knows : Text → Option Bool

abbrev pub Step : Type 0
Step = World → World × Result (Unit {0})

-- A write of the store, alone.
abbrev pub stored : Result Db → Step
stored (ok db) w = (record w { db = db }, ok tt)
stored (err e) w = (w, err e)

-- `grace << shift` of an int64.
unfoldable pub ambiguous_retry_delay : ℕ → ℕ → ℤ
ambiguous_retry_delay attempts grace =
    let word = (grace * 2 ^ min attempts 5) % 2 ^ 64 in
    if ltb word (2 ^ 63) then pos word else negsuc (2 ^ 64 - word - 1)

-- DBNow.Before(TransactionUpdatedAt.Add(delay)).
unfoldable pub in_backoff : ℕ → ℕ → ℤ → Bool
in_backoff now updated_at (pos delay) = ltb now (updated_at + delay)
in_backoff now updated_at (negsuc n) = ltb (now + n + 1) updated_at

-- The stored fields of the transaction as it was signed; `none` if one of them is missing.
unfoldable pub stored_fees : Work → Option (ℕ × ℕ)
stored_fees work = elim work.max_fee_per_gas [
  | none ↦ none
  | some max_fee ↦ elim work.max_priority_fee_per_gas [
    | none ↦ none
    | some priority ↦ if work.gas_limit == 0 then none else some (max_fee, priority)
  ]
]

-- The same nonce, gas limit and calldata as the row, with these fees.
abbrev pub resigned : Work → Text → ℕ → ℕ → Unsigned
resigned work calldata max_fee priority = record {
  nonce = work.nonce;
  calldata = calldata;
  gas_limit = work.gas_limit;
  max_fee_per_gas = max_fee;
  max_priority_fee_per_gas = priority;
  authorization = work.authorization;
}

abbrev pub sign : Network → Authorization → (Text → Unsigned) → Result SignedTransaction
sign network authorization build = elim (network.transfer_data authorization) [
  | none ↦ err invalid_calldata
  | some calldata ↦ elim (network.sign_transaction (build calldata)) [
    | none ↦ err unavailable
    | some signed ↦ ok signed
  ]
]

-- The signed bytes and their hash, if they are the transaction that the row records.
unfoldable pub sign_identical : Network → Work → ℕ → ℕ → Result (Text × Text)
unfolding text_eq
sign_identical network work max_fee priority = do
  signed ← sign network work.authorization (λ calldata. resigned work calldata max_fee priority)
  guard (if is_empty work.sighash then true else text_eq signed.sighash work.sighash)
      sighash_mismatch
  guard
      (if is_empty work.sighash then text_eq (network.keccak256 signed.raw) work.raw_hash else true)
      raw_hash_mismatch
  ok (signed.raw, network.keccak256 signed.raw)

abbrev pub replacement_of : Work → Text → ℕ → ℕ → Replacement
replacement_of work raw_hash max_fee priority = record {
  nonce = work.nonce;
  tx_hash = codes "0x" ++ raw_hash;
  raw_hash = raw_hash;
  gas_limit = work.gas_limit;
  max_fee = max_fee;
  priority_fee = priority;
  signer_address = work.signer_address;
}

abbrev pub hand_over : ℕ → Text → World → World
hand_over id raw w = record w { sent = (id, raw) ∷ w.sent }

abbrev send_error : Option Text → Error
send_error none = unavailable
send_error (some returned) = hash_mismatch

-- SendRawTransaction and requireBroadcastHash.
unfoldable pub send : Network → ℕ → Text → Text → Step
unfolding acknowledged
send network id raw expected w =
    (hand_over id raw w, if acknowledged answer expected then ok tt else err (send_error answer))
  where
    answer : Option Text
    answer = network.send_raw_transaction (codes "0x" ++ raw)

-- Recorded, then sent.
abbrev pub then_send : Result Db → Network → ℕ → Text → Text → Step
then_send (ok db) network id raw expected w = send network id raw expected (record w { db = db })
then_send (err e) network id raw expected w = (w, err e)

-- The bytes are the recorded ones: the row is found again, or its retry counted. Of two errors that the
-- source joins, the second is returned.
unfoldable pub rebroadcast : Network → Work → Text → Text → Step
unfolding send mark_tx_recovered_broadcast mark_ambiguous_retry
rebroadcast network work actor raw w =
    let (sent, answer) = send network work.transaction_id raw (codes "0x" ++ work.raw_hash) w in
    elim answer [
      | ok u ↦
          stored
            (mark_tx_recovered_broadcast work.payment_id work.transaction_id
              (codes "0x" ++ work.raw_hash) actor sent.db)
            sent
      | err e ↦ elim (mark_ambiguous_retry work.payment_id work.transaction_id sent.db) [
        | ok db ↦ (record sent { db = db }, err e)
        | err e' ↦ (sent, err e')
      ]
    ]

-- Signed again, and either the same bytes or a replacement of the same transaction.
unfoldable pub resend : Network → ℕ → Work → Text → ℕ → ℕ → Text × Text → Step
unfolding rebroadcast mark_tx_ambiguous_replaced send
resend network new_id work actor max_fee priority (raw, raw_hash) w =
    if text_eq raw_hash work.raw_hash
    then rebroadcast network work actor raw w
    else then_send
        (mark_tx_ambiguous_replaced new_id work.payment_id work.transaction_id
          (replacement_of work raw_hash max_fee priority) actor w.db)
        network new_id raw (codes "0x" ++ raw_hash) w

unfoldable pub resign : RecoveryConfig → Network → ℕ → Work → Text → Step
unfolding ambiguous_retry_delay in_backoff stored_fees sign_identical resend
resign config network new_id work actor w =
    if in_backoff work.db_now work.transaction_updated_at
      (ambiguous_retry_delay work.ambiguous_attempts config.recovery_grace)
    then (w, ok tt)
    else elim (stored_fees work) [
      | none ↦ (w, err no_stored_fees)
      | some (max_fee, priority) ↦ elim (sign_identical network work max_fee priority) [
        | err e ↦ (w, err e)
        | ok signed ↦ resend network new_id work actor max_fee priority signed w
      ]
    ]

unfoldable pub resolve_ambiguous : RecoveryConfig → Surroundings → ℕ → Work → Text → Step
unfolding resign mark_tx_recovered_broadcast
resolve_ambiguous config outside new_id work actor w =
    if is_empty work.raw_hash
    then (w, err no_raw_hash)
    else elim (outside.chain.transaction_receipt tx_hash) [
      | none ↦ (w, err unavailable)
      | some (some receipt) ↦ found
      | some none ↦ elim (outside.knows tx_hash) [
        | none ↦ (w, err unavailable)
        | some true ↦ found
        | some false ↦ resign config outside.network new_id work actor w
      ]
    ]
  where
    tx_hash : Text
    tx_hash = codes "0x" ++ work.raw_hash

    found : World × Result (Unit {0})
    found =
        stored (mark_tx_recovered_broadcast work.payment_id work.transaction_id tx_hash actor w.db)
          w

-- `none` inside: the ceiling leaves no room.
unfoldable pub replacement_fees : Config → Network → ℕ → ℕ → Result (Option (ℕ × ℕ))
unfolding bump_fees
replacement_fees config network old_max old_tip = elim network.latest_base_fee [
  | none ↦ err unavailable
  | some none ↦ err invalid_fees
  | some (some base_fee) ↦ elim config.max_fee_per_gas [
    | none ↦ err invalid_fees
    | some ceiling ↦
        ok (bump_fees (some (pos old_max)) (some (pos old_tip)) (some base_fee) (some ceiling))
  ]
]

unfoldable pub sign_replacement : Network → Work → ℕ → ℕ → Result (SignedTransaction × Replacement)
sign_replacement network work max_fee priority = do
  signed ← sign network work.authorization (λ calldata. resigned work calldata max_fee priority)
  ok (signed, replacement_of work (network.keccak256 signed.raw) max_fee priority)

-- Priced and signed; `none` leaves the transaction pending.
unfoldable pub price_replacement :
    Config → Network → Work → ℕ → ℕ → Result (Option (SignedTransaction × Replacement))
unfolding replacement_fees sign_replacement
price_replacement config network work old_max old_tip = do
  priced ← replacement_fees config network old_max old_tip
  elim priced [
    | none ↦ ok none
    | some (max_fee, priority) ↦ do
      signed ← sign_replacement network work max_fee priority
      ok (some signed)
  ]

unfoldable pub replace_stuck : RecoveryConfig → Network → ℕ → Work → Text → Step
unfolding stored_fees price_replacement mark_tx_replaced send
replace_stuck config network new_id work actor w = elim (stored_fees work) [
  | none ↦ (w, ok tt)
  | some (old_max, old_tip) ↦
      elim (price_replacement config.service_config network work old_max old_tip) [
        | err e ↦ (w, err e)
        | ok none ↦ (w, ok tt)
        | ok (some (signed, replacement)) ↦
            then_send
              (mark_tx_replaced new_id work.payment_id work.transaction_id replacement actor w.db)
              network new_id signed.raw replacement.tx_hash w
      ]
]

-- DBNow.Sub(BroadcastAttemptedAt) > ReplacementAfter, where a time was recorded.
unfoldable pub is_stuck : RecoveryConfig → Work → Bool
unfolding status_eq
is_stuck config work =
    status_eq work.transaction_status Status.broadcast && elim work.broadcast_attempted_at [
      | none ↦ false
      | some at ↦ ltb (at + config.replacement_after) work.db_now
    ]

unfoldable pub recover_payment : RecoveryConfig → Surroundings → ℕ → ℕ → Text → Step
unfolding load_settlement_work resolve_ambiguous replace_stuck is_stuck status_eq
recover_payment config outside new_id payment_id actor w =
    elim (load_settlement_work payment_id w.db) [
      | err e ↦ (w, err e)
      | ok work ↦
          if status_eq work.transaction_status Status.ambiguous
          then resolve_ambiguous config outside new_id work actor w
          else if is_stuck config work
          then replace_stuck config outside.network new_id work actor w
          else (w, ok tt)
    ]
