-- ===== src/Settlement/Confirmation.antt =====
-- internal/settlement/wait.go and Confirmation of service.go: what the chain says of a transaction.
-- One reading of the chain is a parameter; an outer `none` is an error of the node.
pub mod Agreement
use facilitator.Base.{
  ℕ, ◌+◌, ◌-◌, ◌%◌, ◌^◌, Option, none, some, List, [], ◌∷◌, Text, equal_fold, is_empty, Bool, true,
  false, not, ltb, leb, ◌==◌, if◌then◌else◌,
}
use facilitator.Settlement.Errors.{Error, Result, ok, err, ◌>>=◌, unavailable, no_transaction_hash}
use facilitator.Settlement.Work.{Work}
use facilitator.Store.Schema.{Db, Status, status_eq}
use facilitator.Store.Load.{load_settlement_work}
use facilitator.Store.Broadcast.{mark_tx_confirming, mark_tx_confirmed, mark_tx_reverted}
use facilitator.Store.Recovery.{mark_tx_reorged_out}

pub record Receipt : Type 0 where
  pub status : ℕ
  pub block_number : ℕ
  pub block_hash : Text
  pub gas_used : ℕ
  pub effective_gas_price : ℕ

pub record Chain : Type 0 where
  pub transaction_receipt : Text → Option (Option Receipt)
  -- The hash of the canonical block.
  pub block_by_number : ℕ → Option Text
  pub block_number : Option ℕ

pub data Observation : Type 0 where
  observation_pending : Observation
  observation_confirmed observation_reverted : Receipt → Observation

-- In 64 bits: a head below the receipt's block has depth 0.
unfoldable pub receipt_depth : ℕ → Receipt → ℕ
receipt_depth current receipt =
    if leb receipt.block_number current then (current - receipt.block_number + 1) % 2 ^ 64 else 0

unfoldable pub observe_settlement : ℕ → Chain → Text → Option Observation
unfolding receipt_depth equal_fold
observe_settlement confirmations chain tx_hash = elim (chain.transaction_receipt tx_hash) [
  | none ↦ none
  | some none ↦ some observation_pending
  | some (some receipt) ↦ elim (chain.block_by_number receipt.block_number) [
    | none ↦ none
    | some canonical ↦
        if not (equal_fold canonical receipt.block_hash)
        then some observation_pending
        else elim chain.block_number [
          | none ↦ none
          | some current ↦
              if ltb (receipt_depth current receipt) confirmations
              then some observation_pending
              else (if receipt.status == 0
                  then some (observation_reverted receipt)
                  else some (observation_confirmed receipt))
        ]
  ]
]

-- The polls until the deadline, each with its own reading of the chain.
poll : ℕ → List Chain → Text → Observation
unfolding observe_settlement
poll confirmations [] tx_hash = observation_pending
poll confirmations (c ∷ cs) tx_hash = elim (observe_settlement confirmations c tx_hash) [
  | none ↦ poll confirmations cs tx_hash
  | some observation_pending ↦ poll confirmations cs tx_hash
  | some (observation_confirmed r) ↦ observation_confirmed r
  | some (observation_reverted r) ↦ observation_reverted r
]

unfoldable pub wait_for_settlement : ℕ → ℕ → List Chain → Text → Observation
unfolding poll
wait_for_settlement response_wait confirmations readings tx_hash =
    if response_wait == 0 then observation_pending else poll confirmations readings tx_hash

-- A transaction with no canonical receipt: one that had been seen is put back.
unfoldable pub unseen : Work → ℕ → Text → Db → Result Db
unfolding status_eq mark_tx_reorged_out
unseen work payment_id actor db =
    if status_eq work.transaction_status Status.confirming
    then mark_tx_reorged_out payment_id work.transaction_id actor db
    else ok db

unfoldable pub confirm_work : ℕ → Chain → ℕ → Work → Text → Db → Result Db
unfolding receipt_depth equal_fold unseen mark_tx_confirming mark_tx_confirmed mark_tx_reverted
confirm_work confirmations chain payment_id work actor db =
    elim (chain.transaction_receipt work.tx_hash) [
      | none ↦ err unavailable
      | some none ↦ unseen work payment_id actor db
      | some (some receipt) ↦ elim (chain.block_by_number receipt.block_number) [
        | none ↦ err unavailable
        | some canonical ↦
            if not (equal_fold canonical receipt.block_hash)
            then unseen work payment_id actor db
            else elim chain.block_number [
              | none ↦ err unavailable
              | some current ↦
                  if ltb (receipt_depth current receipt) confirmations
                  then mark_tx_confirming payment_id work.transaction_id receipt.block_number
                      receipt.block_hash actor db
                  else if receipt.status == 0
                  then mark_tx_reverted payment_id work.transaction_id receipt.gas_used
                      receipt.effective_gas_price actor db
                  else mark_tx_confirmed payment_id work.transaction_id receipt.block_number
                      receipt.block_hash receipt.gas_used receipt.effective_gas_price actor db
            ]
      ]
    ]

unfoldable pub confirmation : ℕ → Chain → ℕ → Text → Db → Result Db
unfolding load_settlement_work confirm_work
confirmation confirmations chain payment_id actor db = do
  work ← load_settlement_work payment_id db
  if is_empty work.tx_hash
      then err no_transaction_hash
      else confirm_work confirmations chain payment_id work actor db
