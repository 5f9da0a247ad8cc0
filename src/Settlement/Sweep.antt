-- ===== src/Settlement/Sweep.antt =====
-- internal/settlement/recovery.go: the passes of the recovery worker. Errors are logged and the pass
-- goes on; a pass that is cancelled stops. `Moment` is what one item of a pass finds around it.
pub mod Actions
pub mod OnFile
pub mod Runs
pub mod Hashes
pub mod Payment
pub mod Items
pub mod Listing
pub mod Passes
pub mod Round
use facilitator.Base.{
  ℕ, ◌+◌, ◌-◌, Option, none, some, List, [], ◌∷◌, ◌++◌, Text, codes, Bool, true, false, ltb, ◌==◌,
  if◌then◌else◌,
}
use facilitator.Settlement.State.{State}
use facilitator.Settlement.Errors.{
  Error, Result, ok, err, lease_lost, invalid_calldata, invalid_fees, unavailable,
}
use facilitator.Settlement.Work.{Work, Lease, ClaimRequest, TrackedTransaction}
use facilitator.Settlement.Service.{
  Config, Network, SignedTransaction, World, service_fees, unsigned_transaction,
}
use facilitator.Settlement.Confirmation.{Receipt, receipt_depth}
use facilitator.Settlement.Recovery.{
  RecoveryConfig, Surroundings, Step, stored, hand_over, send, then_send, price_replacement,
  recover_payment,
}
use facilitator.Store.Schema.{Db, Status, status_eq}
use facilitator.Store.Lease.{claim_payment, claim_payments, renew_lease, release_lease}
use facilitator.Store.Recovery.{mark_replacement_landed}
use facilitator.Store.Fillers.{
  mark_gap_filler_prepared, mark_gap_filler_replaced, mark_gap_filler_resolved,
  mark_gap_filler_succeeded,
}
use facilitator.Store.Watch.{
  list_replaced_pending, list_dropped_blocking_gaps, list_gap_fillers, list_stuck_gap_fillers,
}

-- The clock, the answers of the node and the signer, the uuid of a row that is inserted, and whether
-- the pass has been cancelled.
pub record Moment : Type 0 where
  pub now : ℕ
  pub outside : Surroundings
  pub new_id : ℕ
  pub cancelled : Bool

-- What a logged error leaves behind.
abbrev pub logged {ℓ} : {A : Type ℓ} → World × A → World
logged (w, r) = w

-- Service.release.
abbrev pub let_go : ℕ → Text → World → World
let_go payment_id worker w = logged (stored (release_lease payment_id worker w.db) w)

abbrev pub if_leased {ℓ} : {A : Type ℓ} → Result (A × Db) → World → (World → World) → World
if_leased (err e) w visit = w
if_leased (ok (lease, db)) w visit = visit (record w { db = db })

-- underLease.
unfoldable pub under_lease : Text → ℕ → ℕ → ℕ → (World → World) → World → World
unfolding claim_payment release_lease
under_lease identity duration now payment_id visit w =
    if_leased (claim_payment payment_id identity duration (some now) w.db) w
      (λ held. let_go payment_id identity (visit held))

-- The loop of a pass.
unfoldable pub each {ℓ} :
    {A : Type ℓ} → (Moment → A → World → World) → (ℕ → Moment) → ℕ → List A → World → World
each visit moments k [] w = w
each visit moments k (a ∷ items) w =
    let rest = each visit moments (k + 1) items (visit (moments k) a w) in
    if (moments k).cancelled then w else rest

abbrev pub if_listed {ℓ} : {A : Type ℓ} → Result (List A) → World → (List A → World) → World
if_listed (err e) w visit = w
if_listed (ok items) w visit = visit items

unfoldable pub fill_nonce_gap : Config → Network → Work → Step
unfolding service_fees mark_gap_filler_prepared send
fill_nonce_gap config network work w = elim (network.transfer_data work.authorization) [
  | none ↦ (w, err invalid_calldata)
  | some calldata ↦ elim (service_fees config network) [
    | err e ↦ (w, err e)
    | ok (max_fee, priority) ↦
        elim (network.sign_transaction
          (unsigned_transaction config work calldata max_fee priority)) [
            | none ↦ (w, err unavailable)
            | some signed ↦
                then_send
                  (mark_gap_filler_prepared work.transaction_id (network.keccak256 signed.raw)
                    (codes "0x" ++ network.keccak256 signed.raw) signed.raw config.gas_limit max_fee
                    priority w.db)
                  network work.transaction_id signed.raw
                  (codes "0x" ++ network.keccak256 signed.raw) w
          ]
  ]
]

-- The stored fees of a row; SetString refuses the empty text.
abbrev pub fee_pair : Work → Option (ℕ × ℕ)
fee_pair work = elim work.max_fee_per_gas [
  | none ↦ none
  | some max_fee ↦ elim work.max_priority_fee_per_gas [
    | none ↦ none
    | some tip ↦ some (max_fee, tip)
  ]
]

unfoldable pub bump_stuck_gap_filler : Config → Network → ℕ → Work → Step
unfolding price_replacement mark_gap_filler_replaced send
bump_stuck_gap_filler config network new_id work w = elim (fee_pair work) [
  | none ↦ (w, err invalid_fees)
  | some (old_max, old_tip) ↦ elim (price_replacement config network work old_max old_tip) [
    | err e ↦ (w, err e)
    | ok none ↦ (w, ok tt)
    | ok (some (signed, replacement)) ↦
        then_send
          (mark_gap_filler_replaced new_id work.payment_id work.transaction_id replacement
            signed.raw w.db)
          network new_id signed.raw replacement.tx_hash w
  ]
]

-- A receipt of the superseded original, once a revert is as deep as a confirmation must be.
unfoldable pub observe_replacement : ℕ → Surroundings → TrackedTransaction → World → World
unfolding receipt_depth mark_replacement_landed
observe_replacement confirmations outside t w = elim (outside.chain.transaction_receipt t.tx_hash) [
  | none ↦ w
  | some none ↦ w
  | some (some receipt) ↦
      if receipt.status == 1 then landed receipt else elim outside.chain.block_number [
        | none ↦ w
        | some current ↦
            if ltb (receipt_depth current receipt) confirmations then w else landed receipt
      ]
]
  where
    landed : Receipt → World
    landed receipt = logged (
        stored
          (mark_replacement_landed t.payment_id t.transaction_id (receipt.status == 1)
            receipt.block_number receipt.block_hash receipt.gas_used receipt.effective_gas_price
            (codes "worker") w.db)
          w)

-- A filler with no receipt is sent again, as it was signed, unless the node knows it.
unfoldable pub resend_gap_filler : Surroundings → TrackedTransaction → World → World
unfolding status_eq send
resend_gap_filler outside t w =
    if status_eq t.status Status.replaced then w else elim (outside.knows t.tx_hash) [
      | none ↦ w
      | some true ↦ w
      | some false ↦ logged (send outside.network t.transaction_id t.raw_transaction t.tx_hash w)
    ]

unfoldable pub observe_gap_filler : Surroundings → TrackedTransaction → World → World
unfolding resend_gap_filler mark_gap_filler_succeeded mark_gap_filler_resolved
observe_gap_filler outside t w = elim (outside.chain.transaction_receipt t.tx_hash) [
  | none ↦ w
  | some none ↦ resend_gap_filler outside t w
  | some (some receipt) ↦
      if receipt.status == 1
      then logged (
          stored
            (mark_gap_filler_succeeded t.payment_id t.transaction_id receipt.block_number
              receipt.block_hash receipt.gas_used receipt.effective_gas_price (codes "worker") w.db)
            w)
      else logged (
          stored
            (mark_gap_filler_resolved t.transaction_id receipt.gas_used receipt.effective_gas_price
              w.db)
            w)
]

unfoldable pub is_lost : Error → Bool
is_lost lease_lost = true
is_lost _ = false

module _ (config : RecoveryConfig) (identity : Text) where
  -- The loop that four of the passes share: each row that the query lists, under the payment's lease.
  unfoldable pub each_leased :
      {A : Type 0}
      → (A → ℕ)
      → (Moment → A → World → World)
      → (ℕ → Moment)
      → Result (List A)
      → World
      → World
  unfolding each under_lease
  each_leased payment_id visit moments listed w = if_listed listed w (λ items.
      each (λ m a. under_lease identity config.lease_duration m.now (payment_id a) (visit m a))
        moments 0 items w)

  unfoldable pub observe_replacements : (ℕ → Moment) → World → World
  unfolding list_replaced_pending each_leased observe_replacement
  observe_replacements moments w =
      each_leased (λ t. t.payment_id) (λ m t. observe_replacement config.confirmations m.outside t)
        moments (list_replaced_pending w.db) w

  -- `started` is the clock when the pass begins.
  unfoldable pub fill_nonce_gaps : ℕ → (ℕ → Moment) → World → World
  unfolding list_dropped_blocking_gaps each_leased fill_nonce_gap
  fill_nonce_gaps started moments w =
      each_leased (λ work. work.payment_id)
        (λ m work v. logged (fill_nonce_gap config.service_config m.outside.network work v)) moments
        (list_dropped_blocking_gaps config.signer_address
          (started - config.service_config.expiry_margin) w.db)
        w

  unfoldable pub observe_gap_fillers : (ℕ → Moment) → World → World
  unfolding list_gap_fillers each_leased observe_gap_filler
  observe_gap_fillers moments w =
      each_leased (λ t. t.payment_id) (λ m t. observe_gap_filler m.outside t) moments
        (list_gap_fillers w.db) w

  unfoldable pub bump_stuck_gap_fillers : (ℕ → Moment) → World → World
  unfolding list_stuck_gap_fillers each_leased bump_stuck_gap_filler
  bump_stuck_gap_fillers moments w =
      each_leased (λ work. work.payment_id)
        (λ m work v.
          logged (bump_stuck_gap_filler config.service_config m.outside.network m.new_id work v))
        moments (list_stuck_gap_fillers config.signer_address config.replacement_after w.db) w

  -- A lease that cannot be renewed is left if it is lost, and released otherwise.
  unfoldable pub if_renewed : Result (ℕ × Db) → ℕ → (World → World) → World → World
  unfolding release_lease is_lost
  if_renewed (ok (until, db)) payment_id visit w =
      let_go payment_id identity (visit (record w { db = db }))
  if_renewed (err e) payment_id visit w = if is_lost e then w else let_go payment_id identity w

  unfoldable pub recover_lease : Moment → Lease → World → World
  unfolding renew_lease if_renewed recover_payment
  recover_lease m lease w =
      if_renewed (renew_lease lease.payment_id identity (some m.now) config.lease_duration w.db)
        lease.payment_id
        (λ v.
          logged (recover_payment config m.outside m.new_id lease.payment_id (codes "worker") v))
        w

  -- workerBatch is 8.
  abbrev pub recovery_claim : ℕ → ClaimRequest
  recovery_claim started = record {
    worker = identity;
    states = State.manual_review ∷ State.broadcast ∷ State.replaced ∷ [];
    duration = config.lease_duration;
    limit = 8;
    now = some started;
  }

  unfoldable pub recover_leased : ℕ → (ℕ → Moment) → World → World
  unfolding claim_payments each recover_lease
  recover_leased started moments w = elim (claim_payments (recovery_claim started) w.db) [
    | err e ↦ w
    | ok (leases, db) ↦ each recover_lease moments 0 leases (record w { db = db })
  ]

  -- The five passes, each with its own clock and surroundings.
  unfoldable pub process : (ℕ → ℕ) → (ℕ → ℕ → Moment) → World → World
  unfolding recover_leased observe_replacements fill_nonce_gaps observe_gap_fillers
      bump_stuck_gap_fillers
  process started moments w = bump_stuck_gap_fillers (moments 4) (
      observe_gap_fillers (moments 3) (
        fill_nonce_gaps (started 2) (moments 2)
          (observe_replacements (moments 1) (recover_leased (started 0) (moments 0) w))))
