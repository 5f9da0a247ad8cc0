-- ===== src/Settlement/Sweep/Items.antt =====
-- internal/settlement/recovery.go: what a pass does with one item is within the actions.
use facilitator.Base.{
  ℕ, ◌+◌, ◌≡◌, refl, ◌∙◌, some, List, [], ◌∷◌, ◌++◌, map, Memᴰ, Text, codes, inr, ◌==◌, ltb, All,
}
use facilitator.Settlement.Errors.{Result, ok, err}
use facilitator.Settlement.Work.{Work, Lease, TrackedTransaction}
use facilitator.Settlement.Confirmation.{Receipt, receipt_depth}
use facilitator.Settlement.Service.{Config, World, service_fees, unsigned_transaction}
use facilitator.Settlement.Recovery.{Surroundings, stored, send, price_replacement}
use facilitator.Settlement.Sweep.{
  Moment, logged, let_go, if_leased, fee_pair, under_lease, each, fill_nonce_gap,
  bump_stuck_gap_filler, observe_replacement, resend_gap_filler, observe_gap_filler,
}
use facilitator.Settlement.Sweep.Actions.{
  bytes_column, claims_one, releases, lands, resolves, escalates, fills, bumps, with_db,
}
use facilitator.Settlement.Sweep.Runs.{
  Runs, RunsTo, nothing-Runs, idle-RunsTo, then-Runs, after-Runs, Write-Runs, stored-RunsTo,
  listed-Runs, then_send-RunsTo, if-by, option-by, result-by, offer-by, reading-by, known-by,
}
use facilitator.Settlement.Sweep.Hashes.{price_replacement-hash}
use facilitator.Store.Schema.{Status, Db, status_eq}
use facilitator.Store.Lease.{claim_payment, release_lease}
use facilitator.Store.Recovery.{mark_replacement_landed}
use facilitator.Store.Fillers.{
  mark_gap_filler_prepared, mark_gap_filler_replaced, mark_gap_filler_resolved,
  mark_gap_filler_succeeded,
}

module _ (keccak : Text → Text) (u : Db) where
  pub let_go-Runs :
      (payment_id : ℕ) (identity : Text) (w : World)
      → Runs keccak u w (let_go payment_id identity w)
  let_go-Runs payment_id identity w =
      after-Runs keccak u w (stored (release_lease payment_id identity w.db) w) (
        stored-RunsTo keccak u w (release_lease payment_id identity w.db)
          (λ d at_d. releases payment_id identity at_d))

  pub under_lease-Runs :
      (identity : Text) (duration now payment_id : ℕ) (visit : World → World) (w : World)
      → ((v : World) → Runs keccak u v (visit v))
      → Runs keccak u w (under_lease identity duration now payment_id visit w)
  unfolding under_lease
  under_lease-Runs identity duration now payment_id visit w each_ =
      leased (claim_payment payment_id identity duration (some now) w.db) refl
    where
      leased :
          (r : Result (Lease × Db))
          → claim_payment payment_id identity duration (some now) w.db ≡ r
          → Runs keccak u w (if_leased r w (λ held. let_go payment_id identity (visit held)))
      leased (err e) at_r = nothing-Runs keccak u w
      leased (ok (lease, db)) at_r =
          then-Runs keccak u w (with_db w db) _
            (Write-Runs keccak u w db
              (claims_one payment_id identity duration (some now) lease at_r))
            (then-Runs keccak u (with_db w db) (visit (with_db w db)) _ (each_ (with_db w db))
              (let_go-Runs payment_id identity (visit (with_db w db))))

  pub each-Runs :
      {A : Type 0} (Listed : A → Type 0) (visit : Moment → A → World → World) (moments : ℕ → Moment)
      (k : ℕ) (items : List A) (w : World)
      → ((k : ℕ) (a : A) (v : World) → Listed a → Runs keccak u v (visit (moments k) a v))
      → All Listed items
      → Runs keccak u w (each visit moments k items w)
  unfolding each
  each-Runs Listed visit moments k [] w step listed = nothing-Runs keccak u w
  each-Runs Listed visit moments k (a ∷ items) w step listed =
      if-by (Runs keccak u w) (moments k).cancelled _ _ (λ stop. nothing-Runs keccak u w)
        (λ go.
          then-Runs keccak u w (visit (moments k) a w) _ (step k a w listed.0)
            (each-Runs Listed visit moments (k + 1) items (visit (moments k) a w) step listed.1))

  pub observe_replacement-Runs :
      (confirmations : ℕ) (outside : Surroundings) (t : TrackedTransaction) (w : World)
      → Runs keccak u w (observe_replacement confirmations outside t w)
  unfolding observe_replacement
  observe_replacement-Runs confirmations outside t w =
      reading-by (Runs keccak u w) (outside.chain.transaction_receipt t.tx_hash) _ _ _
        (nothing-Runs keccak u w) (nothing-Runs keccak u w)
        (λ receipt.
          if-by (Runs keccak u w) (receipt.status == 1) _ _ (λ succeeded. landed-Runs receipt)
            (λ other.
              option-by (Runs keccak u w) outside.chain.block_number _ _ (nothing-Runs keccak u w)
                (λ current at_c.
                  if-by (Runs keccak u w) (ltb (receipt_depth current receipt) confirmations) _ _
                    (λ shallow. nothing-Runs keccak u w) (λ deep. landed-Runs receipt))))
    where
      landed : Receipt → Result Db
      landed receipt =
          mark_replacement_landed t.payment_id t.transaction_id (receipt.status == 1)
            receipt.block_number receipt.block_hash receipt.gas_used receipt.effective_gas_price
            (codes "worker") w.db

      landed-Runs : (receipt : Receipt) → Runs keccak u w (logged (stored (landed receipt) w))
      landed-Runs receipt = after-Runs keccak u w (stored (landed receipt) w) (
          stored-RunsTo keccak u w (landed receipt) (λ d at_d.
            lands t.payment_id t.transaction_id (receipt.status == 1) receipt.block_number
              receipt.block_hash receipt.gas_used receipt.effective_gas_price (codes "worker")
              at_d))

  module _ (outside : Surroundings)
      (hashes : (x : Text) → outside.network.keccak256 x ≡ keccak x) where
    pub fill_nonce_gap-RunsTo :
        (config : Config) (work : Work) (w : World)
        → RunsTo keccak u w (fill_nonce_gap config outside.network work w)
    unfolding fill_nonce_gap
    fill_nonce_gap-RunsTo config work w =
        option-by (RunsTo keccak u w) (outside.network.transfer_data work.authorization) _ _
          (idle-RunsTo keccak u w _)
          (λ calldata at_c.
            result-by (RunsTo keccak u w) (service_fees config outside.network) _ _
              (λ e. idle-RunsTo keccak u w _)
              (λ fees at_f.
                option-by (RunsTo keccak u w)
                  (outside.network.sign_transaction
                    (unsigned_transaction config work calldata fees.0 fees.1))
                  _ _ (idle-RunsTo keccak u w _)
                  (λ signed at_s.
                    let raw_hash = outside.network.keccak256 signed.raw in
                    then_send-RunsTo keccak u w
                      (mark_gap_filler_prepared work.transaction_id raw_hash
                        (codes "0x" ++ raw_hash) signed.raw config.gas_limit fees.0 fees.1 w.db)
                      outside.network work.transaction_id signed.raw (codes "0x" ++ raw_hash)
                      (λ d at_d.
                        fills raw_hash (codes "0x" ++ raw_hash) config.gas_limit fees.0 fees.1
                          (hashes signed.raw) at_d))))

    pub bump_stuck_gap_filler-RunsTo :
        (config : Config) (new_id : ℕ) (work : Work) (w : World)
        → RunsTo keccak u w (bump_stuck_gap_filler config outside.network new_id work w)
    unfolding bump_stuck_gap_filler
    bump_stuck_gap_filler-RunsTo config new_id work w =
        option-by (RunsTo keccak u w) (fee_pair work) _ _ (idle-RunsTo keccak u w _)
          (λ fees at_fees.
            offer-by (RunsTo keccak u w)
              (price_replacement config outside.network work fees.0 fees.1) _ _ _
              (λ e. idle-RunsTo keccak u w _) (idle-RunsTo keccak u w _)
              (λ signed r at_r.
                then_send-RunsTo keccak u w
                  (mark_gap_filler_replaced new_id work.payment_id work.transaction_id r signed.raw
                    w.db)
                  outside.network new_id signed.raw r.tx_hash
                  (λ d at_d.
                    bumps work.payment_id work.transaction_id r
                      (price_replacement-hash config outside.network work fees.0 fees.1 signed r
                          at_r
                        ∙ hashes signed.raw)
                      at_d)))

  -- A filler that the pass has listed.
  abbrev pub Listed : TrackedTransaction → Type 0
  Listed t = Memᴰ (t.transaction_id, some t.raw_transaction) (map bytes_column u.transactions)

  resend_gap_filler-Runs :
      (outside : Surroundings) (t : TrackedTransaction) (w : World)
      → Listed t
      → Runs keccak u w (resend_gap_filler outside t w)
  unfolding resend_gap_filler send
  resend_gap_filler-Runs outside t w listed =
      if-by (Runs keccak u w) (status_eq t.status Status.replaced) _ _
        (λ old. nothing-Runs keccak u w)
        (λ new.
          known-by (Runs keccak u w) (outside.knows t.tx_hash) _ _ _ (nothing-Runs keccak u w)
            (nothing-Runs keccak u w)
            (listed-Runs keccak u w t.transaction_id t.raw_transaction (inr listed)))

  pub observe_gap_filler-Runs :
      (outside : Surroundings) (t : TrackedTransaction) (w : World)
      → Listed t
      → Runs keccak u w (observe_gap_filler outside t w)
  unfolding observe_gap_filler
  observe_gap_filler-Runs outside t w listed =
      reading-by (Runs keccak u w) (outside.chain.transaction_receipt t.tx_hash) _ _ _
        (nothing-Runs keccak u w) (resend_gap_filler-Runs outside t w listed)
        (λ receipt.
          if-by (Runs keccak u w) (receipt.status == 1) _ _
            (λ succeeded. after-Runs keccak u w _ (
              stored-RunsTo keccak u w
                (mark_gap_filler_succeeded t.payment_id t.transaction_id receipt.block_number
                  receipt.block_hash receipt.gas_used receipt.effective_gas_price (codes "worker")
                  w.db)
                (λ d at_d.
                  escalates t.payment_id t.transaction_id receipt.block_number receipt.block_hash
                    receipt.gas_used receipt.effective_gas_price (codes "worker") at_d)))
            (λ other. after-Runs keccak u w _ (
              stored-RunsTo keccak u w
                (mark_gap_filler_resolved t.transaction_id receipt.gas_used
                  receipt.effective_gas_price w.db)
                (λ d at_d.
                  resolves t.transaction_id receipt.gas_used receipt.effective_gas_price at_d))))
