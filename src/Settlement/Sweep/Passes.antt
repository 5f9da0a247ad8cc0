-- ===== src/Settlement/Sweep/Passes.antt =====
-- internal/settlement/recovery.go: each pass of the recovery worker is a run of its actions.
use facilitator.Base.{ℕ, ◌≡◌, refl, some, List, Text, codes, All}
use facilitator.Settlement.Errors.{Result, ok, err}
use facilitator.Settlement.Service.{World}
use facilitator.Settlement.Recovery.{RecoveryConfig, recover_payment}
use facilitator.Settlement.Sweep.{
  Moment, logged, is_lost, each_leased, under_lease, fill_nonce_gap, bump_stuck_gap_filler,
  observe_replacement, observe_gap_filler, observe_replacements, fill_nonce_gaps,
  observe_gap_fillers, bump_stuck_gap_fillers, if_renewed, recover_lease, recovery_claim,
  recover_leased,
}
use facilitator.Settlement.Sweep.Actions.{Reached-trans, Reached-now, claims_batch, renews, with_db}
use facilitator.Settlement.Sweep.Runs.{
  Runs, nothing-Runs, then-Runs, after-Runs, Write-Runs, result-by, if-by,
}
use facilitator.Settlement.Sweep.Payment.{recover_payment-RunsTo}
use facilitator.Settlement.Sweep.Items.{
  let_go-Runs, under_lease-Runs, each-Runs, observe_replacement-Runs, fill_nonce_gap-RunsTo,
  bump_stuck_gap_filler-RunsTo, Listed, observe_gap_filler-Runs,
}
use facilitator.Settlement.Sweep.Listing.{All-of_mem, list_gap_fillers-Listed}
use facilitator.Store.Schema.{Db}
use facilitator.Store.Lease.{claim_payments, renew_lease}
use facilitator.Store.Watch.{list_replaced_pending, list_gap_fillers}

module _ (keccak : Text → Text) where
  -- A run that starts from what the database holds.
  abbrev pub Passes : World → World → Type 0
  Passes w v = Runs keccak w.db w v

  pub Passes-trans : (w v x : World) → Passes w v → Passes v x → Passes w x
  Passes-trans w v x a b h listed now =
      let (k, first) = a h now now in
      let (l, second) = b k (Reached-now keccak first now) (Reached-now keccak first now) in
      (l, Reached-trans keccak first second)

  everything : {A : Type 0} (items : List A) → All (λ (a : A). Unit {0}) items
  everything items = All-of_mem (λ a. Unit) items (λ a m. tt)

  module _ (config : RecoveryConfig) (identity : Text) (moments : ℕ → Moment)
      (hashes : (k : ℕ) (x : Text) → (moments k).outside.network.keccak256 x ≡ keccak x)
      (w : World) where
    each_leased-Passes :
        {A : Type 0} (Held : A → Type 0) (payment_id : A → ℕ) (visit : Moment → A → World → World)
        (r : Result (List A))
        → ((items : List A) → r ≡ ok items → All Held items)
        → ((k : ℕ) (a : A) (v : World) → Held a → Runs keccak w.db v (visit (moments k) a v))
        → Passes w (each_leased config identity payment_id visit moments r w)
    unfolding each_leased
    each_leased-Passes Held payment_id visit (err e) held step = nothing-Runs keccak w.db w
    each_leased-Passes Held payment_id visit (ok items) held step =
        each-Runs keccak w.db Held
          (λ m a. under_lease identity config.lease_duration m.now (payment_id a) (visit m a))
          moments 0 items w
          (λ k a v held_a.
            under_lease-Runs keccak w.db identity config.lease_duration (moments k).now
              (payment_id a) (visit (moments k) a) v (λ x. step k a x held_a))
          (held items refl)

    pub observe_replacements-Passes : Passes w (observe_replacements config identity moments w)
    unfolding observe_replacements
    observe_replacements-Passes =
        each_leased-Passes (λ t. Unit) _
          (λ m t v. observe_replacement config.confirmations m.outside t v)
          (list_replaced_pending w.db) (λ items at_items. everything items)
          (λ k t v held.
            observe_replacement-Runs keccak w.db config.confirmations (moments k).outside t v)

    pub fill_nonce_gaps-Passes :
        (started : ℕ) → Passes w (fill_nonce_gaps config identity started moments w)
    unfolding fill_nonce_gaps
    fill_nonce_gaps-Passes started =
        each_leased-Passes (λ t. Unit) _
          (λ m work v. logged (fill_nonce_gap config.service_config m.outside.network work v)) _
          (λ items at_items. everything items)
          (λ k work v held.
            after-Runs keccak w.db v
              (fill_nonce_gap config.service_config (moments k).outside.network work v)
              (fill_nonce_gap-RunsTo keccak w.db (moments k).outside (hashes k)
                config.service_config work v))

    pub observe_gap_fillers-Passes : Passes w (observe_gap_fillers config identity moments w)
    unfolding observe_gap_fillers
    observe_gap_fillers-Passes =
        each_leased-Passes (Listed keccak w.db) _ (λ m t v. observe_gap_filler m.outside t v)
          (list_gap_fillers w.db) (list_gap_fillers-Listed keccak w.db)
          (λ k t v held. observe_gap_filler-Runs keccak w.db (moments k).outside t v held)

    pub bump_stuck_gap_fillers-Passes : Passes w (bump_stuck_gap_fillers config identity moments w)
    unfolding bump_stuck_gap_fillers
    bump_stuck_gap_fillers-Passes =
        each_leased-Passes (λ t. Unit) _
          (λ m work v.
            logged (bump_stuck_gap_filler config.service_config m.outside.network m.new_id work v))
          _ (λ items at_items. everything items)
          (λ k work v held.
            after-Runs keccak w.db v
              (bump_stuck_gap_filler config.service_config (moments k).outside.network
                (moments k).new_id work v)
              (bump_stuck_gap_filler-RunsTo keccak w.db (moments k).outside (hashes k)
                config.service_config (moments k).new_id work v))

    if_renewed-Runs :
        (d : Db) (r : Result (ℕ × Db)) (payment_id : ℕ) (visit : World → World) (v : World)
        → ((until : ℕ) (e : Db) → r ≡ ok (until, e) → Runs keccak d v (visit (with_db v e)))
        → Runs keccak d v (if_renewed config identity r payment_id visit v)
    unfolding if_renewed
    if_renewed-Runs d (ok (until, e)) payment_id visit v h =
        then-Runs keccak d v (visit (with_db v e)) _ (h until e refl)
          (let_go-Runs keccak d payment_id identity (visit (with_db v e)))
    if_renewed-Runs d (err x) payment_id visit v h =
        if-by (Runs keccak d v) (is_lost x) _ _ (λ lost. nothing-Runs keccak d v)
          (λ other. let_go-Runs keccak d payment_id identity v)

    pub recover_leased-Passes :
        (started : ℕ) → Passes w (recover_leased config identity started moments w)
    unfolding recover_leased recover_lease
    recover_leased-Passes started =
        result-by (Passes w) (claim_payments (recovery_claim config identity started) w.db) _ _
          (λ e. nothing-Runs keccak w.db w)
          (λ leases at_l.
            then-Runs keccak w.db w (with_db w leases.1) _
              (Write-Runs keccak w.db w leases.1
                (claims_batch (recovery_claim config identity started) leases.0 at_l))
              (each-Runs keccak w.db (λ l. Unit) (recover_lease config identity) moments 0 leases.0
                (with_db w leases.1)
                (λ k lease v listed.
                  if_renewed-Runs w.db
                    (renew_lease lease.payment_id identity (some (moments k).now)
                      config.lease_duration v.db)
                    lease.payment_id
                    (λ x. logged (
                      recover_payment config (moments k).outside (moments k).new_id lease.payment_id
                        (codes "worker") x))
                    v
                    (λ until d at_d.
                      then-Runs keccak w.db v (with_db v d) _
                        (Write-Runs keccak w.db v d (
                          renews lease.payment_id identity (some (moments k).now)
                            config.lease_duration until at_d))
                        (after-Runs keccak w.db (with_db v d)
                          (recover_payment config (moments k).outside (moments k).new_id
                            lease.payment_id (codes "worker") (with_db v d))
                          (recover_payment-RunsTo keccak w.db (moments k).outside (hashes k) config
                            (moments k).new_id lease.payment_id (codes "worker") (with_db v d)))))
                (everything leases.0)))
