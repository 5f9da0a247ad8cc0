-- ===== src/Settlement/Sweep/Round.antt =====
-- internal/settlement/recovery.go: a whole round of the recovery worker.
use facilitator.Base.{ℕ, ◌≡◌, refl, List, [], ◌∷◌, Memᴰ, Text}
use facilitator.Settlement.Service.{World}
use facilitator.Settlement.Recovery.{RecoveryConfig}
use facilitator.Settlement.Sweep.{
  Moment, observe_replacements, fill_nonce_gaps, observe_gap_fillers, recover_leased, process,
}
use facilitator.Settlement.Sweep.Actions.{Reached, Backed, Reached-Backed, Reached-Evolves}
use facilitator.Settlement.Sweep.Passes.{
  Passes, Passes-trans, recover_leased-Passes, observe_replacements-Passes, fill_nonce_gaps-Passes,
  observe_gap_fillers-Passes, bump_stuck_gap_fillers-Passes,
}
use facilitator.Store.Schema.{Db}
use facilitator.Store.Evolution.{Evolves}

module _ (keccak : Text → Text) (config : RecoveryConfig) (identity : Text) (started : ℕ → ℕ)
    (moments : ℕ → ℕ → Moment)
    (hashes : (i k : ℕ) (x : Text) → (moments i k).outside.network.keccak256 x ≡ keccak x)
    (w : World) where
  process-Passes : Passes keccak w (process config identity started moments w)
  unfolding process
  process-Passes =
      Passes-trans keccak w w₁ _
        (recover_leased-Passes keccak config identity (moments 0) (hashes 0) w (started 0))
        (Passes-trans keccak w₁ w₂ _
          (observe_replacements-Passes keccak config identity (moments 1) (hashes 1) w₁)
          (Passes-trans keccak w₂ w₃ _
            (fill_nonce_gaps-Passes keccak config identity (moments 2) (hashes 2) w₂ (started 2))
            (Passes-trans keccak w₃ w₄ _
              (observe_gap_fillers-Passes keccak config identity (moments 3) (hashes 3) w₃)
              (bump_stuck_gap_fillers-Passes keccak config identity (moments 4) (hashes 4) w₄))))
    where
      w₁ : World
      w₁ = recover_leased config identity (started 0) (moments 0) w

      w₂ : World
      w₂ = observe_replacements config identity (moments 1) w₁

      w₃ : World
      w₃ = fill_nonce_gaps config identity (started 2) (moments 2) w₂

      w₄ : World
      w₄ = observe_gap_fillers config identity (moments 3) w₃

  -- A round of recovery is a run of the actions that `Reached` lists, and of no other: each write is
  -- one of the recovery writes or a lease, and each send hands over bytes that a database of the run
  -- holds, or whose hash it holds, when they are sent.
  pub process-Reached :
      (k : List Db) × Reached keccak w (w.db ∷ []) (process config identity started moments w) k
  process-Reached = process-Passes (w.db ∷ []) (Memᴰ.head refl) (Memᴰ.head refl)

  -- A round of recovery moves payments along the edges of the state machine alone, audits only edges,
  -- loses no payment, and gives no transaction a nonce that its payment did not hold: the signers'
  -- sequences stay as they are.
  pub process-Evolves : Evolves w.db (process config identity started moments w).db
  process-Evolves = Reached-Evolves process-Reached.1

  -- What a round of recovery hands to the network is on file: the round is a run of the actions, and a
  -- database of this run holds the very bytes, or their hash, in the row that they are sent for.
  pub process-OnFile :
      (entry : ℕ × Text)
      → Memᴰ entry (process config identity started moments w).sent
      → (k : List Db) × Reached keccak w (w.db ∷ []) (process config identity started moments w) k
        × Backed keccak w.sent k entry
  process-OnFile entry m =
      let (k, run) = process-Reached in (k, run, Reached-Backed keccak entry run m)
