-- ===== src/Store/Trace.antt =====
-- Any interleaving of the calls that HTTP requests and workers make to internal/store, each call one
-- step: an operation that fails leaves the database as it was, but for the audit row of a refusal.
pub mod Safety
use facilitator.Base.{ℕ, Option, List, [], ◌∷◌, Text, Bool}
use facilitator.Settlement.Errors.{Error, Result, ok, err}
use facilitator.Settlement.Work.{IntentRequest, ClaimRequest, Replacement}
use facilitator.Store.Schema.{Db}
use facilitator.Store.Broadcast
use facilitator.Store.Recovery
use facilitator.Store.Fillers
use facilitator.Store.Verification
use facilitator.Store.Lease.{claim_payment, claim_payments, renew_lease, release_lease}
use facilitator.Store.Signer.{seed_signer_account}
use facilitator.Store.Intent.{create_settlement_intent}
use facilitator.Store.Evolution.Leases.{db_after}

-- One constructor for each operation, its arguments in the operation's order.
pub data Call : Type 0 where
  record_verification : ℕ → Verification.Attempt → Call
  create_intent : ℕ → IntentRequest → Call
  seed_account : Text → ℕ → Call
  claim : ℕ → Text → ℕ → Option ℕ → Call
  claim_batch : ClaimRequest → Call
  renew : ℕ → Text → Option ℕ → ℕ → Call
  release : ℕ → Text → Call
  tx_signed : ℕ → Text → Text → ℕ → ℕ → ℕ → Call
  tx_broadcast : ℕ → ℕ → Text → Text → Call
  tx_ambiguous : ℕ → ℕ → Text → Call
  tx_confirming : ℕ → ℕ → ℕ → Text → Text → Call
  tx_confirmed : ℕ → ℕ → ℕ → Text → ℕ → ℕ → Text → Call
  tx_reverted : ℕ → ℕ → ℕ → ℕ → Text → Call
  intent_unsettleable : ℕ → ℕ → Text → Call
  intent_expired : ℕ → ℕ → Text → Call
  tx_recovered : ℕ → ℕ → Text → Text → Call
  ambiguous_retry : ℕ → ℕ → Call
  tx_ambiguous_replaced : ℕ → ℕ → ℕ → Replacement → Text → Call
  tx_replaced : ℕ → ℕ → ℕ → Replacement → Text → Call
  replacement_landed : ℕ → ℕ → Bool → ℕ → Text → ℕ → ℕ → Text → Call
  tx_reorged_out : ℕ → ℕ → Text → Call
  filler_prepared : ℕ → Text → Text → Text → ℕ → ℕ → ℕ → Call
  filler_replaced : ℕ → ℕ → ℕ → Replacement → Text → Call
  filler_resolved : ℕ → ℕ → ℕ → Call
  filler_succeeded : ℕ → ℕ → ℕ → Text → ℕ → ℕ → Text → Call
  -- The database's clock moves to some time.
  clock_at : ℕ → Call

abbrev pub after : Db → Result Db → Db
after d (ok e) = e
after d (err x) = d

unfoldable pub step : Db → Call → Db
step d (record_verification i a) = (Verification.record_verification i a d).0
step d (create_intent i r) = (create_settlement_intent i r d).0
step d (seed_account s n) = db_after d (seed_signer_account s n d)
step d (claim p w n t) = db_after d (claim_payment p w n t d)
step d (claim_batch r) = db_after d (claim_payments r d)
step d (renew p w t n) = db_after d (renew_lease p w t n d)
step d (release p w) = after d (release_lease p w d)
step d (tx_signed t r s g m f) = after d (Broadcast.mark_tx_signed t r s g m f d)
step d (tx_broadcast p t h a) = after d (Broadcast.mark_tx_broadcast p t h a d)
step d (tx_ambiguous p t a) = after d (Broadcast.mark_tx_ambiguous p t a d)
step d (tx_confirming p t n h a) = after d (Broadcast.mark_tx_confirming p t n h a d)
step d (tx_confirmed p t n h g f a) = after d (Broadcast.mark_tx_confirmed p t n h g f a d)
step d (tx_reverted p t g f a) = after d (Broadcast.mark_tx_reverted p t g f a d)
step d (intent_unsettleable p t a) = after d (Broadcast.mark_intent_unsettleable p t a d)
step d (intent_expired p t a) = after d (Broadcast.mark_intent_expired p t a d)
step d (tx_recovered p t h a) = after d (Recovery.mark_tx_recovered_broadcast p t h a d)
step d (ambiguous_retry p t) = after d (Recovery.mark_ambiguous_retry p t d)
step d (tx_ambiguous_replaced i p t r a) = after d (Recovery.mark_tx_ambiguous_replaced i p t r a d)
step d (tx_replaced i p t r a) = after d (Recovery.mark_tx_replaced i p t r a d)
step d (replacement_landed p t s n h g f a) =
    after d (Recovery.mark_replacement_landed p t s n h g f a d)
step d (tx_reorged_out p t a) = after d (Recovery.mark_tx_reorged_out p t a d)
step d (filler_prepared t r h raw g m f) =
    after d (Fillers.mark_gap_filler_prepared t r h raw g m f d)
step d (filler_replaced i p t r raw) = after d (Fillers.mark_gap_filler_replaced i p t r raw d)
step d (filler_resolved t g f) = after d (Fillers.mark_gap_filler_resolved t g f d)
step d (filler_succeeded p t n h g f a) =
    after d (Fillers.mark_gap_filler_succeeded p t n h g f a d)
step d (clock_at now) = record d { clock = now }

unfoldable pub run : Db → List Call → Db
run d [] = d
run d (c ∷ cs) = run (step d c) cs
