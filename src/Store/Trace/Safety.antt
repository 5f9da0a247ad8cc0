-- ===== src/Store/Trace/Safety.antt =====
-- What holds after every interleaving of store operations.
use facilitator.Base.{ℕ, ◌≡◌, refl, sym, ap, ◌∙◌, subst, List, [], ◌∷◌, Memᴰ, All}
use mathlib.Core.List.Memᴰ
use facilitator.Settlement.State.Laws.{◌⟶*◌, ⟶*-final, IsFinal}
use facilitator.Settlement.Errors.{Result, ok, err}
use facilitator.Store.Schema.{Payment, Transaction, Db}
use facilitator.Store.Trace.{
  Call, record_verification, create_intent, seed_account, claim, claim_batch, renew, release,
  tx_signed, tx_broadcast, tx_ambiguous, tx_confirming, tx_confirmed, tx_reverted,
  intent_unsettleable, intent_expired, tx_recovered, ambiguous_retry, tx_ambiguous_replaced,
  tx_replaced, replacement_landed, tx_reorged_out, filler_prepared, filler_replaced,
  filler_resolved, filler_succeeded, clock_at, after, step, run,
}
use facilitator.Store.Evolution.{
  Moved, Moved-refl, Moved-trans, Legal, Evolves, Evolves-refl, Steps, key,
}
use facilitator.Store.Evolution.Entries.{record_verification-Evolves}
use facilitator.Store.Evolution.Leases.{
  claim_payment-Evolves, claim_payments-Evolves, renew_lease-Evolves, release_lease-Steps,
}
use facilitator.Store.Evolution.Marks
use facilitator.Store.Evolution.Recovery
use facilitator.Store.Nonces.{NonceInv, Grows, Evolves-Grows}
use facilitator.Store.Nonces.Reservation.{create_settlement_intent-Grows}
use facilitator.Store.Nonces.Seeding.{seed_signer_account-Grows}

Steps-Grows : (d : Db) (r : Result Db) → Steps d r → Grows d (after d r)
Steps-Grows d (ok e) s = Evolves-Grows (s e refl)
Steps-Grows d (err x) s = Evolves-Grows (Evolves-refl d)

clock-Evolves : (d : Db) (now : ℕ) → Evolves d (record d { clock = now })
clock-Evolves d now = record {
  moved = Moved-refl d.payments;
  audited = λ a. a;
  inherited = λ k m. m;
  accounts = refl;
}

step-Grows : (d : Db) (c : Call) → Grows d (step d c)
unfolding step
step-Grows d (record_verification i a) = Evolves-Grows (record_verification-Evolves d i a)
step-Grows d (create_intent i r) = create_settlement_intent-Grows i r d
step-Grows d (seed_account s n) = seed_signer_account-Grows s n d
step-Grows d (claim p w n t) = Evolves-Grows (claim_payment-Evolves d p w n t)
step-Grows d (claim_batch r) = Evolves-Grows (claim_payments-Evolves d r)
step-Grows d (renew p w t n) = Evolves-Grows (renew_lease-Evolves d p w t n)
step-Grows d (release p w) = Steps-Grows d _ (release_lease-Steps d p w)
step-Grows d (tx_signed t r s g m f) = Steps-Grows d _ (Marks.mark_tx_signed-Steps d t r s g m f)
step-Grows d (tx_broadcast p t h a) = Steps-Grows d _ (Marks.mark_tx_broadcast-Steps d p t h a)
step-Grows d (tx_ambiguous p t a) = Steps-Grows d _ (Marks.mark_tx_ambiguous-Steps d p t a)
step-Grows d (tx_confirming p t n h a) =
    Steps-Grows d _ (Marks.mark_tx_confirming-Steps d p t n h a)
step-Grows d (tx_confirmed p t n h g f a) =
    Steps-Grows d _ (Marks.mark_tx_confirmed-Steps d p t n h g f a)
step-Grows d (tx_reverted p t g f a) = Steps-Grows d _ (Marks.mark_tx_reverted-Steps d p t g f a)
step-Grows d (intent_unsettleable p t a) =
    Steps-Grows d _ (Marks.mark_intent_unsettleable-Steps d p t a)
step-Grows d (intent_expired p t a) = Steps-Grows d _ (Marks.mark_intent_expired-Steps d p t a)
step-Grows d (tx_recovered p t h a) =
    Steps-Grows d _ (Recovery.mark_tx_recovered_broadcast-Steps d p t h a)
step-Grows d (ambiguous_retry p t) = Steps-Grows d _ (Recovery.mark_ambiguous_retry-Steps d p t)
step-Grows d (tx_ambiguous_replaced i p t r a) =
    Steps-Grows d _ (Recovery.mark_tx_ambiguous_replaced-Steps d i p t r a)
step-Grows d (tx_replaced i p t r a) = Steps-Grows d _ (Recovery.mark_tx_replaced-Steps d i p t r a)
step-Grows d (replacement_landed p t s n h g f a) =
    Steps-Grows d _ (Recovery.mark_replacement_landed-Steps d p t s n h g f a)
step-Grows d (tx_reorged_out p t a) = Steps-Grows d _ (Recovery.mark_tx_reorged_out-Steps d p t a)
step-Grows d (filler_prepared t r h raw g m f) =
    Steps-Grows d _ (Recovery.mark_gap_filler_prepared-Steps d t r h raw g m f)
step-Grows d (filler_replaced i p t r raw) =
    Steps-Grows d _ (Recovery.mark_gap_filler_replaced-Steps d i p t r raw)
step-Grows d (filler_resolved t g f) =
    Steps-Grows d _ (Recovery.mark_gap_filler_resolved-Steps d t g f)
step-Grows d (filler_succeeded p t n h g f a) =
    Steps-Grows d _ (Recovery.mark_gap_filler_succeeded-Steps d p t n h g f a)
step-Grows d (clock_at now) = Evolves-Grows (clock-Evolves d now)

run-Grows : (d : Db) (cs : List Call) → Grows d (run d cs)
unfolding run
run-Grows d [] = Evolves-Grows (Evolves-refl d)
run-Grows d (c ∷ cs) =
    let first = step-Grows d c in
    let rest = run-Grows (step d c) cs in
    record {
      moved =
          Moved-trans d.payments (step d c).payments (run (step d c) cs).payments first.moved
            rest.moved;
      audited = λ a. rest.audited (first.audited a);
      nonces = λ inv. rest.nonces (first.nonces inv);
    }

-- In any interleaving of store operations, every payment stays in the table, and its state only
-- changes along edges of the state machine.
pub run-Moved : (d : Db) (cs : List Call) → Moved d.payments (run d cs).payments
run-Moved d cs = (run-Grows d cs).moved

Moved-mem :
    (ps qs : List Payment) (p : Payment)
    → Moved ps qs
    → Memᴰ p ps
    → (q : Payment) × Memᴰ q qs × (p.id ≡ q.id) × (p.state ⟶* q.state)
Moved-mem [] qs p m at = absurd (Memᴰ.not-nil at)
Moved-mem (x ∷ ps) [] p m at = absurd m
Moved-mem (x ∷ ps) (y ∷ qs) p m (Memᴰ.head e) = (
  y,
  Memᴰ.head refl,
  ap (λ (z : Payment). z.id) e ∙ m.0,
  subst (λ (z : Payment). z.state ⟶* y.state) (sym e) m.1,
)
Moved-mem (x ∷ ps) (y ∷ qs) p m (Memᴰ.tail at) =
    let (q, at_q, i, s) = Moved-mem ps qs p m.2 at in (q, Memᴰ.tail at_q, i, s)

-- A payment that is confirmed, reverted, failed or verification_failed is so after any interleaving
-- of store operations.
pub run-final :
    (d : Db) (cs : List Call) (p : Payment)
    → Memᴰ p d.payments
    → IsFinal p.state
    → (q : Payment) × Memᴰ q (run d cs).payments × (q.id ≡ p.id) × (q.state ≡ p.state)
run-final d cs p at final =
    let (q, at_q, i, s) = Moved-mem d.payments (run d cs).payments p (run-Moved d cs) at in
    (q, at_q, sym i, ⟶*-final final s)

-- Where every audited transition is an edge of the state machine, it is so after any interleaving.
pub run-audit :
    (d : Db) (cs : List Call)
    → All Legal d.payment_transitions
    → All Legal (run d cs).payment_transitions
run-audit d cs = (run-Grows d cs).audited

-- Where the nonce invariant holds, after any interleaving of store operations two transactions of
-- one signer with one nonce are transactions of one payment.
pub run-nonce_owner :
    (d : Db) (cs : List Call) (t u : Transaction)
    → NonceInv d
    → Memᴰ t (run d cs).transactions
    → Memᴰ u (run d cs).transactions
    → t.signer_address ≡ u.signer_address
    → t.transaction_nonce ≡ u.transaction_nonce
    → t.payment_id ≡ u.payment_id
run-nonce_owner d cs t u inv mt mu s n =
    ((run-Grows d cs).nonces inv).owned (key t) (key u) (Memᴰ.map key mt) (Memᴰ.map key mu) s n
