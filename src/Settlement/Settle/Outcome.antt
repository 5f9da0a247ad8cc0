-- ===== src/Settlement/Settle/Outcome.antt =====
-- internal/settlement/service.go: what an answer of /settle says of the database.
use facilitator.Base.{ℕ, ◌≡◌, ◌≢◌, refl, ◌⊎◌, inl, inr, [], Text, codes, true, count_rows}
use facilitator.Settlement.State.{State}
use facilitator.Settlement.Errors.{Result, ok, err}
use facilitator.Settlement.Service.{World}
use facilitator.Settlement.Confirmation.{
  Observation, observation_pending, observation_confirmed, observation_reverted,
}
use facilitator.Settlement.Settle.{
  SettleResponse, settled, rejected, receipt_unavailable, reverted_tx, persisted, respond_with_tx,
  reason_transaction_failed, reason_failed_to_get_receipt,
}
use facilitator.Store.Schema.{Db, Status, actor_type_ok}
use facilitator.Store.Statements.{transaction_at}
use facilitator.Store.Broadcast.{terminal_settlement_matches, on_network}
use facilitator.Store.Finality.Repeats.{
  mark_tx_confirmed-Recorded, mark_tx_reverted-Recorded, finality-actor,
}

-- What the answer stands for in the database.
abbrev pub Backed : ℕ → ℕ → Text → SettleResponse → Db → Type 0
Backed i t hash (settled h) d =
    (h ≡ hash) × (terminal_settlement_matches i t Status.confirmed State.confirmed d ≡ true)
Backed i t hash (rejected reason) d =
    (reason ≡ reason_failed_to_get_receipt)
    ⊎ ((reason ≡ reason_transaction_failed)
        × (terminal_settlement_matches i t Status.reverted State.reverted d ≡ true))

persisted-Backed :
    (i t : ℕ) (hash : Text) (r : Result Db) (response : SettleResponse) (w : World)
    → ((e : Db) → r ≡ ok e → Backed i t hash response e)
    → Backed i t hash (persisted r response w).1 (persisted r response w).0.db
persisted-Backed i t hash (ok d) response w h = h d refl
persisted-Backed i t hash (err e) response w h = inl refl

-- An answer to a request that waited is backed by the database: `settled` is answered only with
-- payment and transaction recorded as confirmed, a failed transaction only with both recorded as
-- reverted, and every other answer is the one that the receipt is not available.
pub respond_with_tx-Backed :
    (o : Observation) (i t : ℕ) (hash : Text) (w : World)
    → Backed i t hash (respond_with_tx o i t hash w).1 (respond_with_tx o i t hash w).0.db
unfolding respond_with_tx
respond_with_tx-Backed observation_pending i t hash w = inl refl
respond_with_tx-Backed (observation_confirmed r) i t hash w =
    persisted-Backed i t hash _ (settled hash) w (λ e h.
      (refl, (mark_tx_confirmed-Recorded i t _ _ _ _ (codes "http-wait") w.db e h).terminal))
respond_with_tx-Backed (observation_reverted r) i t hash w =
    persisted-Backed i t hash _ reverted_tx w
      (λ e h. inr (refl, (mark_tx_reverted-Recorded i t _ _ (codes "http-wait") w.db e h).terminal))

persisted-fails :
    (r : Result Db) (response : SettleResponse) (w : World)
    → ((e : Db) → r ≢ ok e)
    → persisted r response w ≡ (w, receipt_unavailable)
persisted-fails (ok d) response w h = absurd (h d refl)
persisted-fails (err e) response w h = refl

-- While its transaction is on the network in the database, a request that waited is answered that the
-- receipt is not available, and writes nothing, whatever final outcome it has observed: the actor
-- that it passes is refused by the CHECK of payment_transitions.
pub respond_with_tx-on_network :
    (o : Observation) (i t : ℕ) (hash : Text) (w : World)
    → count_rows (transaction_at i t on_network) w.db.transactions ≡ 1
    → respond_with_tx o i t hash w ≡ (w, receipt_unavailable)
unfolding respond_with_tx actor_type_ok
respond_with_tx-on_network observation_pending i t hash w one = refl
respond_with_tx-on_network (observation_confirmed r) i t hash w one =
    persisted-fails _ (settled hash) w (λ e.
      (finality-actor i t r.block_number r.block_hash r.gas_used r.effective_gas_price
        (codes "http-wait") w.db e refl one).0)
respond_with_tx-on_network (observation_reverted r) i t hash w one =
    persisted-fails _ reverted_tx w (λ e.
      (finality-actor i t 0 [] r.gas_used r.effective_gas_price (codes "http-wait") w.db e refl
        one).1)
