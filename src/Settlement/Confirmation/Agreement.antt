-- ===== src/Settlement/Confirmation/Agreement.antt =====
-- internal/settlement: the worker and the waiting request draw the line of finality alike.
use facilitator.Base.{
  ℕ, ◌≡◌, refl, ◌⊎◌, inl, inr, Option, none, some, Text, equal_fold, false, not, ltb, ◌==◌,
  Bool-cases,
}
use facilitator.Settlement.Errors.{Result, err, unavailable}
use facilitator.Settlement.Work.{Work}
use facilitator.Store.Schema.{Db}
use facilitator.Store.Broadcast.{mark_tx_confirming, mark_tx_confirmed, mark_tx_reverted}
use facilitator.Settlement.Confirmation.{
  Receipt, Chain, Observation, observation_pending, observation_confirmed, observation_reverted,
  receipt_depth, observe_settlement, unseen, confirm_work,
}

-- What the worker does with a transaction, by what a waiting request would observe of it.
abbrev pub Agrees : Option Observation → ℕ → Work → Text → Db → Result Db → Type 0
Agrees none i work actor d r = r ≡ err unavailable
Agrees (some (observation_confirmed x)) i work actor d r =
    r
    ≡ mark_tx_confirmed i work.transaction_id x.block_number x.block_hash x.gas_used
        x.effective_gas_price actor d
Agrees (some (observation_reverted x)) i work actor d r =
    r ≡ mark_tx_reverted i work.transaction_id x.gas_used x.effective_gas_price actor d
Agrees (some observation_pending) i work actor d r =
    (r ≡ unseen work i actor d)
    ⊎ ((x : Receipt) × (r
          ≡ mark_tx_confirming i work.transaction_id x.block_number x.block_hash actor d))

module _ (confirmations : ℕ) (chain : Chain) (i : ℕ) (work : Work) (actor : Text) (d : Db) where
  abbrev Same : Type 0
  Same =
      Agrees (observe_settlement confirmations chain work.tx_hash) i work actor d
        (confirm_work confirmations chain i work actor d)

  -- On one reading of the chain the confirmation worker records a transaction as confirmed, or as
  -- reverted, exactly where the waiting request observes that outcome; where the request observes
  -- nothing final, the worker puts back an unseen transaction or marks it confirming,
  -- and where the request gets an error of the node, so does the worker.
  pub confirm_work-Agrees :
      Agrees
        (observe_settlement confirmations chain work.tx_hash)
        i
        work
        actor
        d
        (confirm_work confirmations chain i work actor d)
  unfolding observe_settlement confirm_work
  confirm_work-Agrees = by_receipt (chain.transaction_receipt work.tx_hash) refl
    where
      by_depth :
          (x : Receipt) (o : Option ℕ)
          → chain.transaction_receipt work.tx_hash ≡ some (some x)
          → (c : Text) → chain.block_by_number x.block_number ≡ some c
          → not (equal_fold c x.block_hash) ≡ false
          → chain.block_number ≡ o
          → Same
      by_depth x none e c f g h = rw (observe_settlement, confirm_work, e, f, g, h) refl
      by_depth x (some current) e c f g h =
          elim (Bool-cases (ltb (receipt_depth current x) confirmations)) [
            | inl low ↦ rw (observe_settlement, confirm_work, e, f, g, h, low) (inr (x, refl))
            | inr deep ↦ elim (Bool-cases (x.status == 0)) [
              | inl bad ↦ rw (observe_settlement, confirm_work, e, f, g, h, deep, bad) refl
              | inr good ↦ rw (observe_settlement, confirm_work, e, f, g, h, deep, good) refl
            ]
          ]

      by_block :
          (x : Receipt) (o : Option Text)
          → chain.transaction_receipt work.tx_hash ≡ some (some x)
          → chain.block_by_number x.block_number ≡ o
          → Same
      by_block x none e f = rw (observe_settlement, confirm_work, e, f) refl
      by_block x (some c) e f = elim (Bool-cases (not (equal_fold c x.block_hash))) [
        | inl other ↦ rw (observe_settlement, confirm_work, e, f, other) (inl refl)
        | inr canonical ↦ by_depth x chain.block_number e c f canonical refl
      ]

      by_receipt : (o : Option (Option Receipt)) → chain.transaction_receipt work.tx_hash ≡ o → Same
      by_receipt none e = rw (observe_settlement, confirm_work, e) refl
      by_receipt (some none) e = rw (observe_settlement, confirm_work, e) (inl refl)
      by_receipt (some (some x)) e = by_block x (chain.block_by_number x.block_number) e refl
