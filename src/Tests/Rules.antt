-- ===== src/Tests/Rules.antt =====
-- The rules of the store, the fees, the states and the addresses, on the test data.
use facilitator.Base.{
  ℕ, ◌≡◌, ◌≢◌, ◌↔◌, ◌⊎◌, ◌≤◌, ◌<◌, refl, Option, none, some, List, [], ◌∷◌, Text, codes, Bool, true,
  false, inl, inr, arith, pos, min, ◌+◌, ◌*◌,
}
use facilitator.Settlement.State.{State}
use facilitator.Settlement.State.Laws.{into_confirmed}
use facilitator.Settlement.Errors.{Result, ok, err, active_payment_violation}
use facilitator.Settlement.Fees.{estimate_fees, bump_fees, min_bump}
use facilitator.Settlement.Fees.Bounds.{
  estimate_fees_bounds, bump_fees_bounds, bump_fees_iff_headroom,
}
use facilitator.Store.Schema.{Payment, Transaction, Status, Db}
use facilitator.Store.Broadcast.{mark_tx_confirmed, mark_tx_reverted}
use facilitator.Store.Finality.Repeats.{
  mark_tx_confirmed-again, mark_tx_reverted-again, finality-actor,
}
use facilitator.Store.Intent.{create_settlement_intent}
use facilitator.Store.Uniqueness.Intents.{create_settlement_intent-Clean}
use facilitator.Store.Recovery.{mark_tx_replaced, mark_tx_ambiguous_replaced}
use facilitator.Store.Uniqueness.Replacements.{
  mark_tx_replaced-Clean, mark_tx_ambiguous_replaced-Clean,
}
use facilitator.Store.Lease.{claim_payment, renew_lease, lease_of}
use facilitator.Settlement.Work.{Lease}
use facilitator.Store.Lease.Exclusion.{claim_payment-excludes, renew_lease-holder}
use facilitator.Walletproof.{normalize_address}
use facilitator.Walletproof.Normal.{normalize_address_twice}
use facilitator.Base.{zero, suc}
use facilitator.Tests.Data.{request, settling, payment, signer, bump}

abbrev confirmed_by : Text → Result Db
confirmed_by actor =
    mark_tx_confirmed 1 11 900 (codes "0xb") 50000 20 actor
      (settling State.broadcast Status.broadcast)

abbrev db_of : Result Db → Db
db_of (ok d) = d
db_of (err e) = settling State.broadcast Status.broadcast

mark_tx_confirmed-again_example :
    mark_tx_confirmed 1 11 901
      (codes "0xc")
      1
      1
      (codes "http-wait")
      (db_of (confirmed_by (codes "worker")))
    ≡ ok (db_of (confirmed_by (codes "worker")))
unfolding mark_tx_confirmed facilitator.Store.Statements.update_transactions
    facilitator.Store.Statements.transaction_at facilitator.Store.Statements.transition_payment_in
mark_tx_confirmed-again_example =
    mark_tx_confirmed-again 1 11 900 901 (codes "0xb") (codes "0xc") 50000 20 1 1 (codes "worker")
      (codes "http-wait") (settling State.broadcast Status.broadcast)
      (db_of (confirmed_by (codes "worker"))) refl

abbrev reverted : Result Db
reverted =
    mark_tx_reverted 1 11 50000 20 (codes "worker") (settling State.broadcast Status.broadcast)

mark_tx_reverted-again_example :
    mark_tx_reverted 1 11 1 1 (codes "http-wait") (db_of reverted) ≡ ok (db_of reverted)
unfolding mark_tx_reverted facilitator.Store.Statements.update_transactions
    facilitator.Store.Statements.transaction_at facilitator.Store.Statements.transition_payment_in
mark_tx_reverted-again_example =
    mark_tx_reverted-again 1 11 50000 20 1 1 (codes "worker") (codes "http-wait")
      (settling State.broadcast Status.broadcast) (db_of reverted) refl

finality-actor_example :
    (confirmed_by (codes "http-wait") ≢ ok (settling State.confirmed Status.confirmed))
    × (mark_tx_reverted 1 11 50000 20
          (codes "http-wait")
          (settling State.broadcast Status.broadcast)
        ≢ ok (settling State.confirmed Status.confirmed))
unfolding facilitator.Store.Schema.actor_type_ok facilitator.Base.count_rows
    facilitator.Store.Statements.transaction_at
finality-actor_example =
    finality-actor 1 11 900 (codes "0xb") 50000 20 (codes "http-wait")
      (settling State.broadcast Status.broadcast) (settling State.confirmed Status.confirmed) refl
      refl

create_settlement_intent-Clean_example :
    (create_settlement_intent 12
      (request (codes "one"))
      (settling State.broadcasting Status.broadcasting)).1
    ≢ err active_payment_violation
unfolding facilitator.Store.Statements.active_unique
create_settlement_intent-Clean_example =
    create_settlement_intent-Clean 12 (request (codes "one"))
      (settling State.broadcasting Status.broadcasting) refl

mark_tx_replaced-Clean_example :
    mark_tx_replaced 12 1 11 bump (codes "worker") (settling State.broadcast Status.broadcast)
    ≢ err active_payment_violation
unfolding facilitator.Store.Statements.active_unique
mark_tx_replaced-Clean_example =
    mark_tx_replaced-Clean 12 1 11 bump (codes "worker") (settling State.broadcast Status.broadcast)
      refl

mark_tx_ambiguous_replaced-Clean_example :
    mark_tx_ambiguous_replaced 12 1 11 bump
      (codes "worker")
      (settling State.manual_review Status.ambiguous)
    ≢ err active_payment_violation
unfolding facilitator.Store.Statements.active_unique
mark_tx_ambiguous_replaced-Clean_example =
    mark_tx_ambiguous_replaced-Clean 12 1 11 bump (codes "worker")
      (settling State.manual_review Status.ambiguous) refl

normalize_address_twice_example : normalize_address signer ≡ some signer
unfolding normalize_address
normalize_address_twice_example =
    normalize_address_twice (codes "0xAaAaAaAaAaAaAaAaAaAaAaAaAaAaAaAaAaAaAaAa") signer refl

into_confirmed_example :
    (State.replaced ≡ State.broadcast)
    ⊎ (State.replaced ≡ State.confirming)
    ⊎ (State.replaced ≡ State.replaced)
unfolding facilitator.Settlement.State.can_transition
into_confirmed_example = into_confirmed State.replaced refl

estimate_fees_bounds_example : (25 ≡ min (10 * 2 + 5) 100) × (0 < 25) × (25 ≤ 100) × (5 ≡ min 5 25)
unfolding estimate_fees
estimate_fees_bounds_example = estimate_fees_bounds 10 5 100 refl

bump_fees_iff_headroom_example :
    (bump_fees (some (pos 20)) (some (pos 2)) (some (pos 10)) (some (pos 100)) ≢ none)
    ↔ ((min_bump 20 ≤ 100) × (min_bump 2 ≤ 100))
bump_fees_iff_headroom_example = bump_fees_iff_headroom 20 2 10 100 (omega arith)

bump_fees_bounds_example :
    (11 * 20 ≤ 10 * 23) × (11 * 2 ≤ 10 * 3) × (20 < 23) × (3 ≤ 23) × (23 ≤ 100)
unfolding bump_fees
bump_fees_bounds_example = bump_fees_bounds 20 2 10 100 refl

abbrev leased : Db
leased =
    elim (claim_payment 1 (codes "a") 50 (some 100) (settling State.broadcasting Status.intent)) [
      | ok (l, d) ↦ d
      | err e ↦ settling State.broadcasting Status.intent
    ]

abbrev lease : Lease
lease = lease_of (codes "a") 150 (payment 1 (codes "one") State.broadcasting)

claim_payment-excludes_example :
    claim_payment 1 (codes "b") 50 (some 149) leased ≢ ok (lease, leased)
unfolding facilitator.Base.count_rows claim_payment
claim_payment-excludes_example =
    claim_payment-excludes 1 (codes "a") (codes "b") 50 50 100 149
      (settling State.broadcasting Status.intent) leased lease (lease, leased) refl refl
      (omega arith)

renew_lease-holder_example :
    ((x : ℕ × Db) × (renew_lease 1 (codes "a") (some 120) 50 leased ≡ ok x))
    ↔ ((codes "a" ≡ codes "a") × (120 < 100 + 50))
unfolding facilitator.Base.count_rows claim_payment
renew_lease-holder_example =
    renew_lease-holder 1 (codes "a") (codes "a") 50 50 100 120
      (settling State.broadcasting Status.intent) leased lease refl refl refl (omega arith)

abbrev recoverable : Text
recoverable =
    codes
      "0x1111111111111111111111111111111111111111111111111111111111111111111111111111111111111111111111111111111111111111111111111111111101"

abbrev recovery_id : ℕ
recovery_id = 28

abbrev seventeens : ℕ → List ℕ
seventeens zero = []
seventeens (suc n) = 17 ∷ seventeens n
