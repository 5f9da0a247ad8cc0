-- ===== src/Tests/Traces.antt =====
-- The safety of interleavings, on the test data.
use facilitator.Base.{
  ℕ, ◌≡◌, refl, List, [], ◌∷◌, codes, Memᴰ, inl, inr, map, All, zero, suc, find_row, count_rows,
  update_rows, text_eq, lower, has_prefix, equal_fold,
}
use mathlib.Core.List.Memᴰ
use facilitator.Settlement.State.{State, can_transition, is_in, state_eq}
use facilitator.Store.Schema.{Payment, Transaction, Status, Db}
use facilitator.Store.Intent.{
  create_settlement_intent, is_valid_request, settle_payment, terminal_transaction, refusal,
  merchant_settled, overall_settled, active_merchant, reserve, commit_intent, requested,
}
use facilitator.Store.Signer.{allocate_nonce, account_at, parse_nonce}
use facilitator.Store.Statements.{
  record_transition, insert_transaction, with_transactions, active_unique, hash_unique, same_hash,
  active_of, payment_in, update_transaction, update_transactions, transaction_at,
  transition_payment,
}
use facilitator.Store.Recovery.{mark_tx_replaced, insert_replacement, link_replacement}
use facilitator.Store.Schema.{is_active, status_in, status_eq, actor_type_ok}
use facilitator.Store.Broadcast.{mark_tx_signed, unsigned_at, mark_tx_broadcast}
use facilitator.Walletproof.{normalize_address, is_hex}
use facilitator.Settlement.Work.{Intent}
use facilitator.Store.Intent.{accepted_intent}
use facilitator.Store.Nonces.Allocation.{reserved, counted}
use facilitator.Store.Trace.{Call, create_intent, tx_signed, tx_broadcast, tx_replaced, run, step}
use facilitator.Store.Trace.Safety.{run-nonce_owner, run-Moved, run-final, run-audit}
use facilitator.Store.Evolution.{Moved, Legal}
use facilitator.Store.Nonces.{NonceInv}
use facilitator.Tests.Data.{signer, verified_db, request, settling, payment, transaction, bump}

-- Both payments are admitted, and the first is signed, broadcast and replaced.
abbrev calls : List Call
calls =
    create_intent 11 (request (codes "one"))
    ∷ create_intent 12 (request (codes "two"))
    ∷ tx_signed 11 (codes "aa") (codes "dd") 60000 20 2
    ∷ tx_broadcast 1 11 (codes "0xaa") (codes "worker")
    ∷ tx_replaced 13 1 11 bump (codes "worker")
    ∷ []

abbrev after_calls : Db
after_calls = run verified_db calls

abbrev row : List Transaction → ℕ → Transaction
row [] n = transaction 0 0 0 Status.dropped
row (t ∷ ts) zero = t
row (t ∷ ts) (suc n) = row ts n

-- The two payments got the nonces 4 and 5, and the replacement kept its own.
nonces : map (λ (t : Transaction). t.transaction_nonce) after_calls.transactions ≡ (4 ∷ 5 ∷ 4 ∷ [])
unfolding run step create_settlement_intent is_valid_request settle_payment terminal_transaction
    refusal merchant_settled overall_settled active_merchant reserve commit_intent requested
    allocate_nonce account_at parse_nonce record_transition insert_transaction with_transactions
    active_unique hash_unique same_hash active_of payment_in update_transaction update_transactions
    is_active status_in status_eq actor_type_ok mark_tx_signed unsigned_at mark_tx_broadcast
    mark_tx_replaced insert_replacement link_replacement transaction_at transition_payment find_row
    count_rows update_rows text_eq lower has_prefix equal_fold normalize_address is_hex
    can_transition is_in state_eq
nonces = refl

fresh : NonceInv verified_db
fresh = record {
  below = λ k m. absurd (Memᴰ.not-nil m);
  owned = λ j k mj mk s n. absurd (Memᴰ.not-nil mj);
}

run-nonce_owner_example :
    (row after_calls.transactions 0).payment_id ≡ (row after_calls.transactions 2).payment_id
unfolding run step create_settlement_intent is_valid_request settle_payment terminal_transaction
    refusal merchant_settled overall_settled active_merchant reserve commit_intent requested
    allocate_nonce account_at parse_nonce record_transition insert_transaction with_transactions
    active_unique hash_unique same_hash active_of payment_in update_transaction update_transactions
    is_active status_in status_eq actor_type_ok mark_tx_signed unsigned_at mark_tx_broadcast
    mark_tx_replaced insert_replacement link_replacement transaction_at transition_payment find_row
    count_rows update_rows text_eq lower has_prefix equal_fold normalize_address is_hex
    can_transition is_in state_eq
run-nonce_owner_example =
    run-nonce_owner verified_db calls (row after_calls.transactions 0)
      (row after_calls.transactions 2) fresh (Memᴰ.head refl)
      (Memᴰ.tail (Memᴰ.tail (Memᴰ.head refl))) refl refl

run-Moved_example : Moved verified_db.payments after_calls.payments
run-Moved_example = run-Moved verified_db calls

run-final_example :
    (q : Payment) × Memᴰ q (run (settling State.reverted Status.reverted) calls).payments
    × (q.id ≡ 1)
    × (q.state ≡ State.reverted)
run-final_example =
    run-final (settling State.reverted Status.reverted) calls
      (payment 1 (codes "one") State.reverted) (Memᴰ.head refl) (inr (inl refl))

run-audit_example : All Legal after_calls.payment_transitions
run-audit_example = run-audit verified_db calls tt

abbrev reserved_db : Db
reserved_db =
    reserved 11 (request (codes "one")) signer (payment 1 (codes "one") State.verified) 4
      (counted signer verified_db)

abbrev first_intent : Intent
first_intent =
    accepted_intent 11 (request (codes "one")) signer (payment 1 (codes "one") State.verified) 4
