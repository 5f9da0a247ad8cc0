-- ===== src/Store/Recovery.antt =====
-- internal/store/recovery.go: the writes of the recovery worker.
use facilitator.Base.{
  ℕ, ◌+◌, Option, none, some, List, [], ◌∷◌, ◌++◌, Text, codes, Bool, ◌&&◌, ◌==◌, find_row,
  update_rows, if◌then◌else◌,
}
use facilitator.Settlement.State.{State, state_eq}
use facilitator.Settlement.Errors.{Result, ok, err, ◌>>=◌, settlement_race, no_rows}
use facilitator.Settlement.Work.{Replacement}
use facilitator.Store.Schema.{Transaction, Status, Db}
use facilitator.Store.Statements.{
  update_transactions, update_transaction, insert_transaction, active_of, transaction_at,
  record_transition, payment_in, transition_payment, transition_payment_in,
}
use facilitator.Store.Broadcast.{coalesce}

unfoldable pub mark_tx_recovered_broadcast : ℕ → ℕ → Text → Text → Db → Result Db
mark_tx_recovered_broadcast payment_id transaction_id tx_hash actor db = do
  recovered ←
      update_transaction (transaction_at payment_id transaction_id (Status.ambiguous ∷ []))
        (λ t. record t {
          status = Status.broadcast;
          tx_hash = some tx_hash;
          broadcast_attempted_at = some db.clock;
          updated_at = db.clock;
        })
        db
  transition_payment payment_id State.manual_review State.broadcast actor recovered

unfoldable pub mark_ambiguous_retry : ℕ → ℕ → Db → Result Db
mark_ambiguous_retry payment_id transaction_id db =
    update_transaction (transaction_at payment_id transaction_id (Status.ambiguous ∷ []))
      (λ t. record t { ambiguous_attempts = t.ambiguous_attempts + 1; updated_at = db.clock }) db

-- INSERT ... SELECT payment_id, ..., signer_address, transaction_nonce FROM the replaced row: the
-- new row takes its payment, signer and nonce from the old one, and the rest from `columns`.
unfoldable pub insert_replacement :
    ℕ → ℕ → ℕ → Replacement → Option Text → (Transaction → Option Text) → Db → Result Db
insert_replacement new_id payment_id old_tx_id replacement raw sighash db = do
  elim (find_row (λ (t : Transaction). t.id == old_tx_id && t.payment_id == payment_id)
      db.transactions) [
        | none ↦ err no_rows
        | some old ↦
            insert_transaction
              (record {
                id = new_id;
                payment_id = old.payment_id;
                tx_hash = some replacement.tx_hash;
                signer_address = old.signer_address;
                transaction_nonce = old.transaction_nonce;
                status = Status.broadcast;
                raw_transaction_hash = some replacement.raw_hash;
                sighash = sighash old;
                raw_transaction = raw;
                gas_limit = some replacement.gas_limit;
                max_fee_per_gas = some replacement.max_fee;
                max_priority_fee_per_gas = some replacement.priority_fee;
                block_number = none;
                block_hash = none;
                gas_used = none;
                effective_gas_price = none;
                replaced_by_id = none;
                broadcast_attempted_at = some db.clock;
                first_seen_at = none;
                confirmed_at = none;
                ambiguous_attempts = 0;
                updated_at = db.clock;
              })
              db
      ]

-- UPDATE ethereum_transactions SET replaced_by_id = $3.
unfoldable pub link_replacement : ℕ → ℕ → ℕ → Db → Result Db
link_replacement new_id payment_id old_tx_id =
    update_transactions (λ t. t.id == old_tx_id && t.payment_id == payment_id)
      (λ t. record t { replaced_by_id = some new_id })

-- '0x' || raw_transaction_hash.
abbrev pub hash_of_raw : Option Text → Option Text
hash_of_raw none = none
hash_of_raw (some h) = some (codes "0x" ++ h)

-- `new_id` is the uuid that the database generates for the inserted row.
unfoldable pub mark_tx_ambiguous_replaced : ℕ → ℕ → ℕ → Replacement → Text → Db → Result Db
mark_tx_ambiguous_replaced new_id payment_id old_tx_id replacement actor db = do
  superseded ←
      update_transaction (transaction_at payment_id old_tx_id (Status.ambiguous ∷ []))
        (λ t. record t {
          status = Status.replaced;
          tx_hash = hash_of_raw t.raw_transaction_hash;
          updated_at = db.clock;
        })
        db
  inserted ←
      insert_replacement new_id payment_id old_tx_id replacement none (λ t. t.sighash) superseded
  linked ← link_replacement new_id payment_id old_tx_id inserted
  transition_payment payment_id State.manual_review State.replaced actor linked

unfoldable pub mark_tx_replaced : ℕ → ℕ → ℕ → Replacement → Text → Db → Result Db
mark_tx_replaced new_id payment_id old_tx_id replacement actor db = do
  superseded ←
      update_transaction (transaction_at payment_id old_tx_id (Status.broadcast ∷ []))
        (λ t. record t { status = Status.replaced; updated_at = db.clock }) db
  inserted ← insert_replacement new_id payment_id old_tx_id replacement none (λ t. none) superseded
  linked ← link_replacement new_id payment_id old_tx_id inserted
  elim (find_row (payment_in payment_id replaceable) linked.payments) [
    | none ↦ err settlement_race
    | some previous ↦
        let moved = record linked {
          payments =
              update_rows (payment_in payment_id replaceable)
                (λ p. record p { state = State.replaced; updated_at = db.clock }) linked.payments;
        } in
        if state_eq previous.state State.broadcast
        then record_transition payment_id State.broadcast State.replaced actor moved
        else ok moved
  ]
  where
    replaceable : List State
    replaceable = State.broadcast ∷ State.replaced ∷ []

-- The row that the network mined after all.
unfoldable pub land_original : ℕ → ℕ → Bool → ℕ → Text → ℕ → ℕ → Db → Result Db
land_original payment_id mined_tx_id succeeded block_number block_hash gas_used gas_price db =
    update_transaction (transaction_at payment_id mined_tx_id (Status.replaced ∷ [])) landed db
  where
    landed : Transaction → Transaction
    landed t =
        if succeeded
        then record t {
          status = Status.confirming;
          block_number = some block_number;
          block_hash = some block_hash;
          first_seen_at = some (coalesce t.first_seen_at db.clock);
          updated_at = db.clock;
        }
        else record t {
          status = Status.reverted;
          gas_used = some gas_used;
          effective_gas_price = some gas_price;
          updated_at = db.clock;
        }

unfoldable pub mark_replacement_landed : ℕ → ℕ → Bool → ℕ → Text → ℕ → ℕ → Text → Db → Result Db
mark_replacement_landed payment_id mined_tx_id succeeded block_number block_hash gas_used gas_price
      actor db =
    do
      dropped ←
          update_transaction (active_of payment_id)
            (λ t. record t { status = Status.dropped; updated_at = db.clock }) db
      landed ←
          land_original payment_id mined_tx_id succeeded block_number block_hash gas_used gas_price
            dropped
      if succeeded
          then transition_payment_in payment_id (State.replaced ∷ State.broadcast ∷ [])
              State.confirming actor (λ p. p) landed
          else transition_payment_in payment_id
              (State.replaced ∷ State.broadcast ∷ State.confirming ∷ []) State.reverted actor
              (λ p. p) landed

unfoldable pub mark_tx_reorged_out : ℕ → ℕ → Text → Db → Result Db
mark_tx_reorged_out payment_id transaction_id actor db = do
  cleared ←
      update_transaction (transaction_at payment_id transaction_id (Status.confirming ∷ []))
        (λ t. record t {
          status = Status.broadcast;
          block_number = none;
          block_hash = none;
          updated_at = db.clock;
        })
        db
  transition_payment payment_id State.confirming State.broadcast actor cleared
