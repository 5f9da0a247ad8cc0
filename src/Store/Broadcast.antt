-- ===== src/Store/Broadcast.antt =====
-- internal/store/settlementwork.go: the writes of the broadcast and confirmation pipelines.
pub mod Signing
use facilitator.Base.{
  ℕ, Option, none, some, List, [], ◌∷◌, Text, Bool, ◌&&◌, ◌==◌, find_row, count_rows, update_rows,
  if◌then◌else◌, not,
}
use facilitator.Settlement.State.{State}
use facilitator.Settlement.Errors.{Result, ok, err, ◌>>=◌, settlement_race}
use facilitator.Store.Schema.{Transaction, Status, Db, status_eq}
use facilitator.Store.Statements.{
  update_transactions, update_transaction, transaction_at, record_transition, payment_in,
  transition_payment, transition_payment_in,
}

-- WHERE id = $1 AND status = 'intent'.
unfoldable pub unsigned_at : ℕ → Transaction → Bool
unfolding status_eq
unsigned_at transaction_id t = t.id == transaction_id && status_eq t.status Status.intent

unfoldable pub mark_tx_signed : ℕ → Text → Text → ℕ → ℕ → ℕ → Db → Result Db
mark_tx_signed transaction_id raw_hash sighash gas_limit max_fee priority_fee db =
    update_transaction (unsigned_at transaction_id)
      (λ t. record t {
        status = Status.broadcasting;
        raw_transaction_hash = some raw_hash;
        sighash = some sighash;
        gas_limit = some gas_limit;
        max_fee_per_gas = some max_fee;
        max_priority_fee_per_gas = some priority_fee;
        updated_at = db.clock;
      })
      db

unfoldable pub mark_tx_broadcast : ℕ → ℕ → Text → Text → Db → Result Db
mark_tx_broadcast payment_id transaction_id tx_hash actor db = do
  sent ←
      update_transaction (transaction_at payment_id transaction_id (Status.broadcasting ∷ []))
        (λ t. record t {
          status = Status.broadcast;
          tx_hash = some tx_hash;
          broadcast_attempted_at = some db.clock;
          updated_at = db.clock;
        })
        db
  transition_payment payment_id State.broadcasting State.broadcast actor sent

unfoldable pub mark_tx_ambiguous : ℕ → ℕ → Text → Db → Result Db
mark_tx_ambiguous payment_id transaction_id actor db = do
  moved ←
      update_transaction (transaction_at payment_id transaction_id (Status.broadcasting ∷ []))
        (λ t. record t { status = Status.ambiguous; updated_at = db.clock }) db
  transition_payment payment_id State.broadcasting State.manual_review actor moved

-- coalesce(a, b).
abbrev pub coalesce {ℓ} : {A : Type ℓ} → Option A → A → A
coalesce none b = b
coalesce (some a) b = a

abbrev pub on_network : List Status
on_network = Status.broadcast ∷ Status.confirming ∷ []

-- The count of written rows is not read here, and the payment may already be confirming.
unfoldable pub mark_tx_confirming : ℕ → ℕ → ℕ → Text → Text → Db → Result Db
mark_tx_confirming payment_id transaction_id block_number block_hash actor db = do
  sighted ←
      update_transactions (transaction_at payment_id transaction_id on_network)
        (λ t. record t {
          status = Status.confirming;
          block_number = some block_number;
          block_hash = some block_hash;
          first_seen_at = some (coalesce t.first_seen_at db.clock);
          updated_at = db.clock;
        })
        db
  elim (find_row (payment_in payment_id (State.broadcast ∷ State.replaced ∷ [])) sighted.payments) [
    | none ↦ ok sighted
    | some previous ↦
        record_transition payment_id previous.state State.confirming actor (record sighted {
          payments =
              update_rows (payment_in payment_id (State.broadcast ∷ State.replaced ∷ []))
                (λ p. record p { state = State.confirming; updated_at = db.clock })
                sighted.payments;
        })
  ]

-- EXISTS (... t.status = $3 AND p.state = $3), where a final state and status share their name.
unfoldable pub terminal_settlement_matches : ℕ → ℕ → Status → State → Db → Bool
terminal_settlement_matches payment_id transaction_id status state db =
    not (count_rows (transaction_at payment_id transaction_id (status ∷ [])) db.transactions == 0)
    && not (count_rows (payment_in payment_id (state ∷ [])) db.payments == 0)

abbrev pub settleable : List State
settleable = State.broadcast ∷ State.confirming ∷ State.replaced ∷ []

unfoldable pub mark_tx_confirmed : ℕ → ℕ → ℕ → Text → ℕ → ℕ → Text → Db → Result Db
mark_tx_confirmed payment_id transaction_id block_number block_hash gas_used gas_price actor db = do
  final ←
      update_transactions (transaction_at payment_id transaction_id on_network)
        (λ t. record t {
          status = Status.confirmed;
          block_number = some block_number;
          block_hash = some block_hash;
          gas_used = some gas_used;
          effective_gas_price = some gas_price;
          confirmed_at = some db.clock;
          updated_at = db.clock;
        })
        db
  if count_rows (transaction_at payment_id transaction_id on_network) db.transactions == 1
      then transition_payment_in payment_id settleable State.confirmed actor
          (λ p. record p { confirmed_at = some db.clock }) final
      else (if terminal_settlement_matches payment_id transaction_id Status.confirmed
            State.confirmed final
          then ok final
          else err settlement_race)

unfoldable pub mark_tx_reverted : ℕ → ℕ → ℕ → ℕ → Text → Db → Result Db
mark_tx_reverted payment_id transaction_id gas_used gas_price actor db = do
  final ←
      update_transactions (transaction_at payment_id transaction_id on_network)
        (λ t. record t {
          status = Status.reverted;
          gas_used = some gas_used;
          effective_gas_price = some gas_price;
          updated_at = db.clock;
        })
        db
  if count_rows (transaction_at payment_id transaction_id on_network) db.transactions == 1
      then transition_payment_in payment_id settleable State.reverted actor (λ p. p) final
      else (if terminal_settlement_matches payment_id transaction_id Status.reverted State.reverted
            final
          then ok final
          else err settlement_race)

-- The body that MarkIntentUnsettleable and MarkIntentExpired share but for the payment's new state.
abbrev retire_intent : State → ℕ → ℕ → Text → Db → Result Db
retire_intent to payment_id transaction_id actor db = do
  retired ←
      update_transaction (transaction_at payment_id transaction_id (Status.intent ∷ []))
        (λ t. record t { status = Status.dropped; updated_at = db.clock }) db
  transition_payment payment_id State.broadcasting to actor retired

unfoldable pub mark_intent_unsettleable : ℕ → ℕ → Text → Db → Result Db
mark_intent_unsettleable = retire_intent State.failed

unfoldable pub mark_intent_expired : ℕ → ℕ → Text → Db → Result Db
mark_intent_expired = retire_intent State.expired
