-- ===== src/Store/Nonces/Written.antt =====
-- internal/store/settlement.go: what a reservation has written when it returns an intent, column by
-- column.
use facilitator.Base.{
  ℕ, ◌+◌, ◌≡◌, refl, sym, subst, ap, ◌∙◌, Option, none, some, [], ◌∷◌, Text, codes, text_eq-eq,
  true, false, ◌==◌, ==-eq, find_row, update_rows, count_rows,
}
use mathlib.Core.Path.{ap₂}
use facilitator.Settlement.State.{State}
use facilitator.Settlement.Errors.{ok, >>=-ok, state_changed, signature_conflict}
use facilitator.Settlement.Work.{Intent, IntentRequest}
use facilitator.Store.Schema.{Payment, Transaction, SignerAccount, Status, Db, accepted}
use facilitator.Store.Statements.{payment_in}
use facilitator.Store.Statements.Success.{>>-ok}
use facilitator.Store.Signer.{account_at, allocate_nonce}
use facilitator.Store.Intent.{
  reserve, requested, commit_intent, signature_agrees, intent_row, accepted_intent,
}
use facilitator.Store.Nonces.Allocation.{
  find_row-raise, allocate_nonce-ok, commit_intent-ok, reserved, counted,
}
use facilitator.Walletproof.{normalize_address}

-- The request's own values, the signer's next nonce, and no hash yet.
pub record Fresh (new_id : ℕ) (request : IntentRequest) (signer : Text) (p : Payment) (nonce : ℕ)
    (intent : Intent) : Type 0 where
  pub of_payment : (intent.payment_id ≡ p.id) × (intent.payment_identity ≡ request.payment_identity)
  pub of_transaction : intent.transaction_id ≡ new_id
  pub by_signer : (intent.signer_address ≡ signer) × (intent.nonce ≡ nonce)
  pub no_hash : intent.tx_hash ≡ []
  pub first :
      (intent.duplicate ≡ false) × (intent.is_reverted ≡ false) × (intent.is_confirmed ≡ false)

-- The row that was inserted: an intent of this payment with this nonce, of which nothing is signed.
pub record Unsigned (new_id : ℕ) (signer : Text) (p : Payment) (nonce clock : ℕ) (t : Transaction)
    : Type 0 where
  pub identified : (t.id ≡ new_id) × (t.payment_id ≡ p.id)
  pub by_signer : (t.signer_address ≡ signer) × (t.transaction_nonce ≡ nonce)
  pub is_intent : t.status ≡ Status.intent
  pub nothing_signed :
      (t.tx_hash ≡ none)
      × (t.raw_transaction_hash ≡ none)
      × (t.raw_transaction ≡ none)
      × (t.sighash ≡ none)
  pub nothing_priced :
      (t.gas_limit ≡ none) × (t.max_fee_per_gas ≡ none) × (t.max_priority_fee_per_gas ≡ none)
  pub unattempted : (t.broadcast_attempted_at ≡ none) × (t.ambiguous_attempts ≡ 0)
  pub dated : t.updated_at ≡ clock

-- The database `e` that a reservation leaves of `d`, with the intent that it returns.
pub record Written (new_id : ℕ) (request : IntentRequest) (signer : Text) (p : Payment) (d e : Db)
    (intent : Intent) : Type 0 where
  pub address : Text
  pub named : normalize_address signer ≡ some address
  pub account : SignerAccount
  pub sequence : find_row (account_at address) d.signer_accounts ≡ some account
  pub advanced :
      find_row (account_at address) e.signer_accounts
      ≡ some (record account { next_nonce = account.next_nonce + 1 })
  pub sequences :
      e.signer_accounts
      ≡ update_rows
          (account_at address)
          (λ b. record b { next_nonce = b.next_nonce + 1 })
          d.signer_accounts
  pub fresh : Fresh new_id request signer p account.next_nonce intent
  pub inserted : Transaction
  pub is_unsigned : Unsigned new_id signer p account.next_nonce d.clock inserted
  pub transactions : e.transactions ≡ inserted ∷ d.transactions
  pub one_payment : count_rows (payment_in p.id (p.state ∷ [])) d.payments ≡ 1
  pub payments :
      e.payments
      ≡ update_rows
          (payment_in p.id (p.state ∷ []))
          (λ q. record q {
            payer_signature = some request.payer_signature;
            state = State.broadcasting;
            settlement_requested_at = some d.clock;
            updated_at = d.clock;
          })
          d.payments
  pub signature : (s : Text) → p.payer_signature ≡ some s → s ≡ request.payer_signature
  pub audited :
      e.payment_transitions
      ≡ record {
        payment_id = p.id;
        from_state = p.state;
        to_state = State.broadcasting;
        actor_type = codes "http";
      }
        ∷ d.payment_transitions
  pub logged :
      e.settlement_attempts
      ≡ record {
        payment_id = some p.id;
        payment_identity = request.payment_identity;
        result = accepted;
        reason_code = [];
      }
        ∷ d.settlement_attempts
  pub untouched :
      (e.merchants ≡ d.merchants)
      × (e.verification_attempts ≡ d.verification_attempts)
      × (e.clock ≡ d.clock)

signature_agrees-eq :
    (stored : Option Text) (given s : Text)
    → signature_agrees stored given ≡ true
    → stored ≡ some s
    → s ≡ given
signature_agrees-eq none given s h e = absurd (cc)
signature_agrees-eq (some t) given s h e =
    let same : t ≡ s = cc in let agree = text_eq-eq t given h in cc

pub reserve-Written :
    (new_id : ℕ) (request : IntentRequest) (signer : Text) (p : Payment) (d e : Db)
    (intent : Intent)
    → reserve new_id request signer p d ≡ ok (e, intent)
    → Written new_id request signer p d e intent
unfolding reserve commit_intent requested
reserve-Written new_id request signer p d e intent h =
    let (agrees, h₁) =
      >>-ok (signature_agrees p.payer_signature request.payer_signature) signature_conflict _ h in
    let (t, at_t, h₂) = >>=-ok (allocate_nonce signer d) _ h₁ in
    let (address, account, named, found, same, after) = allocate_nonce-ok signer d t.0 t.1 at_t in
    let (one, h₃) =
      >>-ok (count_rows (payment_in p.id (p.state ∷ [])) (t.1).payments == 1) state_changed _ h₂ in
    let (is_e, is_intent) = commit_intent-ok new_id request signer p t.0 t.1 e intent h₂ in
    let e_is : e ≡ reserved new_id request signer p account.next_nonce (counted address d) =
      is_e ∙ ap₂ (reserved new_id request signer p) same after in
    let intent_is : intent ≡ accepted_intent new_id request signer p account.next_nonce =
      is_intent ∙ ap (accepted_intent new_id request signer p) same in
    let count : count_rows (payment_in p.id (p.state ∷ [])) d.payments ≡ 1 =
      sym (ap (λ (x : Db). count_rows (payment_in p.id (p.state ∷ [])) x.payments) after)
      ∙ ==-eq _ 1 one in
    subst (Written new_id request signer p d e) (sym intent_is) (
      subst
        (λ (x : Db).
          Written new_id request signer p d x
            (accepted_intent new_id request signer p account.next_nonce))
        (sym e_is)
        (record {
          address = address;
          named = named;
          account = account;
          sequence = found;
          advanced =
              find_row-raise address (λ b. record b { next_nonce = b.next_nonce + 1 })
                d.signer_accounts account (λ b. refl) found;
          sequences = refl;
          fresh = record {
            of_payment = (refl, refl);
            of_transaction = refl;
            by_signer = (refl, refl);
            no_hash = refl;
            first = (refl, refl, refl);
          };
          inserted = intent_row new_id p.id signer account.next_nonce d.clock;
          is_unsigned = record {
            identified = (refl, refl);
            by_signer = (refl, refl);
            is_intent = refl;
            nothing_signed = (refl, refl, refl, refl);
            nothing_priced = (refl, refl, refl);
            unattempted = (refl, refl);
            dated = refl;
          };
          transactions = refl;
          one_payment = count;
          payments = refl;
          signature = λ s. signature_agrees-eq p.payer_signature request.payer_signature s agrees;
          audited = refl;
          logged = refl;
          untouched = (refl, refl, refl);
        }))
