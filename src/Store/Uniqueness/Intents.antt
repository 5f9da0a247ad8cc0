-- ===== src/Store/Uniqueness/Intents.antt =====
-- internal/store/settlement.go: a new intent never competes with an active transaction.
use facilitator.Base.{
  ℕ, ◌≡◌, ◌≢◌, refl, ap, Option, none, some, Text, codes, Bool, true, false, count_rows, find_row,
  find_row-none-count, if◌then◌else◌, arith,
}
use facilitator.Settlement.State.{State}
use facilitator.Settlement.Errors.{
  Error, Result, ok, err, active_payment_violation, state_changed, signature_conflict,
  invalid_request, signer_account_unknown, payment_not_found,
}
use facilitator.Settlement.Work.{IntentRequest, Intent}
use facilitator.Store.Schema.{Payment, Transaction, Db}
use facilitator.Store.Statements.{active_of, active_unique, insert_transaction, record_transition}
use facilitator.Store.Statements.Success.{record_transition-ok}
use facilitator.Store.Signer.{allocate_nonce, parse_nonce, or_error, account_at}
use facilitator.Store.Nonces.Allocation.{allocate_nonce-ok}
use facilitator.Store.Intent.{
  Outcome, refusal, reserve, commit_intent, settle_once, settle_payment, create_settlement_intent,
  duplicate_intent, reject_settlement, terminal_transaction, identified_by, intent_row,
  is_valid_request,
}
use facilitator.Store.Uniqueness.{
  >>=-Clean, guard-Clean, record_transition-Clean, insert_transaction-Clean,
}
use facilitator.Walletproof.{normalize_address}

abbrev Vacant : ℕ → Db → Type 0
Vacant i d = (active_unique d.transactions ≡ true) × (count_rows (active_of i) d.transactions ≡ 0)

commit_intent-Clean :
    (new_id : ℕ) (request : IntentRequest) (signer : Text) (p : Payment) (nonce : ℕ) (d : Db)
    → Vacant p.id d
    → commit_intent new_id request signer p nonce d ≢ err active_payment_violation
unfolding commit_intent
commit_intent-Clean new_id request signer p nonce d v =
    guard-Clean _ state_changed _ (λ bad. ground arith)
      (>>=-Clean (record_transition p.id p.state State.broadcasting (codes "http") _) _
        (record_transition-Clean p.id p.state State.broadcasting (codes "http") _)
        (λ c at.
          >>=-Clean (insert_transaction (intent_row new_id p.id signer nonce d.clock) c) _
            (let rows : c.transactions ≡ d.transactions =
                ap (λ (x : Db). x.transactions)
                  (record_transition-ok p.id p.state State.broadcasting (codes "http") _ c at) in
              insert_transaction-Clean (intent_row new_id p.id signer nonce d.clock) c (rw rows v.0)
                (rw rows v.1))
            (λ e at_e bad. ground arith)))

or_error-Clean {ℓ} :
    {A : Type ℓ} (o : Option A) (x : Error)
    → x ≢ active_payment_violation
    → or_error o x ≢ err active_payment_violation
or_error-Clean none x h = λ bad. h (cc)
or_error-Clean (some a) x h = λ bad. ground arith

parse_nonce-Clean : (n : ℕ) → parse_nonce n ≢ err active_payment_violation
unfolding parse_nonce
parse_nonce-Clean n bad = ground arith

allocate_nonce-Clean :
    (signer : Text) (d : Db) → allocate_nonce signer d ≢ err active_payment_violation
unfolding allocate_nonce
allocate_nonce-Clean signer d =
    >>=-Clean (or_error (normalize_address signer) invalid_request) _
      (or_error-Clean (normalize_address signer) invalid_request (λ bad. ground arith))
      (λ address at.
        >>=-Clean
          (or_error (find_row (account_at address) d.signer_accounts) signer_account_unknown) _
          (or_error-Clean _ signer_account_unknown (λ bad. ground arith))
          (λ a at_a.
            >>=-Clean (parse_nonce a.next_nonce) _ (parse_nonce-Clean a.next_nonce)
              (λ n at_n bad. ground arith)))

reserve-Clean :
    (new_id : ℕ) (request : IntentRequest) (signer : Text) (p : Payment) (d : Db)
    → Vacant p.id d
    → reserve new_id request signer p d ≢ err active_payment_violation
unfolding reserve
reserve-Clean new_id request signer p d v =
    guard-Clean _ signature_conflict _ (λ bad. ground arith)
      (>>=-Clean (allocate_nonce signer d) _ (allocate_nonce-Clean signer d) (λ t at.
        let (address, a, named, found, same, after) = allocate_nonce-ok signer d t.0 t.1 at in
        let rows : (t.1).transactions ≡ d.transactions = ap (λ (x : Db). x.transactions) after in
        commit_intent-Clean new_id request signer p t.0 t.1 (rw rows v.0, rw rows v.1)))

abbrev Answers : Outcome → Type 0
Answers o = o.1 ≢ err active_payment_violation

settle_once-Answers :
    (r : Result (Db × Intent)) (d : Db)
    → r ≢ err active_payment_violation
    → Answers (settle_once r d)
settle_once-Answers (ok (e, i)) d h bad = ground arith
settle_once-Answers (err x) d h bad = h (cc)

find-Answers {ℓ} :
    {A : Type ℓ} (o : Option A) (missing : Outcome) (found : A → Outcome)
    → (o ≡ none → Answers missing)
    → ((a : A) → o ≡ some a → Answers (found a))
    → Answers (elim o as (λ x. Outcome) [ none ↦ missing | some a ↦ found a ])
find-Answers none missing found m f = m refl
find-Answers (some a) missing found m f = f a refl

if-Answers : (b : Bool) (x y : Outcome) → Answers x → Answers y → Answers (if b then x else y)
if-Answers true x y p q = p
if-Answers false x y p q = q

duplicate-Answers :
    (request : IntentRequest) (p : Payment) (t : Transaction) (r c : Bool) (d : Db)
    → Answers (duplicate_intent request p t r c d)
unfolding duplicate_intent parse_nonce
duplicate-Answers request p t r c d bad = ground arith

refusal-cause :
    (request : IntentRequest) (now : ℕ) (p : Payment) (d : Db) (r : Text × Error)
    → refusal request now p d ≡ some r
    → r.1 ≢ active_payment_violation
unfolding refusal
refusal-cause request now p d r h bad = ground arith

reject-Answers :
    (o : Option ℕ) (identity reason : Text) (cause : Error) (d : Db)
    → cause ≢ active_payment_violation
    → Answers (reject_settlement o identity reason cause d)
unfolding reject_settlement
reject-Answers o identity reason cause d h bad = h (cc)

settle_payment-Answers :
    (new_id : ℕ) (request : IntentRequest) (now : ℕ) (signer : Text) (p : Payment) (d : Db)
    → active_unique d.transactions ≡ true
    → Answers (settle_payment new_id request now signer p d)
unfolding settle_payment
settle_payment-Answers new_id request now signer p d h =
    find-Answers (terminal_transaction p d) _ _
      (λ e.
        find-Answers (find_row (active_of p.id) d.transactions) _ _
          (λ f.
            find-Answers (refusal request now p d) _ _
              (λ g. settle_once-Answers _ d (
                reserve-Clean new_id request signer p d
                  (h, find_row-none-count (active_of p.id) d.transactions f)))
              (λ r g.
                reject-Answers (some p.id) request.payment_identity r.0 r.1 d
                  (refusal-cause request now p d r g)))
          (λ t f. duplicate-Answers request p t false false d))
      (λ t e. duplicate-Answers request p t _ _ d)

-- Where the index on active transactions holds, creating an intent never violates it, on any branch.
pub create_settlement_intent-Clean :
    (new_id : ℕ) (request : IntentRequest) (d : Db)
    → active_unique d.transactions ≡ true
    → (create_settlement_intent new_id request d).1 ≢ err active_payment_violation
unfolding create_settlement_intent
create_settlement_intent-Clean new_id request d h =
    find-Answers request.now _ _ (λ e bad. ground arith)
      (λ now e.
        if-Answers (is_valid_request request) _ _
          (find-Answers (normalize_address request.signer_address) _ _ (λ f bad. ground arith)
            (λ signer f.
              find-Answers (find_row (identified_by request.payment_identity) d.payments) _ _
                (λ g.
                  reject-Answers none request.payment_identity (codes "payment_not_found")
                    payment_not_found d (λ bad. ground arith))
                (λ p g. settle_payment-Answers new_id request now signer p d h)))
          (λ bad. ground arith))
