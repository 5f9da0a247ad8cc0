-- ===== src/Store/Nonces/Reservation.antt =====
-- internal/store/settlement.go and signer.go: CreateSettlementIntent and SeedSignerAccount keep the
-- nonce invariant, the audit and the edges of the state machine.
use facilitator.Base.{
  ℕ, ◌+◌, ◌≡◌, refl, sym, ap, ◌∙◌, subst, Option, none, some, List, [], ◌∷◌, map, Memᴰ, Text, codes,
  Bool, true, false, find_row, update_rows, Bool-cases, inl, inr, ◌⊎◌, arith, if◌then◌else◌,
}
use mathlib.Core.List.Memᴰ
use facilitator.Settlement.State.{State, can_transition}
use facilitator.Settlement.State.Laws.{edge, state_eq-eq}
use facilitator.Settlement.Errors.{Error, Result, ok, err, payment_not_found}
use facilitator.Settlement.Work.{Intent, IntentRequest}
use facilitator.Store.Schema.{Payment, Transaction, SignerAccount, Db, AttemptResult}
use facilitator.Store.Statements.{payment_in, active_of}
use facilitator.Store.Signer.{account_at, parse_nonce}
use facilitator.Store.Intent.{
  reserve, requested, intent_row, with_attempt, refusal, settle_payment, settle_once,
  create_settlement_intent, reject_settlement, duplicate_intent, terminal_transaction,
  identified_by, is_valid_request, hash_or_empty,
}
use facilitator.Store.Evolution.{Moved-refl, Moved-update_rows, Key, key, Evolves, Evolves-refl}
use facilitator.Store.Nonces.{Below, NonceInv, Grows, Evolves-Grows}
use facilitator.Store.Nonces.Allocation.{raise-Below, find_row-raise, reserve-ok}
use facilitator.Walletproof.{normalize_address}
use facilitator.Walletproof.Normal.{normalize_address_twice}

-- A row whose nonce is the sequence's next number keeps every nonce with one payment.
new_key-NonceInv :
    (d e : Db) (address : Text) (a : SignerAccount) (t : Transaction)
    → find_row (account_at address) d.signer_accounts ≡ some a
    → t.signer_address ≡ address
    → t.transaction_nonce ≡ a.next_nonce
    → e.transactions ≡ t ∷ d.transactions
    → e.signer_accounts
      ≡ update_rows
          (account_at address)
          (λ b. record b { next_nonce = b.next_nonce + 1 })
          d.signer_accounts
    → NonceInv d
    → NonceInv e
new_key-NonceInv d e address a t found signed next rows accounts inv = record {
  below = below;
  owned = owned;
}
  where
    raised : List SignerAccount
    raised =
        update_rows (account_at address) (λ b. record b { next_nonce = b.next_nonce + 1 })
          d.signer_accounts

    old_or_new :
        (k : Key) → Memᴰ k (map key e.transactions) → (k ≡ key t) ⊎ Memᴰ k (map key d.transactions)
    old_or_new k m = Memᴰ.cases_cons (subst (λ ts. Memᴰ k (map key ts)) rows m)

    below : (k : Key) → Memᴰ k (map key e.transactions) → Below k.1 k.2 e.signer_accounts
    below k m = subst (Below k.1 k.2) (sym accounts) (elim (old_or_new k m) [
      | inr old ↦
          raise-Below (account_at address) _ k.1 k.2 d.signer_accounts (λ b. refl)
            (λ b. omega arith) (inv.below k old)
      | inl e ↦ subst (λ j. Below j.1 j.2 raised) (sym e) new_below
    ])
      where
        new_below : Below t.signer_address t.transaction_nonce raised
        new_below = (
          record a { next_nonce = a.next_nonce + 1 },
          subst
              (λ s.
                find_row (account_at s) raised ≡ some (record a { next_nonce = a.next_nonce + 1 }))
              (sym signed) (find_row-raise address _ d.signer_accounts a (λ b. refl) found),
          omega (arith, next),
        )

    clash :
        (k : Key)
        → Memᴰ k (map key d.transactions)
        → k.1 ≡ t.signer_address
        → k.2 ≡ t.transaction_nonce
        → ⊥
    clash k m same_signer same_nonce =
        let (b, at_b, lt) = inv.below k m in
        let at_a : some b ≡ some a =
          sym at_b
          ∙ subst (λ s. find_row (account_at s) d.signer_accounts ≡ some a)
              (sym (same_signer ∙ signed)) found in
        let same : b.next_nonce ≡ a.next_nonce = ground arith in omega arith

    owned :
        (j k : Key)
        → Memᴰ j (map key e.transactions)
        → Memᴰ k (map key e.transactions)
        → j.1 ≡ k.1
        → j.2 ≡ k.2
        → j.0 ≡ k.0
    owned j k mj mk s n = elim (old_or_new j mj) [
      | inl ej ↦ elim (old_or_new k mk) [
        | inl ek ↦ ap (λ x. x.0) (ej ∙ sym ek)
        | inr ok_ ↦ absurd (clash k ok_ (sym s ∙ ap (λ x. x.1) ej) (sym n ∙ ap (λ x. x.2) ej))
      ]
      | inr oj ↦ elim (old_or_new k mk) [
        | inl ek ↦ absurd (clash j oj (s ∙ ap (λ x. x.1) ek) (n ∙ ap (λ x. x.2) ek))
        | inr ok_ ↦ inv.owned j k oj ok_ s n
      ]
    ]

same_state : (i : ℕ) (s : State) (q : Payment) → payment_in i (s ∷ []) q ≡ true → q.state ≡ s
unfolding payment_in
same_state i s q h = state_eq-eq q.state s (ground arith)

reserve-Grows :
    (new_id : ℕ) (request : IntentRequest) (signer : Text) (p : Payment) (d e : Db)
    (intent : Intent)
    → normalize_address signer ≡ some signer
    → can_transition p.state State.broadcasting ≡ true
    → reserve new_id request signer p d ≡ ok (e, intent)
    → Grows d e
unfolding requested
reserve-Grows new_id request signer p d e intent normal legal h =
    let (address, a, named, found, is_e, is_intent) =
      reserve-ok new_id request signer p d e intent h in
    let same : signer ≡ address = cc in
    subst (Grows d) (sym is_e) (record {
      moved =
          Moved-update_rows (payment_in p.id (p.state ∷ []))
            (requested request.payer_signature d.clock) d.payments
            (λ q t. (
              refl,
              edge (
                  subst (λ s. can_transition s State.broadcasting ≡ true)
                    (sym (same_state p.id p.state q t)) legal),
            ));
      audited = λ all. (legal, all);
      nonces =
          new_key-NonceInv d _ address a (intent_row new_id p.id signer a.next_nonce d.clock) found
            same refl refl refl;
    })

attempt-Evolves :
    (o : Option ℕ) (identity : Text) (r : AttemptResult) (reason : Text) (d : Db)
    → Evolves d (with_attempt o identity r reason d)
attempt-Evolves o identity r reason d = record {
  moved = Moved-refl d.payments;
  audited = λ a. a;
  inherited = λ k m. m;
  accounts = refl;
}

reject-Grows :
    (o : Option ℕ) (identity reason : Text) (cause : Error) (d : Db)
    → Grows d (reject_settlement o identity reason cause d).0
unfolding reject_settlement
reject-Grows o identity reason cause d =
    Evolves-Grows (attempt-Evolves o identity AttemptResult.rejected reason d)

duplicate-Grows :
    (request : IntentRequest) (p : Payment) (t : Transaction) (r c : Bool) (d : Db)
    → Grows d (duplicate_intent request p t r c d).0
unfolding duplicate_intent
duplicate-Grows request p t r c d = by_nonce (parse_nonce t.transaction_nonce)
  where
    by_nonce :
        (n : Result ℕ)
        → Grows d
            (elim n as (λ x. Db × Result Intent) [
              | err e ↦ (d, err e)
              | ok nonce ↦ (
                with_attempt (some p.id) request.payment_identity AttemptResult.duplicate [] d,
                ok (record {
                  payment_id = p.id;
                  payment_identity = request.payment_identity;
                  transaction_id = t.id;
                  signer_address = t.signer_address;
                  nonce = nonce;
                  tx_hash = hash_or_empty t.tx_hash;
                  is_reverted = r;
                  is_confirmed = c;
                  duplicate = true;
                }),
              )
            ]).0
    by_nonce (err e) = Evolves-Grows (Evolves-refl d)
    by_nonce (ok n) =
        Evolves-Grows
          (attempt-Evolves (some p.id) request.payment_identity AttemptResult.duplicate [] d)

-- A payment that is not refused can move to broadcasting.
pub refusal-none-legal :
    (request : IntentRequest) (now : ℕ) (p : Payment) (d : Db)
    → refusal request now p d ≡ none
    → can_transition p.state State.broadcasting ≡ true
unfolding refusal
refusal-none-legal request now p d h =
    elim (Bool-cases (can_transition p.state State.broadcasting)) [
      | inl e ↦ e
      | inr e ↦ absurd (ground arith)
    ]

settle_once-Grows :
    (r : Result (Db × Intent)) (d : Db)
    → ((e : Db) (i : Intent) → r ≡ ok (e, i) → Grows d e)
    → Grows d (settle_once r d).0
settle_once-Grows (ok (e, i)) d h = h e i refl
settle_once-Grows (err x) d h = Evolves-Grows (Evolves-refl d)

outcome-find {ℓ} :
    {A : Type ℓ} (d : Db) (o : Option A) (missing : Db × Result Intent)
    (found : A → Db × Result Intent)
    → (o ≡ none → Grows d missing.0)
    → ((a : A) → o ≡ some a → Grows d (found a).0)
    → Grows d (elim o as (λ x. Db × Result Intent) [ none ↦ missing | some a ↦ found a ]).0
outcome-find d none missing found m f = m refl
outcome-find d (some a) missing found m f = f a refl

outcome-if :
    (d : Db) (b : Bool) (x y : Db × Result Intent)
    → Grows d x.0
    → Grows d y.0
    → Grows d (if b then x else y).0
outcome-if d true x y p q = p
outcome-if d false x y p q = q

settle_payment-Grows :
    (new_id : ℕ) (request : IntentRequest) (now : ℕ) (signer : Text) (p : Payment) (d : Db)
    → normalize_address signer ≡ some signer
    → Grows d (settle_payment new_id request now signer p d).0
unfolding settle_payment
settle_payment-Grows new_id request now signer p d normal =
    outcome-find d (terminal_transaction p d) _ _
      (λ e.
        outcome-find d (find_row (active_of p.id) d.transactions) _ _
          (λ f.
            outcome-find d (refusal request now p d) _ _
              (λ g. settle_once-Grows (reserve new_id request signer p d) d (λ c i h.
                reserve-Grows new_id request signer p d c i normal
                  (refusal-none-legal request now p d g) h))
              (λ r g. reject-Grows (some p.id) request.payment_identity r.0 r.1 d))
          (λ t f. duplicate-Grows request p t _ _ d))
      (λ t e. duplicate-Grows request p t _ _ d)

-- CreateSettlementIntent, on every branch.
pub create_settlement_intent-Grows :
    (new_id : ℕ) (request : IntentRequest) (d : Db)
    → Grows d (create_settlement_intent new_id request d).0
unfolding create_settlement_intent
create_settlement_intent-Grows new_id request d =
    outcome-find d request.now _ _ (λ e. Evolves-Grows (Evolves-refl d))
      (λ now e.
        outcome-if d (is_valid_request request) _ _
          (outcome-find d (normalize_address request.signer_address) _ _
            (λ f. Evolves-Grows (Evolves-refl d))
            (λ signer f.
              outcome-find d (find_row (identified_by request.payment_identity) d.payments) _ _
                (λ g.
                  reject-Grows none request.payment_identity (codes "payment_not_found")
                    payment_not_found d)
                (λ p g.
                  settle_payment-Grows new_id request now signer p d
                    (normalize_address_twice request.signer_address signer f))))
          (Evolves-Grows (Evolves-refl d)))
