-- ===== src/Store/Nonces/Allocation.antt =====
-- internal/store/signer.go and settlement.go: seeding a sequence and reserving a nonce keep every
-- nonce with its one payment.
use facilitator.Base.{
  ℕ, ◌+◌, ◌^◌, ◌≤◌, ◌≡◌, refl, sym, ap, ◌∙◌, Option, none, some, List, [], ◌∷◌, Text, text_eq, Bool,
  true, false, ltb, find_row, find_row-update_rows_self, update_rows, Bool-cases, inl, inr, ◌⊎◌,
  arith, if◌then◌else◌, codes,
}
use mathlib.Core.Path.{ap₂}
use facilitator.Settlement.State.{State}
use facilitator.Settlement.Errors.{
  Error, ok, err, >>=-ok, ok_injective, invalid_request, signer_account_unknown,
}
use facilitator.Settlement.Work.{Intent, IntentRequest}
use facilitator.Store.Schema.{Payment, SignerAccount, Db, accepted}
use facilitator.Store.Statements.{insert_transaction, record_transition, payment_in}
use facilitator.Store.Statements.Success.{
  >>-ok, insert_transaction-ok, record_transition-ok, with_audit, with_rows,
}
use facilitator.Store.Signer.{account_at, allocate_nonce, parse_nonce, or_error}
use facilitator.Store.Intent.{
  reserve, requested, intent_row, commit_intent, accepted_intent, with_attempt,
}
use facilitator.Store.Nonces.{Below}
use facilitator.Walletproof.{normalize_address}

-- A write that never lowers a sequence keeps a nonce below it.
pub raise-Below :
    (test : SignerAccount → Bool) (f : SignerAccount → SignerAccount) (signer : Text) (nonce : ℕ)
    (accounts : List SignerAccount)
    → ((a : SignerAccount) → (f a).signer_address ≡ a.signer_address)
    → ((a : SignerAccount) → a.next_nonce ≤ (f a).next_nonce)
    → Below signer nonce accounts
    → Below signer nonce (update_rows test f accounts)
unfolding update_rows find_row account_at
raise-Below test f signer nonce [] same up (a, e, lt) = absurd (cc)
raise-Below test f signer nonce (b ∷ rest) same up (a, e, lt) =
    split (test b) refl (Bool-cases (account_at signer b))
      (λ found. raise-Below test f signer nonce rest same up (a, found, lt))
  where
    split :
        (t : Bool)
        → test b ≡ t
        → (account_at signer b ≡ true) ⊎ (account_at signer b ≡ false)
        → (find_row (account_at signer) rest ≡ some a
            → Below signer nonce (update_rows test f rest))
        → Below signer nonce ((if t then f b else b) ∷ update_rows test f rest)
    split true te (inl hit) ih = (f b, ground (arith, same b), ground (arith, up b))
    split false te (inl hit) ih = (b, ground arith, ground arith)
    split true te (inr miss) ih =
        let (c, at_c, up_c) = ih (ground arith) in (c, ground (arith, same b), up_c)
    split false te (inr miss) ih =
        let (c, at_c, up_c) = ih (ground arith) in (c, ground arith, up_c)

-- The row that a raise selects has its new sequence.
pub find_row-raise :
    (signer : Text) (f : SignerAccount → SignerAccount) (accounts : List SignerAccount)
    (a : SignerAccount)
    → ((b : SignerAccount) → (f b).signer_address ≡ b.signer_address)
    → find_row (account_at signer) accounts ≡ some a
    → find_row (account_at signer) (update_rows (account_at signer) f accounts) ≡ some (f a)
find_row-raise signer f accounts a same h =
    find_row-update_rows_self (account_at signer) f accounts a keep h
  where
    keep : (b : SignerAccount) → account_at signer (f b) ≡ account_at signer b
    keep b = unfold account_at in ap (λ s. text_eq s signer) (same b)

or_error-ok {ℓ} : {A : Type ℓ} (o : Option A) (x : Error) {a : A} → or_error o x ≡ ok a → o ≡ some a
or_error-ok none x h = absurd (cc)
or_error-ok (some b) x h = cc

parse_nonce-ok : (n m : ℕ) → parse_nonce n ≡ ok m → m ≡ n
unfolding parse_nonce
parse_nonce-ok n m h = elim (Bool-cases (ltb n (2 ^ 64))) [
  | inl e ↦ let k : ok n ≡ ok m = rw e at h in cc
  | inr e ↦ absurd (let k : err invalid_request ≡ ok m = rw e at h in cc)
]

abbrev pub counted : Text → Db → Db
counted address d = record d {
  signer_accounts =
      update_rows (account_at address) (λ b. record b { next_nonce = b.next_nonce + 1 })
        d.signer_accounts;
}

-- A successful allocation takes the sequence's next number, and moves the sequence on.
pub allocate_nonce-ok :
    (signer : Text) (d : Db) (nonce : ℕ) (c : Db)
    → allocate_nonce signer d ≡ ok (nonce, c)
    → (address : Text) × (a : SignerAccount) × (normalize_address signer ≡ some address)
      × (find_row (account_at address) d.signer_accounts ≡ some a)
      × (nonce ≡ a.next_nonce)
      × (c ≡ counted address d)
unfolding allocate_nonce
allocate_nonce-ok signer d nonce c h =
    let (address, at_address, h₁) =
      >>=-ok (or_error (normalize_address signer) invalid_request) _ h in
    let (a, at_a, h₂) =
      >>=-ok (or_error (find_row (account_at address) d.signer_accounts) signer_account_unknown) _
        h₁ in
    let (n, at_n, h₃) = >>=-ok (parse_nonce a.next_nonce) _ h₂ in
    let same : n ≡ a.next_nonce = parse_nonce-ok a.next_nonce n at_n in
    (
      address,
      a,
      or_error-ok _ _ at_address,
      or_error-ok _ _ at_a,
      sym (ap (λ t. t.0) (ok_injective h₃)) ∙ same,
      sym (ap (λ t. t.1) (ok_injective h₃)),
    )

-- What a reservation writes.
abbrev pub reserved : ℕ → IntentRequest → Text → Payment → ℕ → Db → Db
reserved new_id request signer p nonce d =
    with_attempt (some p.id) request.payment_identity accepted []
      (with_rows audited (intent_row new_id p.id signer nonce d.clock ∷ d.transactions))
  where
    audited : Db
    audited = with_audit p.id p.state State.broadcasting (codes "http") (record d {
      payments =
          update_rows (payment_in p.id (p.state ∷ [])) (requested request.payer_signature d.clock)
            d.payments;
    })

pub commit_intent-ok :
    (new_id : ℕ) (request : IntentRequest) (signer : Text) (p : Payment) (nonce : ℕ) (d e : Db)
    (intent : Intent)
    → commit_intent new_id request signer p nonce d ≡ ok (e, intent)
    → (e ≡ reserved new_id request signer p nonce d)
      × (intent ≡ accepted_intent new_id request signer p nonce)
unfolding commit_intent
commit_intent-ok new_id request signer p nonce d e intent h =
    let (one, h₁) = >>-ok _ _ _ h in
    let (audited, at_audited, h₂) =
      >>=-ok (record_transition p.id p.state State.broadcasting (codes "http") _) _ h₁ in
    let (inserted, at_inserted, h₃) =
      >>=-ok (insert_transaction (intent_row new_id p.id signer nonce d.clock) audited) _ h₂ in
    let is_audited =
      record_transition-ok p.id p.state State.broadcasting (codes "http") _ audited at_audited in
    let is_inserted =
      insert_transaction-ok (intent_row new_id p.id signer nonce d.clock) audited inserted
        at_inserted in
    (
      sym (ap (λ t. t.0) (ok_injective h₃))
          ∙ ap (with_attempt (some p.id) request.payment_identity accepted []) (
              is_inserted
              ∙ ap
                  (λ (x : Db).
                    with_rows x (intent_row new_id p.id signer nonce d.clock ∷ x.transactions))
                  is_audited),
      sym (ap (λ t. t.1) (ok_injective h₃)),
    )

-- A reservation that succeeds takes the signer's next nonce, moves the sequence on by one, and writes
-- the payment's move to broadcasting, its audit row, the intent's transaction and the accepted
-- attempt, and nothing else.
pub reserve-ok :
    (new_id : ℕ) (request : IntentRequest) (signer : Text) (p : Payment) (d e : Db)
    (intent : Intent)
    → reserve new_id request signer p d ≡ ok (e, intent)
    → (address : Text) × (a : SignerAccount) × (normalize_address signer ≡ some address)
      × (find_row (account_at address) d.signer_accounts ≡ some a)
      × (e ≡ reserved new_id request signer p a.next_nonce (counted address d))
      × (intent ≡ accepted_intent new_id request signer p a.next_nonce)
unfolding reserve
reserve-ok new_id request signer p d e intent h =
    let (agrees, h₁) = >>-ok _ _ _ h in
    let (t, at_t, h₂) = >>=-ok (allocate_nonce signer d) _ h₁ in
    let (address, a, named, found, same, after) = allocate_nonce-ok signer d t.0 t.1 at_t in
    let (is_e, is_intent) = commit_intent-ok new_id request signer p t.0 t.1 e intent h₂ in
    (
      address,
      a,
      named,
      found,
      is_e ∙ ap₂ (reserved new_id request signer p) same after,
      is_intent ∙ ap (accepted_intent new_id request signer p) same,
    )
