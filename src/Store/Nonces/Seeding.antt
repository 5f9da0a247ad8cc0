-- ===== src/Store/Nonces/Seeding.antt =====
-- internal/store/signer.go: SeedSignerAccount never lowers a sequence, so it keeps the nonce invariant.
use facilitator.Base.{
  ℕ, ◌≡◌, refl, sym, subst, Option, none, some, List, ◌∷◌, Text, text_eq, text_eq-eq, max, find_row,
  update_rows, Bool-cases, inl, inr, arith,
}
use facilitator.Settlement.Errors.{Result, ok, err, invalid_request, ◌>>=◌}
use facilitator.Store.Schema.{SignerAccount, Db}
use facilitator.Store.Signer.{account_at, seed_signer_account, parse_nonce, or_error}
use facilitator.Store.Evolution.{Moved-refl, Evolves-refl}
use facilitator.Store.Evolution.Leases.{db_after}
use facilitator.Store.Nonces.{Below, Grows, Evolves-Grows}
use facilitator.Store.Nonces.Allocation.{raise-Below}
use facilitator.Walletproof.{normalize_address}

-- A write to the sequences alone that keeps every nonce below its sequence.
accounts-Grows :
    (d : Db) (accounts : List SignerAccount)
    → ((signer : Text) (nonce : ℕ)
        → Below signer nonce d.signer_accounts
        → Below signer nonce accounts)
    → Grows d (record d { signer_accounts = accounts })
accounts-Grows d accounts keep = record {
  moved = Moved-refl d.payments;
  audited = λ a. a;
  nonces = λ inv. record { below = λ k m. keep k.1 k.2 (inv.below k m); owned = inv.owned };
}

new_account-Below :
    (address : Text) (next nonce : ℕ) (signer : Text) (accounts : List SignerAccount)
    → find_row (account_at address) accounts ≡ none
    → Below signer nonce accounts
    → Below signer nonce (record { signer_address = address; next_nonce = next } ∷ accounts)
unfolding find_row account_at
new_account-Below address next nonce signer accounts missing (a, found, lt) =
    elim (Bool-cases (text_eq address signer)) [
      | inl e ↦
          let clash : find_row (account_at address) accounts ≡ some a =
            subst (λ s. find_row (account_at s) accounts ≡ some a)
              (sym (text_eq-eq address signer e)) found in
          absurd (cc)
      | inr e ↦ (a, ground arith, lt)
    ]

pub seed_signer_account-Grows :
    (signer_address : Text) (chain_nonce : ℕ) (d : Db)
    → Grows d (db_after d (seed_signer_account signer_address chain_nonce d))
unfolding seed_signer_account
seed_signer_account-Grows signer_address chain_nonce d = named (normalize_address signer_address)
  where
    same : Grows d d
    same = Evolves-Grows (Evolves-refl d)

    fresh :
        (address : Text)
        → find_row (account_at address) d.signer_accounts ≡ none
        → (r : Result ℕ)
        → Grows d (
            db_after d (
              r >>= λ stored. ok (
                stored,
                record d {
                  signer_accounts =
                      record { signer_address = address; next_nonce = chain_nonce }
                      ∷ d.signer_accounts;
                },
              )))
    fresh address missing (err x) = same
    fresh address missing (ok stored) = accounts-Grows d _ (λ signer nonce b.
        new_account-Below address chain_nonce nonce signer d.signer_accounts missing b)

    known :
        (address : Text)
        → (r : Result ℕ)
        → Grows d (
            db_after d (
              r >>= λ stored. ok (
                stored,
                record d {
                  signer_accounts =
                      update_rows
                        (account_at address)
                        (λ b. record b { next_nonce = max b.next_nonce chain_nonce })
                        d.signer_accounts;
                },
              )))
    known address (err x) = same
    known address (ok stored) = accounts-Grows d _ (λ signer nonce b.
        raise-Below (account_at address) _ signer nonce d.signer_accounts (λ c. refl)
          (λ c. omega arith) b)

    found :
        (address : Text) (o : Option SignerAccount)
        → find_row (account_at address) d.signer_accounts ≡ o
        → Grows d (
            db_after d (elim o as (λ x. Result (ℕ × Db)) [
              | none ↦ parse_nonce chain_nonce >>= λ stored. ok (
                stored,
                record d {
                  signer_accounts =
                      record { signer_address = address; next_nonce = chain_nonce }
                      ∷ d.signer_accounts;
                },
              )
              | some a ↦ parse_nonce (max a.next_nonce chain_nonce) >>= λ stored. ok (
                stored,
                record d {
                  signer_accounts =
                      update_rows
                        (account_at address)
                        (λ b. record b { next_nonce = max b.next_nonce chain_nonce })
                        d.signer_accounts;
                },
              )
            ]))
    found address none e = fresh address e (parse_nonce chain_nonce)
    found address (some a) e = known address (parse_nonce (max a.next_nonce chain_nonce))

    named :
        (o : Option Text)
        → Grows d (
            db_after d (
              or_error o invalid_request >>= λ address.
              elim (find_row (account_at address) d.signer_accounts) as (λ x. Result (ℕ × Db)) [
                | none ↦ parse_nonce chain_nonce >>= λ stored. ok (
                  stored,
                  record d {
                    signer_accounts =
                        record { signer_address = address; next_nonce = chain_nonce }
                        ∷ d.signer_accounts;
                  },
                )
                | some a ↦ parse_nonce (max a.next_nonce chain_nonce) >>= λ stored. ok (
                  stored,
                  record d {
                    signer_accounts =
                        update_rows
                          (account_at address)
                          (λ b. record b { next_nonce = max b.next_nonce chain_nonce })
                          d.signer_accounts;
                  },
                )
              ]))
    named none = same
    named (some address) = found address (find_row (account_at address) d.signer_accounts) refl
