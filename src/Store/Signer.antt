-- ===== src/Store/Signer.antt =====
-- internal/store/signer.go: the nonce sequence of a signer address.
use facilitator.Base.{
  ℕ, ◌+◌, ◌^◌, Option, none, some, ◌∷◌, Text, text_eq, Bool, ltb, max, find_row, update_rows,
  if◌then◌else◌,
}
use facilitator.Settlement.Errors.{
  Error, Result, ok, err, ◌>>=◌, signer_account_unknown, invalid_request,
}
use facilitator.Store.Schema.{SignerAccount, Db}
use facilitator.Walletproof.{normalize_address}

abbrev pub or_error {ℓ} : {A : Type ℓ} → Option A → Error → Result A
or_error none e = err e
or_error (some a) e = ok a

unfoldable pub account_at : Text → SignerAccount → Bool
unfolding text_eq
account_at address a = text_eq a.signer_address address

-- parseNonce: a numeric beyond uint64 is a corrupted sequence.
unfoldable pub parse_nonce : ℕ → Result ℕ
parse_nonce n = if ltb n (2 ^ 64) then ok n else err invalid_request

unfoldable pub seed_signer_account : Text → ℕ → Db → Result (ℕ × Db)
unfolding account_at parse_nonce find_row update_rows
seed_signer_account signer_address chain_nonce db = do
  address ← or_error (normalize_address signer_address) invalid_request
  elim (find_row (account_at address) db.signer_accounts) [
    | none ↦ do
      stored ← parse_nonce chain_nonce
      ok (
        stored,
        record db {
          signer_accounts =
              record { signer_address = address; next_nonce = chain_nonce } ∷ db.signer_accounts;
        },
      )
    | some a ↦ do
      stored ← parse_nonce (max a.next_nonce chain_nonce)
      ok (
        stored,
        record db {
          signer_accounts =
              update_rows (account_at address)
                (λ b. record b { next_nonce = max b.next_nonce chain_nonce }) db.signer_accounts;
        },
      )
  ]

unfoldable pub allocate_nonce : Text → Db → Result (ℕ × Db)
unfolding account_at parse_nonce find_row update_rows
allocate_nonce signer_address db = do
  address ← or_error (normalize_address signer_address) invalid_request
  account ← or_error (find_row (account_at address) db.signer_accounts) signer_account_unknown
  nonce ← parse_nonce account.next_nonce
  ok (
    nonce,
    record db {
      signer_accounts =
          update_rows (account_at address) (λ a. record a { next_nonce = a.next_nonce + 1 })
            db.signer_accounts;
    },
  )
