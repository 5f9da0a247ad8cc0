-- ===== src/Store/Nonces.antt =====
-- internal/store/signer.go and settlement.go: who owns a nonce.
pub mod Allocation
pub mod Reservation
pub mod Seeding
pub mod Written
use facilitator.Base.{
  ℕ, ◌<◌, ◌≡◌, refl, sym, subst, Option, some, List, map, Memᴰ, Text, All, find_row,
}
use facilitator.Store.Schema.{SignerAccount, Db}
use facilitator.Store.Signer.{account_at}
use facilitator.Store.Evolution.{Moved, Key, key, Legal, Evolves}

abbrev pub Below : Text → ℕ → List SignerAccount → Type 0
Below signer nonce accounts =
    (a : SignerAccount) × (find_row (account_at signer) accounts ≡ some a) × (nonce < a.next_nonce)

-- Every nonce in use has been allocated from its signer's sequence, and belongs to one payment.
pub record NonceInv (d : Db) : Type 0 where
  pub below : (k : Key) → Memᴰ k (map key d.transactions) → Below k.1 k.2 d.signer_accounts
  pub owned :
      (j k : Key)
      → Memᴰ j (map key d.transactions)
      → Memᴰ k (map key d.transactions)
      → j.1 ≡ k.1
      → j.2 ≡ k.2
      → j.0 ≡ k.0

pub Evolves-NonceInv : {d e : Db} → Evolves d e → NonceInv d → NonceInv e
Evolves-NonceInv v inv = record {
  below = λ k m. subst (Below k.1 k.2) (sym v.accounts) (inv.below k (v.inherited k m));
  owned = λ j k mj mk. inv.owned j k (v.inherited j mj) (v.inherited k mk);
}

-- What every operation of the store keeps, those that allocate a nonce included.
pub record Grows (d e : Db) : Type 0 where
  pub moved : Moved d.payments e.payments
  pub audited : All Legal d.payment_transitions → All Legal e.payment_transitions
  pub nonces : NonceInv d → NonceInv e

pub Evolves-Grows : {d e : Db} → Evolves d e → Grows d e
Evolves-Grows v = record { moved = v.moved; audited = v.audited; nonces = Evolves-NonceInv v }
