-- ===== src/Settlement/Sweep/Hashes.antt =====
-- internal/settlement/recovery.go: the hashes of what recovery signs, and of the row it has loaded.
use facilitator.Base.{
  ℕ, ◌≡◌, refl, sym, ap, subst, ◌∙◌, Option, none, some, map, Memᴰ, Text, text_eq, is_empty, Bool,
  true, false, find_row, find_row-mem, ◌==◌, if◌then◌else◌,
}
use mathlib.Core.List.Memᴰ
use facilitator.Settlement.Errors.{
  Error, Result, ok, ◌>>=◌, ◌>>◌, guard, >>=-ok, ok_injective, sighash_mismatch, raw_hash_mismatch,
  no_rows,
}
use facilitator.Settlement.Work.{Work, Replacement}
use facilitator.Settlement.Service.{Config, Network, SignedTransaction}
use facilitator.Settlement.Recovery.{
  sign, resigned, sign_identical, replacement_fees, sign_replacement, price_replacement,
}
use facilitator.Settlement.Sweep.Actions.{hash_column}
use facilitator.Store.Schema.{Payment, Transaction, Db}
use facilitator.Store.Statements.{active_of}
use facilitator.Store.Statements.Success.{>>-ok}
use facilitator.Store.Signer.{or_error, parse_nonce}
use facilitator.Store.Load.{or_empty, load_settlement_work, load_authorization, load_gas_limit}

pub or_error-ok {ℓ} :
    {A : Type ℓ} (o : Option A) (e : Error) (a : A) → or_error o e ≡ ok a → o ≡ some a
or_error-ok none e a h = absurd (cc)
or_error-ok (some b) e a h = rw (ok_injective h)

or_empty-some : (o : Option Text) → is_empty (or_empty o) ≡ false → o ≡ some (or_empty o)
or_empty-some none h = absurd (cc)
or_empty-some (some t) h = refl

row-hash :
    (t : Transaction) (d : Db) (id : ℕ) (hash : Text)
    → Memᴰ t d.transactions
    → t.id ≡ id
    → or_empty t.raw_transaction_hash ≡ hash
    → is_empty hash ≡ false
    → Memᴰ (id, some hash) (map hash_column d.transactions)
row-hash t d id hash m is held full =
    subst (λ c. Memᴰ c (map hash_column d.transactions)) same (Memᴰ.map hash_column m)
  where
    same : hash_column t ≡ (id, some hash)
    same = rw is (rw (or_empty-some t.raw_transaction_hash (rw held full)) (rw held))

-- The row that the work was loaded from.
pub load-hash :
    (payment_id : ℕ) (d : Db) (work : Work)
    → load_settlement_work payment_id d ≡ ok work
    → is_empty work.raw_hash ≡ false
    → Memᴰ (work.transaction_id, some work.raw_hash) (map hash_column d.transactions)
unfolding load_settlement_work
load-hash payment_id d work h full =
    let (p, at_p, h₁) =
      >>=-ok (or_error (find_row (λ (p : Payment). p.id == payment_id) d.payments) no_rows) _ h in
    let (t, at_t, h₂) =
      >>=-ok (or_error (find_row (active_of payment_id) d.transactions) no_rows) _ h₁ in
    let (authorization, at_a, h₃) = >>=-ok (load_authorization p) _ h₂ in
    let (nonce, at_n, h₄) = >>=-ok (parse_nonce t.transaction_nonce) _ h₃ in
    let (gas_limit, at_g, h₅) = >>=-ok (load_gas_limit t.gas_limit) _ h₄ in
    let same = ok_injective h₅ in
    row-hash t d work.transaction_id work.raw_hash
      (find_row-mem (active_of payment_id) d.transactions t (or_error-ok _ no_rows t at_t))
      (ap (λ w. w.transaction_id) same) (ap (λ w. w.raw_hash) same) full

two_guards {ℓ} :
    {A : Type ℓ} (b c : Bool) (x y : Error) (r : Result A) {a : A}
    → (guard b x >> (guard c y >> r)) ≡ ok a
    → r ≡ ok a
two_guards b c x y r h = (>>-ok c y r (>>-ok b x (guard c y >> r) h).1).1

pub sign_identical-hash :
    (network : Network) (work : Work) (max_fee priority : ℕ) (raw raw_hash : Text)
    → sign_identical network work max_fee priority ≡ ok (raw, raw_hash)
    → raw_hash ≡ network.keccak256 raw
unfolding sign_identical
sign_identical-hash network work max_fee priority raw raw_hash h =
    let (signed, at_s, h₁) =
      >>=-ok (sign network work.authorization (λ calldata. resigned work calldata max_fee priority))
        _ h in
    let no_sighash = is_empty work.sighash in
    let pair = ok_injective (
      two_guards (if no_sighash then true else text_eq signed.sighash work.sighash)
        (if no_sighash then text_eq (network.keccak256 signed.raw) work.raw_hash else true)
        sighash_mismatch raw_hash_mismatch (ok (signed.raw, network.keccak256 signed.raw)) h₁) in
    sym (ap (λ (q : Text × Text). q.1) pair) ∙ ap (λ (q : Text × Text). network.keccak256 q.0) pair

sign_replacement-hash :
    (network : Network) (work : Work) (max_fee priority : ℕ) (signed : SignedTransaction)
    (r : Replacement)
    → sign_replacement network work max_fee priority ≡ ok (signed, r)
    → r.raw_hash ≡ network.keccak256 signed.raw
unfolding sign_replacement
sign_replacement-hash network work max_fee priority signed r h =
    let (s, at_s, h₁) =
      >>=-ok (sign network work.authorization (λ calldata. resigned work calldata max_fee priority))
        _ h in
    let pair = ok_injective h₁ in
    sym (ap (λ (q : SignedTransaction × Replacement). q.1.raw_hash) pair)
    ∙ ap (λ (q : SignedTransaction × Replacement). network.keccak256 q.0.raw) pair

pub price_replacement-hash :
    (config : Config) (network : Network) (work : Work) (old_max old_tip : ℕ)
    (signed : SignedTransaction) (r : Replacement)
    → price_replacement config network work old_max old_tip ≡ ok (some (signed, r))
    → r.raw_hash ≡ network.keccak256 signed.raw
unfolding price_replacement
price_replacement-hash config network work old_max old_tip signed r h =
    let (priced, at_p, h₁) = >>=-ok (replacement_fees config network old_max old_tip) _ h in
    by_fees priced h₁
  where
    Signed : Type 0
    Signed = Option (SignedTransaction × Replacement)

    by_fees :
        (o : Option (ℕ × ℕ))
        → elim o as (λ x. Result Signed) [
          | none ↦ ok none
          | some (max_fee, priority) ↦
              sign_replacement network work max_fee priority >>= λ s. ok (some s)
        ]
          ≡ ok (some (signed, r))
        → r.raw_hash ≡ network.keccak256 signed.raw
    by_fees none e = absurd (cc)
    by_fees (some (max_fee, priority)) e =
        let (s, at_s, e₁) = >>=-ok (sign_replacement network work max_fee priority) _ e in
        sign_replacement-hash network work max_fee priority signed r (at_s ∙ cc)
