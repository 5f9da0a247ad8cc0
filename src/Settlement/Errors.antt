-- ===== src/Settlement/Errors.antt =====
-- The sentinel errors of internal/settlement and internal/store, and results that carry them.
use facilitator.Base.{◌≡◌, refl, ◌⊎◌, inl, inr, Bool, true, false}
use facilitator.Settlement.State.{State}

pub data Error : Type 0 where
  -- internal/settlement/intent.go, lease.go, work.go and service.go
  payment_not_found payment_not_verified recipient_not_merchant authorization_expiring
        merchant_quota_exceeded global_quota_exceeded payment_unsettleable lease_lost
        lease_unavailable broadcast_pending authorization_conflict :
      Error
  -- internal/store/settlementwork.go and signer.go
  settlement_race signer_account_unknown : Error
  invalid_transition : State → State → Error
  -- What PostgreSQL raises: the constraints of migrations/, a scan of no row or of a NULL.
  active_payment_violation tx_hash_violation primary_key_violation actor_type_violation no_rows
        null_column :
      Error
  -- Any other error text of the code.
  invalid_request signature_conflict state_changed ambiguous_outcome unexpected_status
        no_transaction_hash no_raw_hash no_stored_fees sighash_mismatch raw_hash_mismatch
        hash_mismatch invalid_calldata invalid_fees unavailable simulation_reverted :
      Error

pub data Result {ℓ} (Value : Type ℓ) : Type ℓ where
  err : Error → Result Value
  ok : Value → Result Value

abbrev pub guard : (holds : Bool) (cause : Error) → Result (Unit {0})
guard false cause = err cause
guard true cause = ok tt

infixl 5 ◌>>=◌ ◌>>◌
abbrev pub ◌>>=◌ {ℓ₁ ℓ₂} :
    {X : Type ℓ₁} {Y : Type ℓ₂} → (first : Result X) (next : X → Result Y) → Result Y
err cause >>= next = err cause
ok x >>= next = next x

abbrev pub ◌>>◌ {ℓ₁} : {Y : Type ℓ₁} → (first : Result (Unit {0})) (next : Result Y) → Result Y
first >> next = first >>= λ u. next

-- A chain that returns a value has one from its first part.
pub >>=-ok {ℓ₁ ℓ₂} :
    {X : Type ℓ₁} {Y : Type ℓ₂} (first : Result X) (next : X → Result Y) {y : Y}
    → (first >>= next) ≡ ok y
    → (x : X) × (first ≡ ok x) × (next x ≡ ok y)
>>=-ok (err cause) next h = cc
>>=-ok (ok x) next h = (x, refl, h)

pub guard-ok : (b : Bool) (e : Error) → guard b e ≡ ok tt → b ≡ true
guard-ok true e h = refl
guard-ok false e h = cc

pub Result-cases {ℓ} :
    {A : Type ℓ} (r : Result A) → ((a : A) × (r ≡ ok a)) ⊎ ((e : Error) × (r ≡ err e))
Result-cases (ok a) = inl (a, refl)
Result-cases (err e) = inr (e, refl)

pub ok_injective {ℓ} : {A : Type ℓ} {a b : A} → ok a ≡ ok b → a ≡ b
ok_injective h = cc
