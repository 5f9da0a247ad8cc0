-- ===== src/Settlement/Calldata/Signature.antt =====
-- internal/settlement/calldata.go: a split signature is the payer's, but for the recovery id's base.
use facilitator.Base.{ℕ, ◌+◌, ◌≡◌, refl, ◌⊎◌, some, List, [], ◌∷◌, arith}
use facilitator.Settlement.Calldata.{normal_recovery}

-- An accepted recovery id is 27 or 28, and stands for that number or the one 27 below it.
pub normal_recovery_lem :
    (bytes : List ℕ) (v : ℕ)
    → normal_recovery bytes ≡ some v
    → (x : ℕ) × (rest : List ℕ) × (bytes ≡ x ∷ rest)
      × ((v ≡ 27) ⊎ (v ≡ 28))
      × ((x ≡ v) ⊎ (x + 27 ≡ v))
unfolding normal_recovery
normal_recovery_lem [] v h = absurd (ground arith)
normal_recovery_lem (x ∷ rest) v h = (x, rest, refl, ground arith, ground arith)
