-- ===== src/Settlement/Calldata.antt =====
-- internal/settlement/calldata.go: splitSignature, the form of a signature that the USDC contract
-- takes. hex.DecodeString gives bytes or fails.
pub mod Signature
pub mod Transfer
use facilitator.Base.{
  ℕ, suc, zero, ◌+◌, ◌*◌, ◌-◌, Option, none, some, List, [], ◌∷◌, Text, codes, has_prefix, length,
  Bool, true, false, ◌&&◌, ◌||◌, leb, ◌==◌, if◌then◌else◌,
}
use facilitator.Walletproof.{drop_two}

unfoldable pub hex_value : ℕ → Option ℕ
hex_value c =
    if leb 48 c && leb c 57
    then some (c - 48)
    else if leb 97 c && leb c 102
    then some (c - 87)
    else if leb 65 c && leb c 70
    then some (c - 55)
    else none

unfoldable pub decode_string : Text → Option (List ℕ)
unfolding hex_value
decode_string [] = some []
decode_string (a ∷ []) = none
decode_string (a ∷ b ∷ s) =
    let rest = decode_string s in
    elim (hex_value a) [
      | none ↦ none
      | some x ↦ elim (hex_value b) [
        | none ↦ none
        | some y ↦ elim rest [ none ↦ none | some bytes ↦ some ((16 * x + y) ∷ bytes) ]
      ]
    ]

-- strings.TrimPrefix(value, "0x").
unfoldable pub trim_prefix : Text → Text
unfolding has_prefix
trim_prefix s = if has_prefix s (codes "0x") then drop_two s else s

unfoldable pub first_bytes : ℕ → List ℕ → List ℕ
first_bytes zero bytes = []
first_bytes (suc n) [] = []
first_bytes (suc n) (b ∷ bytes) = b ∷ first_bytes n bytes

unfoldable pub bytes_from : ℕ → List ℕ → List ℕ
bytes_from zero bytes = bytes
bytes_from (suc n) [] = []
bytes_from (suc n) (b ∷ bytes) = bytes_from n bytes

-- The switch over the recovery id; the slice has one byte left.
unfoldable pub normal_recovery : List ℕ → Option ℕ
normal_recovery [] = none
normal_recovery (v ∷ rest) =
    if v == 0 || v == 1 then some (v + 27) else if v == 27 || v == 28 then some v else none

unfoldable pub split_signature : Text → Option (ℕ × List ℕ × List ℕ)
unfolding decode_string trim_prefix first_bytes bytes_from normal_recovery
split_signature signature = elim (decode_string (trim_prefix signature)) [
  | none ↦ none
  | some raw ↦
      if length raw == 65
      then elim (normal_recovery (bytes_from 64 raw)) [
        | none ↦ none
        | some v ↦ some (v, first_bytes 32 raw, first_bytes 32 (bytes_from 32 raw))
      ]
      else none
]
