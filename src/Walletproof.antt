-- ===== src/Walletproof.antt =====
-- internal/walletproof/challenge.go: the normal form of an Ethereum address.
pub mod Normal
use facilitator.Base.{
  ℕ, Option, none, some, Bool, true, false, ◌&&◌, ◌||◌, not, leb, ◌==◌, if◌then◌else◌, List, [],
  ◌∷◌, Text, codes, lower, equal_fold, has_prefix, length,
}

abbrev pub is_hex_digit : ℕ → Bool
is_hex_digit c =
    (leb b'0' c && leb c b'9') || ((leb b'a' c && leb c b'f') || (leb b'A' c && leb c b'F'))

unfoldable pub is_hex : Text → Bool
is_hex [] = true
is_hex (c ∷ s) = is_hex_digit c && is_hex s

-- s[2:].
abbrev pub drop_two : Text → Text
drop_two [] = []
drop_two (a ∷ []) = []
drop_two (a ∷ b ∷ s) = s

abbrev pub zero_address : Text
zero_address = codes "0x0000000000000000000000000000000000000000"

unfoldable pub normalize_address : Text → Option Text
unfolding lower equal_fold has_prefix is_hex
normalize_address address =
    if length address == 42 && has_prefix address (codes "0x")
    then (if is_hex (drop_two address)
        then (if equal_fold address zero_address then none else some (lower address))
        else none)
    else none
