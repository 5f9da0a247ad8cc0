-- ===== src/Walletproof/Normal.antt =====
-- internal/walletproof/challenge.go: a normal address is its own normal form.
use facilitator.Base.{
  ℕ, suc, ◌≡◌, refl, ap, ap₂, ◌∙◌, subst, some, true, false, ◌&&◌, ◌==◌, [], ◌∷◌, Text, codes,
  lower, equal_fold, has_prefix, length, text_eq, arith, Bool-cases, inl, inr, &&-true, lower_byte,
}
use facilitator.Walletproof.{normalize_address, is_hex, drop_two, zero_address, is_hex_digit}

lower_byte_twice : (c : ℕ) → lower_byte (lower_byte c) ≡ lower_byte c
lower_byte_twice c = ground arith

lower_twice : (s : Text) → lower (lower s) ≡ lower s
unfolding lower
lower_twice [] = refl
lower_twice (c ∷ s) = ap₂ ◌∷◌ (lower_byte_twice c) (lower_twice s)

length-lower : (s : Text) → length (lower s) ≡ length s
unfolding lower
length-lower [] = refl
length-lower (c ∷ s) = ap suc (length-lower s)

lower_digit : (c : ℕ) → is_hex_digit c ≡ true → is_hex_digit (lower_byte c) ≡ true
lower_digit c h = ground arith

is_hex-lower : (s : Text) → is_hex s ≡ true → is_hex (lower s) ≡ true
unfolding is_hex lower
is_hex-lower [] h = refl
is_hex-lower (c ∷ s) h =
    let (digit, rest) = &&-true _ (is_hex s) h in
    ground (arith, lower_digit c digit, is_hex-lower s rest)

drop_two-lower : (s : Text) → drop_two (lower s) ≡ lower (drop_two s)
unfolding lower
drop_two-lower [] = refl
drop_two-lower (a ∷ []) = refl
drop_two-lower (a ∷ b ∷ s) = refl

has_prefix-lower :
    (s : Text) → has_prefix s (codes "0x") ≡ true → has_prefix (lower s) (codes "0x") ≡ true
unfolding has_prefix lower
has_prefix-lower [] h = h
has_prefix-lower (a ∷ []) h = ground arith
has_prefix-lower (a ∷ b ∷ s) h = ground arith

equal_fold-lower : (s t : Text) → equal_fold (lower s) t ≡ equal_fold s t
unfolding equal_fold
equal_fold-lower s t = ap (λ x. text_eq x (lower t)) (lower_twice s)

-- The normal form of an accepted address is accepted unchanged.
pub normalize_address_twice :
    (s t : Text) → normalize_address s ≡ some t → normalize_address t ≡ some t
unfolding normalize_address
normalize_address_twice s t h = elim (Bool-cases (length s == 42 && has_prefix s (codes "0x"))) [
  | inr e ↦ absurd (ground arith)
  | inl e ↦ elim (Bool-cases (is_hex (drop_two s))) [
    | inr f ↦ absurd (ground arith)
    | inl f ↦ elim (Bool-cases (equal_fold s zero_address)) [
      | inl g ↦ absurd (ground arith)
      | inr g ↦ subst (λ x. normalize_address x ≡ some x) (same e f g) (normal e f g)
    ]
  ]
]
  where
    same :
        (length s == 42 && has_prefix s (codes "0x")) ≡ true
        → is_hex (drop_two s) ≡ true
        → equal_fold s zero_address ≡ false
        → lower s ≡ t
    same e f g = ground arith

    normal :
        (length s == 42 && has_prefix s (codes "0x")) ≡ true
        → is_hex (drop_two s) ≡ true
        → equal_fold s zero_address ≡ false
        → normalize_address (lower s) ≡ some (lower s)
    normal e f g =
        let (sized, prefixed) = &&-true (length s == 42) _ e in
        let hex : is_hex (drop_two (lower s)) ≡ true =
          rw (drop_two-lower s) (is_hex-lower (drop_two s) f) in
        let zero : equal_fold (lower s) zero_address ≡ false =
          equal_fold-lower s zero_address ∙ g in
        ground (arith, length-lower s, has_prefix-lower s prefixed, lower_twice s)
