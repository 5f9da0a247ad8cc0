-- ===== src/Base/Decimal.antt =====
-- Decimal texts: math/big's SetString and strconv's ParseInt in base 10 (a sign is optional, then at
-- least one digit), and strconv.FormatInt of a number that is not negative.
use Prim.Native.Nat.{ℕ, zero, suc, ◌+◌, ◌-◌, ◌*◌, ◌/◌, ◌%◌, ◌^◌, ◌<◌, ◌≤◌}
use mathlib.Core.Path.{◌≡◌, sym, ◌∙◌, ap}
use mathlib.Core.Logic.{inl, inr}
use mathlib.Core.Bool.{Bool, true, false, ◌&&◌}
use mathlib.Core.Option.{Option, none, some}
use mathlib.Core.List.{[], ◌∷◌}
use native.Mathlib.Omega.{arith}
use facilitator.Base.Tests.{leb, ltb, ◌==◌, if◌then◌else◌, Bool-cases}
use facilitator.Base.Bytes.{Text}
use facilitator.Base.Int.{ℤ, pos, negsuc}

-- The digits, most significant first, behind what has been read.
unfoldable pub read_digits : ℕ → Text → Option ℕ
read_digits acc [] = some acc
read_digits acc (c ∷ s) = if leb 48 c && leb c 57 then read_digits (acc * 10 + (c - 48)) s else none

unfoldable pub read_unsigned : Text → Option ℕ
unfolding read_digits
read_unsigned [] = none
read_unsigned (c ∷ s) = read_digits 0 (c ∷ s)

abbrev pub negated : Option ℕ → Option ℤ
negated none = none
negated (some zero) = some (pos 0)
negated (some (suc n)) = some (negsuc n)

abbrev pub as_int : Option ℕ → Option ℤ
as_int none = none
as_int (some n) = some (pos n)

-- new(big.Int).SetString(value, 10).
unfoldable pub set_string : Text → Option ℤ
unfolding read_unsigned
set_string [] = none
set_string (c ∷ s) =
    if c == b'-'
    then negated (read_unsigned s)
    else if c == b'+'
    then as_int (read_unsigned s)
    else as_int (read_unsigned (c ∷ s))

abbrev pub in_int64 : ℤ → Bool
in_int64 (pos n) = ltb n (2 ^ 63)
in_int64 (negsuc n) = ltb n (2 ^ 63)

-- strconv.ParseInt(value, 10, 64).
unfoldable pub parse_int : Text → Option ℤ
unfolding set_string
parse_int value = elim (set_string value) [
  | none ↦ none
  | some n ↦ if in_int64 n then some n else none
]

unfoldable pub write_digits : ℕ → ℕ → Text → Text
write_digits zero n rest = rest
write_digits (suc fuel) n rest =
    let higher = write_digits fuel (n / 10) ((48 + n % 10) ∷ rest) in
    if ltb n 10 then (48 + n) ∷ rest else higher

-- A number has at most as many digits as its successor counts.
unfoldable pub format_int : ℕ → Text
unfolding write_digits
format_int n = write_digits (suc n) n []

read_digit :
    (acc d : ℕ) (rest : Text)
    → d < 10
    → read_digits acc ((48 + d) ∷ rest) ≡ read_digits (acc * 10 + d) rest
unfolding read_digits
read_digit acc d rest h =
    let is_digit : (leb 48 (48 + d) && leb (48 + d) 57) ≡ true = ground arith in
    let value : 48 + d - 48 ≡ d = omega arith in rw is_digit (rw value)

-- Reading back what was written.
pub read-write_digits :
    (fuel n : ℕ) (rest : Text)
    → n < fuel
    → read_digits 0 (write_digits fuel n rest) ≡ read_digits n rest
unfolding read_digits write_digits
read-write_digits zero n rest h = absurd (omega arith)
read-write_digits (suc fuel) n rest h = elim (Bool-cases (ltb n 10)) [
  | inl small ↦
      let whole : 0 * 10 + n ≡ n = omega arith in
      rw small (read_digit 0 n rest (ground arith) ∙ ap (λ m. read_digits m rest) whole)
  | inr large ↦
      let whole : n / 10 * 10 + n % 10 ≡ n = omega arith in
      rw large (
        read-write_digits fuel (n / 10) ((48 + n % 10) ∷ rest) (ground arith)
        ∙ read_digit (n / 10) (n % 10) rest (omega arith)
        ∙ ap (λ m. read_digits m rest) whole)
]

-- The first character that is written is a digit.
pub write_digits-head :
    (fuel n : ℕ) (rest : Text)
    → n < fuel
    → (c : ℕ) × (s : Text) × (write_digits fuel n rest ≡ c ∷ s) × (48 ≤ c)
unfolding write_digits
write_digits-head zero n rest h = absurd (omega arith)
write_digits-head (suc fuel) n rest h = elim (Bool-cases (ltb n 10)) [
  | inl small ↦ (48 + n, rest, rw small, omega arith)
  | inr large ↦
      let (c, s, e, le) = write_digits-head fuel (n / 10) ((48 + n % 10) ∷ rest) (ground arith) in
      (c, s, rw large e, le)
]

pub set_string-format_int : (n : ℕ) → set_string (format_int n) ≡ some (pos n)
unfolding set_string read_unsigned format_int
set_string-format_int n =
    let (c, s, e, le) = write_digits-head (suc n) n [] (omega arith) in
    let digits : read_digits 0 (c ∷ s) ≡ some n =
      ap (read_digits 0) (sym e) ∙ read-write_digits (suc n) n [] (omega arith) in
    ap set_string e ∙ unsigned c s le digits
  where
    unsigned :
        (c : ℕ) (s : Text)
        → 48 ≤ c
        → read_digits 0 (c ∷ s) ≡ some n
        → set_string (c ∷ s) ≡ some (pos n)
    unsigned c s le digits =
        let minus : (c == 45) ≡ false = ground arith in
        let plus : (c == 43) ≡ false = ground arith in rw minus (rw plus (ap as_int digits))

-- An int64 that is not negative is read back as it was written.
pub parse_int-format_int : (n : ℕ) → n < 2 ^ 63 → parse_int (format_int n) ≡ some (pos n)
unfolding parse_int
parse_int-format_int n h =
    let fits : ltb n (2 ^ 63) ≡ true = ground arith in
    rw (parse_int, set_string-format_int n) (rw fits)
