-- ===== src/Settlement/Fees.antt =====
-- internal/settlement/fees.go: the fee pair of a broadcast and of its replacement. A `*big.Int` is
-- an optional integer, nil being `none`; an amount that has passed its sign test is a number.
pub mod Bounds
use facilitator.Base.{
  ℕ, zero, suc, ◌+◌, ◌*◌, ◌/◌, Option, none, some, ltb, leb, ◌==◌, if◌then◌else◌, ℤ, pos, negsuc,
  Bool, true, false,
}

pub data FeeError : Type 0 where
  ceiling_not_positive negative_input zero_max_fee : FeeError

pub data FeeResult : Type 0 where
  fees : ℕ → ℕ → FeeResult
  fee_error : FeeError → FeeResult

-- `nil`, or a sign below zero, is refused.
abbrev pub unsigned : Option ℤ → Option ℕ
unsigned none = none
unsigned (some (pos n)) = some n
unsigned (some (negsuc n)) = none

-- maxFee = min(2 * baseFee + tipCap, ceiling), and the tip capped by it.
unfoldable pub price : ℕ → ℕ → ℕ → FeeResult
price base tip ceiling =
    let estimate = base * 2 + tip in
    let max_fee = if ltb ceiling estimate then ceiling else estimate in
    if max_fee == 0
    then fee_error zero_max_fee
    else fees max_fee (if ltb max_fee tip then max_fee else tip)

unfoldable pub estimate_fees : Option ℤ → Option ℤ → Option ℤ → FeeResult
unfolding price
estimate_fees base_fee tip_cap ceiling = elim (unsigned ceiling) [
  | none ↦ fee_error ceiling_not_positive
  | some c ↦ if c == 0 then fee_error ceiling_not_positive else elim (unsigned base_fee) [
    | none ↦ fee_error negative_input
    | some base ↦ elim (unsigned tip_cap) [
      | none ↦ fee_error negative_input
      | some tip ↦ price base tip c
    ]
  ]
]

-- The least number that is at least 110% of n.
unfoldable pub min_bump : ℕ → ℕ
min_bump n = (n * 11 + 9) / 10

-- The loop over the two floors.
unfoldable pub raise_to : ℕ → ℕ → ℕ
raise_to value floor = if ltb value floor then floor else value

unfoldable pub bumped_tip : ℕ → ℕ
unfolding min_bump raise_to
bumped_tip old_tip = raise_to (raise_to (old_tip * 9 / 8) (min_bump old_tip)) (old_tip + 1)

-- After the estimate: the fee floor, the tip's cap, and the last test of both floors.
unfoldable pub outbid : ℕ → ℕ → ℕ → ℕ → ℕ → Option (ℕ × ℕ)
unfolding min_bump
outbid old_max old_tip ceiling max_fee priority =
    let min_fee = min_bump old_max in
    if ltb max_fee min_fee
    then (if ltb ceiling min_fee then none else finish min_fee)
    else finish max_fee
  where
    finish : ℕ → Option (ℕ × ℕ)
    finish fee =
        let tip = if ltb fee priority then fee else priority in
        if ltb tip (min_bump old_tip)
        then none
        else (if ltb fee (min_bump old_max) then none else some (fee, tip))

unfoldable pub bump_fees : Option ℤ → Option ℤ → Option ℤ → Option ℤ → Option (ℕ × ℕ)
unfolding estimate_fees bumped_tip outbid
bump_fees old_max_fee old_tip base_fee ceiling = elim (unsigned old_max_fee) [
  | none ↦ none
  | some old_max ↦ if old_max == 0 then none else elim (unsigned old_tip) [
    | none ↦ none
    | some tip ↦ elim (estimate_fees base_fee (some (pos (bumped_tip tip))) ceiling) [
      | fee_error e ↦ none
      | fees max_fee priority ↦ elim (unsigned ceiling) [
        | none ↦ none
        | some c ↦ outbid old_max tip c max_fee priority
      ]
    ]
  ]
]
