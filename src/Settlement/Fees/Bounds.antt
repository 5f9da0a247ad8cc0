-- ===== src/Settlement/Fees/Bounds.antt =====
-- internal/settlement/fees.go: the bounds of a fee pair, and when a replacement can be priced.
use facilitator.Base.{ℕ, ◌+◌, ◌*◌, ◌≤◌, ◌<◌, ◌≡◌, ◌↔◌, ◌≢◌, min, none, some, arith, pos}
use facilitator.Settlement.Fees.{fees, estimate_fees, min_bump, bump_fees}

-- An estimate that succeeds is the least of twice the base fee plus the tip and the ceiling; it is
-- positive and within the ceiling, and the tip that is paid is the least of the tip and it.
pub estimate_fees_bounds :
    (base tip ceiling : ℕ) {max_fee priority : ℕ}
    → estimate_fees (some (pos base)) (some (pos tip)) (some (pos ceiling)) ≡ fees max_fee priority
    → (max_fee ≡ min (base * 2 + tip) ceiling)
      × (0 < max_fee)
      × (max_fee ≤ ceiling)
      × (priority ≡ min tip max_fee)
unfolding estimate_fees
estimate_fees_bounds base tip ceiling h = ground arith

-- With a positive ceiling an estimate fails only where base fee and tip are both zero.
pub estimate_fees_total :
    (base tip ceiling : ℕ)
    → 0 < ceiling
    → 0 < base * 2 + tip
    → (m : ℕ) × (p : ℕ) × (estimate_fees (some (pos base)) (some (pos tip)) (some (pos ceiling))
        ≡ fees m p)
unfolding estimate_fees
estimate_fees_total base tip ceiling h k =
    (min (base * 2 + tip) ceiling, min tip (min (base * 2 + tip) ceiling), ground arith)

-- A replacement that is priced raises fee cap and tip by at least a tenth each, and the fee cap strictly;
-- its tip is within its fee cap, and that within the ceiling.
pub bump_fees_bounds :
    (old_max old_tip base ceiling : ℕ) {max_fee priority : ℕ}
    → bump_fees (some (pos old_max)) (some (pos old_tip)) (some (pos base)) (some (pos ceiling))
      ≡ some (max_fee, priority)
    → (11 * old_max ≤ 10 * max_fee)
      × (11 * old_tip ≤ 10 * priority)
      × (old_max < max_fee)
      × (priority ≤ max_fee)
      × (max_fee ≤ ceiling)
unfolding bump_fees
bump_fees_bounds old_max old_tip base ceiling h = ground arith

-- Where the old fee cap is positive, a replacement is priced exactly if the ceiling leaves room for
-- a tenth more of the old fee cap and of the old tip, whatever the base fee.
pub bump_fees_iff_headroom :
    (old_max old_tip base ceiling : ℕ)
    → 0 < old_max
    → (bump_fees (some (pos old_max)) (some (pos old_tip)) (some (pos base)) (some (pos ceiling))
        ≢ none)
      ↔ ((min_bump old_max ≤ ceiling) × (min_bump old_tip ≤ ceiling))
unfolding bump_fees
bump_fees_iff_headroom old_max old_tip base ceiling h =
    (λ priced. (ground arith, ground arith), λ room. ground (arith, room.0, room.1))
