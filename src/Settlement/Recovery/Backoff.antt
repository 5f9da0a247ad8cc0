-- ===== src/Settlement/Recovery/Backoff.antt =====
-- internal/settlement/recovery.go: ambiguousRetryDelay and the wait that it imposes.
use facilitator.Base.{
  ℕ, ◌*◌, ◌^◌, ◌%◌, ◌-◌, ◌≤◌, ◌<◌, ◌≡◌, min, ltb, if◌then◌else◌, pos, negsuc, arith,
}
use native.Mathlib.Nat.{
  min-le_right, mul-le-mul_left, pow-le-pow_right, le-mul_of_pos_right, mod-eq_of_lt,
}
use facilitator.Settlement.Recovery.{ambiguous_retry_delay}

-- The delay that the source means.
abbrev pub doubled : ℕ → ℕ → ℕ
doubled attempts grace = grace * 2 ^ min attempts 5

doubled-bounds :
    (attempts grace : ℕ) → (grace ≤ doubled attempts grace) × (doubled attempts grace ≤ grace * 32)
doubled-bounds attempts grace =
    let low : 1 ≤ 2 ^ min attempts 5 = pow-le-pow_right (omega arith) {i = 0} (omega arith) in
    let high : 2 ^ min attempts 5 ≤ 2 ^ 5 =
      pow-le-pow_right (omega arith) (min-le_right attempts 5) in
    (le-mul_of_pos_right grace low, mul-le-mul_left grace high)

no_wrap :
    (n : ℕ)
    → n < 2 ^ 63
    → (if ltb (n % 2 ^ 64) (2 ^ 63) then pos (n % 2 ^ 64) else negsuc (2 ^ 64 - n % 2 ^ 64 - 1))
      ≡ pos n
no_wrap n fits = rw (mod-eq_of_lt {n = n} {m = 2 ^ 64} (omega arith)) (ground arith)

-- While 32 times the grace fits an int64, the delay is the grace, doubled with each attempt up to five
-- times: it does not wrap, is never below the grace, and never above 32 times the grace.
pub ambiguous_retry_delay-doubled :
    (attempts grace : ℕ)
    → grace * 32 < 2 ^ 63
    → (ambiguous_retry_delay attempts grace ≡ pos (doubled attempts grace))
      × (grace ≤ doubled attempts grace)
      × (doubled attempts grace ≤ grace * 32)
unfolding ambiguous_retry_delay
ambiguous_retry_delay-doubled attempts grace fits =
    let (low, high) = doubled-bounds attempts grace in
    (no_wrap (doubled attempts grace) (omega arith), low, high)
