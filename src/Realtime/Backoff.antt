-- ===== src/Realtime/Backoff.antt =====
-- The reconnect delay of frontend/dashboard/src/services/websocket.ts, over exact fractions.
-- `Math.pow(1.5, attempts)` is 3 ^ attempts / 2 ^ attempts, which a double holds exactly for the
-- at most 20 attempts made. `Math.random()` is a numerator below `resolution`. The one rounding
-- that is not modelled is that of the double sum `expDelay + jitter`.
use surakshanet.Base.{ℕ, zero, suc, ◌+◌, ◌-◌, ◌*◌, ◌/◌, ◌^◌, ◌≤◌, ◌<◌, ◌≡◌, min, arith}
use native.Mathlib.Nat.{pow-suc, suc-add}

abbrev pub base_delay_ms : ℕ
base_delay_ms = 1000

abbrev pub max_delay_ms : ℕ
max_delay_ms = 30000

abbrev pub max_attempts : ℕ
max_attempts = 20

abbrev pub resolution : ℕ
resolution = 9007199254740992

-- `expDelay`, multiplied by 2 ^ attempts.
unfoldable pub exp_delay : ℕ → ℕ
exp_delay attempts = min (max_delay_ms * 2 ^ attempts) (base_delay_ms * 3 ^ attempts)

-- `Math.round(n / d)`: halves are rounded up.
abbrev pub round : ℕ → ℕ → ℕ
round n d = (2 * n + d) / (2 * d)

-- `Math.round(expDelay + Math.random() * 500)`.
unfoldable pub delay : ℕ → ℕ → ℕ
delay attempts random =
    round (exp_delay attempts * resolution + random * 500 * 2 ^ attempts)
      (2 ^ attempts * resolution)

pow_pos : (n : ℕ) → 0 < 2 ^ n
pow_pos zero = omega arith
pow_pos (suc n) = simp pow-suc (omega (arith, pow_pos n))

pow-two-le-three : (n : ℕ) → 2 ^ n ≤ 3 ^ n
pow-two-le-three zero = omega arith
pow-two-le-three (suc n) = simp pow-suc (omega (arith, pow-two-le-three n))

exp_delay_bounds : (n : ℕ) → (1000 * 2 ^ n ≤ exp_delay n) × (exp_delay n ≤ 30000 * 2 ^ n)
unfolding exp_delay
exp_delay_bounds n = omega (arith, pow-two-le-three n)

pub round-ge : (n d lo : ℕ) → 0 < d → lo * d ≤ n → lo ≤ round n d
round-ge n d lo p a = grind arith

pub round-le : (n d hi : ℕ) → 0 < d → 2 * n < (2 * hi + 1) * d → round n d ≤ hi
round-le n d hi p b = grind arith

-- Each delay lies between one second and thirty seconds and a half, whatever the attempt and the
-- random draw.
delay_bounds :
    (n random : ℕ) → random < resolution → (1000 ≤ delay n random) × (delay n random ≤ 30500)
unfolding delay
delay_bounds n random h =
    let (lo, hi) = exp_delay_bounds n in
    let spread : random * 500 * 2 ^ n ≤ resolution * 500 * 2 ^ n = grind arith in
    (
      round-ge _ _ 1000 (omega (arith, pow_pos n)) (omega (arith, pow_pos n)),
      round-le _ _ 30500 (omega (arith, pow_pos n)) (omega (arith, pow_pos n)),
    )

saturates : (k : ℕ) → 30 * 2 ^ (k + 9) ≤ 3 ^ (k + 9)
saturates zero = omega arith
saturates (suc k) = simp (suc-add, pow-suc) (omega (arith, saturates k))

-- The delay before jitter, which `exp_delay` scales by 2 ^ attempts, never shrinks from one attempt
-- to the next, and grows by no more than half.
exp_delay_growth :
    (n : ℕ)
    → (2 * exp_delay n ≤ exp_delay (suc n)) × (2 * exp_delay (suc n) ≤ 3 * (2 * exp_delay n))
unfolding exp_delay
exp_delay_growth n = (simp pow-suc (omega arith), simp pow-suc (omega arith))

-- From the tenth attempt on the delay is at its longest: thirty seconds, and less than half a second
-- of jitter.
delay_saturates :
    (n random : ℕ)
    → 9 ≤ n
    → random < resolution
    → (30000 ≤ delay n random) × (delay n random ≤ 30500)
unfolding delay exp_delay
delay_saturates n random h r =
    let e : n ≡ (n - 9) + 9 = omega arith in
    let big : 30 * 2 ^ n ≤ 3 ^ n = rw e (saturates (n - 9)) in
    let top : exp_delay n ≡ 30000 * 2 ^ n = omega arith in
    (
      round-ge _ _ 30000 (omega (arith, pow_pos n)) (omega (arith, pow_pos n)),
      (delay_bounds n random r).1,
    )
