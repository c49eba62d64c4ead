-- ===== src/Retry/Bounds.antt =====
-- How long backoff waits.
use native.Mathlib.Nat.{pow-suc}
use micro_go_lab.Base.{
  ℕ, zero, suc, ◌-◌, ◌*◌, ◌/◌, ◌^◌, ◌<◌, ◌≤◌, ◌≡◌, inl, inr, ltb, ltb→lt, min, arith, Bool-cases,
}
use micro_go_lab.Retry.{doubled, backoff}

pow_pos : (n : ℕ) → 0 < 2 ^ n
pow_pos zero = omega arith
pow_pos (suc n) = rw pow-suc (omega (arith, pow_pos n))

double_pow : (d n : ℕ) → d * 2 ^ suc n ≡ d * 2 * 2 ^ n
double_pow d n = grind (arith, pow-suc)

pow_grows : (d n : ℕ) → d ≤ d * 2 ^ n
pow_grows d n = grind (arith, pow_pos n)

-- The doubling loop is base * 2^rounds, cut at the cap, when the base does not pass the cap.
pub doubled-min : (cap rounds d : ℕ) → d ≤ cap → doubled cap rounds d ≡ min (d * 2 ^ rounds) cap
unfolding doubled
doubled-min cap zero d h = omega arith
doubled-min cap (suc rounds) d h = elim (Bool-cases (ltb cap (d * 2))) [
  | inl over ↦
      rw over (omega (arith, ltb→lt _ _ over, double_pow d rounds, pow_grows (d * 2) rounds))
  | inr within ↦ rw (within, double_pow d rounds) (doubled-min cap rounds (d * 2) (ground arith))
]

-- With a base of at most the cap, the wait is at least half of the capped delay and at most all of it.
pub backoff_bounds :
    (base cap attempt : ℕ) (random : ℕ → ℕ)
    → base ≤ cap
    → ((n : ℕ) → 0 < n → random n < n)
    → let d = min (base * 2 ^ (attempt - 1)) cap in
      (backoff base cap attempt random ≤ d) × (d ≤ backoff base cap attempt random * 2)
unfolding backoff
backoff_bounds base cap attempt random h below =
    let d = min (base * 2 ^ (attempt - 1)) cap in
    rw (doubled-min cap (attempt - 1) base h) (ground (arith, below (d / 2)))
