-- ===== src/Retry.antt =====
-- common/xdb/retry.go: a block is run again when it fails by a deadlock or a lock timeout.
pub mod Bounds
pub mod Attempts
pub mod Returned
pub mod Keeps
use micro_go_lab.Base.{
  ℕ, zero, suc, ◌+◌, ◌-◌, ◌*◌, ◌/◌, Bool, true, false, Option, none, some, List, [], ◌∷◌, ltb, leb,
  ◌==◌, if◌then◌else◌,
}
use micro_go_lab.Errors.{Error, Result, ok, err, is_deadlock}

-- Durations are nanoseconds.
abbrev pub millisecond : ℕ
millisecond = 1_000_000

pub record RetryOptions : Type 0 where
  pub max_attempts : ℕ
  pub base_delay : ℕ
  pub max_delay : ℕ

unfoldable pub default_retry_options : RetryOptions
default_retry_options = record {
  max_attempts = 3;
  base_delay = 50 * millisecond;
  max_delay = 500 * millisecond;
}

-- The outcome label of db_deadlocks_total.
pub data Label : Type 0 where
  retried exhausted : Label

module _ {S A : Type 0} (o : RetryOptions) where
  -- The loop from attempt `n` on, `left` attempts before its bound. `fn n` is what the block does
  -- at attempt `n`, and `done n` the error of the context if that ends the wait after attempt `n`.
  unfoldable pub retry_from :
      (fn : ℕ → S → Result A × S) (done : ℕ → Option Error)
      → ℕ
      → ℕ
      → A
      → S
      → Result A × S × List Label
  retry_from fn done zero n last s = (ok last, s, [])
  retry_from fn done (suc left) n last s =
      let rest = λ (s' : S). retry_from fn done left (n + 1) last s' in
      let (r, s') = fn n s in
      elim r [
        | ok a ↦ (ok a, s', [])
        | err e ↦
            if is_deadlock e
            then (if leb o.max_attempts n then (err e, s', exhausted ∷ []) else elim (done n) [
              | some c ↦ (err c, s', retried ∷ [])
              | none ↦ (let (r', s'', ls) = rest s' in (r', s'', retried ∷ ls))
            ])
            else (err e, s', [])
      ]

  -- WithRetry. `last` is what the caller's variable holds before the first attempt; it is what the
  -- caller finds, beside a nil error, when MaxAttempts is 0.
  unfoldable pub with_retry :
      (fn : ℕ → S → Result A × S) (done : ℕ → Option Error) → A → S → Result A × S × List Label
  unfolding retry_from
  with_retry fn done last s = retry_from fn done o.max_attempts 1 last s

-- The doubling loop of backoff, over `rounds` = attempt - 1.
unfoldable pub doubled : ℕ → ℕ → ℕ → ℕ
doubled max_delay zero d = d
doubled max_delay (suc rounds) d =
    let rest = doubled max_delay rounds (d * 2) in if ltb max_delay (d * 2) then max_delay else rest

-- backoff: `random` is what rand.Int64N(jitter) returns, a number below the jitter.
unfoldable pub backoff : ℕ → ℕ → ℕ → (ℕ → ℕ) → ℕ
unfolding doubled
backoff base max_delay attempt random =
    let d = doubled max_delay (attempt - 1) base in if ltb 0 (d / 2) then d - random (d / 2) else d
