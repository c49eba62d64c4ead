-- ===== src/Retry/Keeps.antt =====
-- What every attempt keeps, WithRetry keeps.
use micro_go_lab.Base.{ℕ, zero, suc, ◌+◌, Option, arith}
use micro_go_lab.Errors.{Error, Result}
use micro_go_lab.Retry.{RetryOptions, retry_from, with_retry}

module _ {S A : Type 0} (P : S → Type 0) (o : RetryOptions) (fn : ℕ → S → Result A × S)
    (done : ℕ → Option Error) (last : A) (keep : (n : ℕ) (s : S) → P s → P (fn n s).1) where
  retry_from-keeps : (left n : ℕ) (s : S) → P s → P (retry_from o fn done left n last s).1
  unfolding retry_from
  retry_from-keeps zero n s p = p
  retry_from-keeps (suc left) n s p =
      ground (arith, keep n s p, retry_from-keeps left (n + 1) (fn n s).1)

  pub with_retry-keeps : (s : S) → P s → P (with_retry o fn done last s).1
  unfolding with_retry
  with_retry-keeps s p = retry_from-keeps o.max_attempts 1 s p
