-- ===== src/Retry/Attempts.antt =====
-- How often WithRetry runs its block, and what it returns.
use micro_go_lab.Base.{
  ℕ, zero, suc, ◌+◌, ◌<◌, ◌≤◌, ◌≡◌, true, false, Option, none, List, [], ◌∷◌, leb, arith, subst,
}
use micro_go_lab.Errors.{Error, Result, ok, err, is_deadlock}
use micro_go_lab.Retry.{RetryOptions, Label, retried, exhausted, retry_from, with_retry}

abbrev pub retries : ℕ → List Label → List Label
retries zero ls = ls
retries (suc k) ls = retried ∷ retries k ls

-- A result that WithRetry does not retry.
abbrev pub IsFinal : {A : Type 0} → Result A → Type 0
IsFinal (ok a) = Unit
IsFinal (err e) = is_deadlock e ≡ false

module _ {S A : Type 0} (o : RetryOptions) (fn : ℕ → S → Result A × S) (done : ℕ → Option Error)
    (last : A) (s : S) where
  -- Attempt `i` fails by a lock, changes nothing, and the context outlives the wait.
  abbrev pub Locked : ℕ → Type 0
  Locked i = (e : Error) × (fn i s ≡ (err e, s)) × (is_deadlock e ≡ true) × (done i ≡ none)

  final_from :
      (left n : ℕ) (r : Result A) (s' : S)
      → fn n s ≡ (r, s')
      → IsFinal r
      → retry_from o fn done (suc left) n last s ≡ (r, s', [])
  unfolding retry_from
  final_from left n (ok a) s' e f = ground arith
  final_from left n (err x) s' e f = ground arith

  recover_from :
      (k left n : ℕ) (r : Result A) (s' : S)
      → n + left ≡ o.max_attempts + 1
      → k < left
      → ((i : ℕ) → n ≤ i → i < n + k → Locked i)
      → fn (n + k) s ≡ (r, s')
      → IsFinal r
      → retry_from o fn done left n last s ≡ (r, s', retries k [])
  unfolding retry_from
  recover_from k zero n r s' total lt locked e f = absurd (omega arith)
  recover_from zero (suc left) n r s' total lt locked e f =
      final_from left n r s' (subst (λ m. fn m s ≡ (r, s')) (omega arith) e) f
  recover_from (suc k) (suc left) n r s' total lt locked e f =
      let (x, failed, lock, alive) = locked n (omega arith) (omega arith) in
      let more : leb o.max_attempts n ≡ false = ground arith in
      let rest : retry_from o fn done left (n + 1) last s ≡ (r, s', retries k []) =
        recover_from k left (n + 1) r s' (omega arith) (omega arith)
          (λ i h l. locked i (omega arith) (omega arith))
          (subst (λ m. fn m s ≡ (r, s')) (omega arith) e) f in
      ground (arith, rest)

  -- A block that fails by locks `k` times, fewer than MaxAttempts, each time leaving the state as it
  -- was, and then ends in a result that is no lock error, returns that result with its state, if
  -- the context outlives the wait after each failure: of the failures only the labels are seen.
  pub with_retry-recovers :
      (k : ℕ) (r : Result A) (s' : S)
      → k < o.max_attempts
      → ((i : ℕ) → 1 ≤ i → i ≤ k → Locked i)
      → fn (k + 1) s ≡ (r, s')
      → IsFinal r
      → with_retry o fn done last s ≡ (r, s', retries k [])
  unfolding with_retry
  with_retry-recovers k r s' lt locked e f =
      recover_from k o.max_attempts 1 r s' (omega arith) lt (λ i h l. locked i h (omega arith))
        (subst (λ m. fn m s ≡ (r, s')) (omega arith) e) f

  exhaust_from :
      (left n : ℕ) (e : Error)
      → n + left ≡ o.max_attempts
      → ((i : ℕ) → n ≤ i → i < o.max_attempts → Locked i)
      → fn o.max_attempts s ≡ (err e, s)
      → is_deadlock e ≡ true
      → retry_from o fn done (suc left) n last s ≡ (err e, s, retries left (exhausted ∷ []))
  unfolding retry_from
  exhaust_from zero n e total locked failed lock =
      let here : n ≡ o.max_attempts = omega arith in
      let over : leb o.max_attempts n ≡ true = ground arith in
      let at : fn n s ≡ (err e, s) =
        subst (λ m. fn m s ≡ (err e, s)) {x = o.max_attempts} {y = n} (omega arith) failed in
      ground arith
  exhaust_from (suc left) n e total locked failed lock =
      let (x, failed', lock', alive) = locked n (omega arith) (omega arith) in
      let more : leb o.max_attempts n ≡ false = ground arith in
      let rest : retry_from o fn done (suc left) (n + 1) last s
          ≡ (err e, s, retries left (exhausted ∷ [])) =
        exhaust_from left (n + 1) e (omega arith) (λ i h l. locked i (omega arith) l) failed lock in
      ground (arith, rest)

  -- A block that fails by locks at each of its MaxAttempts attempts, changing nothing, while the
  -- context lasts: WithRetry returns the last of those errors, leaves the state as it was, and
  -- counts MaxAttempts - 1 retries and one exhaustion.
  pub with_retry-exhausts :
      (m : ℕ) (e : Error)
      → o.max_attempts ≡ suc m
      → ((i : ℕ) → 1 ≤ i → i ≤ m → Locked i)
      → fn (suc m) s ≡ (err e, s)
      → is_deadlock e ≡ true
      → with_retry o fn done last s ≡ (err e, s, retries m (exhausted ∷ []))
  unfolding with_retry
  with_retry-exhausts m e total locked failed lock =
      let at : fn o.max_attempts s ≡ (err e, s) =
        subst (λ n. fn n s ≡ (err e, s)) {x = suc m} {y = o.max_attempts} (omega arith) failed in
      subst (λ n. retry_from o fn done n 1 last s ≡ (err e, s, retries m (exhausted ∷ [])))
        {x = suc m} {y = o.max_attempts} (omega arith)
        (exhaust_from m 1 e (omega arith) (λ i h l. locked i h (omega arith)) at lock)
