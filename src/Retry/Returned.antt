-- ===== src/Retry/Returned.antt =====
-- What WithRetry returns without an error, one of its attempts has returned.
use micro_go_lab.Base.{
  ℕ, zero, suc, ◌+◌, ◌≡◌, ◌⊎◌, inl, inr, refl, sym, ap, ◌∙◌, false, Option, List, [], ◌∷◌, leb,
  arith, subst, Bool-cases, Option-cases,
}
use micro_go_lab.Errors.{Error, Result, ok, err, is_deadlock}
use micro_go_lab.Retry.{RetryOptions, Label, retried, retry_from, with_retry}

-- `P` holds of the state before the first attempt, and an attempt that fails keeps it.
module _ {S A : Type 0} (P : S → Type 0) (o : RetryOptions) (fn : ℕ → S → Result A × S)
    (done : ℕ → Option Error) (last : A)
    (keep : (n : ℕ) (s s' : S) (x : Error) → fn n s ≡ (err x, s') → P s → P s') where
  -- The attempt whose value and state they are, and the state that it started in.
  abbrev pub Attempted : A → S → Type 0
  Attempted a s' = (m : ℕ) × (s : S) × P s × (fn m s ≡ (ok a, s'))

  -- How a round ends that ends without an error: its attempt returned, or a later one did.
  abbrev After : ℕ → ℕ → A → S → S → Type 0
  After left n a s s' =
      (fn n s ≡ (ok a, s'))
      ⊎ ((x : Error) × (s1 : S) × (ls' : List Label) × (fn n s ≡ (err x, s1))
          × (retry_from o fn done left (n + 1) last s1 ≡ (ok a, s', ls'))
          × (leb o.max_attempts n ≡ false))

  one_round :
      (left n : ℕ) (a : A) (s s' : S) (ls : List Label)
      → retry_from o fn done (suc left) n last s ≡ (ok a, s', ls)
      → After left n a s s'
  unfolding retry_from
  one_round left n a s s' ls e = go (fn n s) refl e
    where
      again :
          (x : Error) (s1 : S) (r : Result A × S × List Label)
          → fn n s ≡ (err x, s1)
          → retry_from o fn done left (n + 1) last s1 ≡ r
          → leb o.max_attempts n ≡ false
          → ◌≡◌ {A = Result A × S × List Label} (r.0, r.1, retried ∷ r.2) (ok a, s', ls)
          → After left n a s s'
      again x s1 (r, s2, ls') failed h more same =
          let k : ◌≡◌ {A = Result A × S × List Label} (r, s2, ls') (ok a, s', ls') = cc in
          inr (x, s1, ls', failed, h ∙ k, more)

      go :
          (x : Result A × S)
          → fn n s ≡ x
          → retry_from o fn done (suc left) n last s ≡ (ok a, s', ls)
          → After left n a s s'
      go (ok b, s1) at h =
          let same : ◌≡◌ {A = Result A × S × List Label} (ok b, (fn n s).1, []) (ok a, s', ls) =
            rw (at, retry_from) at h in
          let state : (fn n s).1 ≡ s1 = ap (λ y. y.1) at in
          let k : ◌≡◌ {A = Result A × S} (ok b, s1) (ok a, s') = cc in inl (at ∙ k)
      go (err x, s1) at h =
          let same : (err x, (fn n s).1) ≡ fn n s = ap (λ y. (err x, y.1)) at ∙ sym at in
          elim (Bool-cases (is_deadlock x)) [
            | inr final ↦ let end = rw (at, retry_from, final) at h in absurd (cc)
            | inl lock ↦ elim (Bool-cases (leb o.max_attempts n)) [
              | inl over ↦ let end = rw (at, retry_from, lock, over) at h in absurd (cc)
              | inr more ↦ elim (Option-cases (done n)) [
                | inl alive ↦
                    again x (fn n s).1 (retry_from o fn done left (n + 1) last (fn n s).1)
                      (sym same) refl more (rw (at, retry_from, lock, more, alive) at h)
                | inr (c, ended) ↦
                    let end = rw (at, retry_from, lock, more, ended) at h in absurd (cc)
              ]
            ]
          ]

  returned_from :
      (left n : ℕ) (a : A) (s s' : S) (ls : List Label)
      → n + left ≡ o.max_attempts
      → P s
      → retry_from o fn done (suc left) n last s ≡ (ok a, s', ls)
      → Attempted a s'
  returned_from zero n a s s' ls total p e = elim (one_round zero n a s s' ls e) [
    | inl here ↦ (n, s, p, here)
    | inr (x, s1, ls', failed, later, more) ↦ absurd (ground arith)
  ]
  returned_from (suc left) n a s s' ls total p e = elim (one_round (suc left) n a s s' ls e) [
    | inl here ↦ (n, s, p, here)
    | inr (x, s1, ls', failed, later, more) ↦
        returned_from left (n + 1) a s1 s' ls' (omega arith) (keep n s s1 x failed p) later
  ]

  pub with_retry-returned :
      (m : ℕ) (a : A) (s s' : S) (ls : List Label)
      → o.max_attempts ≡ suc m
      → P s
      → with_retry o fn done last s ≡ (ok a, s', ls)
      → Attempted a s'
  unfolding with_retry
  with_retry-returned m a s s' ls total p e = returned_from m 1 a s s' ls (omega arith) p (
      subst (λ n. retry_from o fn done n 1 last s ≡ (ok a, s', ls)) {x = o.max_attempts} {y = suc m}
        total e)
