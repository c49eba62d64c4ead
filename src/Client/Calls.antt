-- ===== src/Client/Calls.antt =====
-- What the interceptor answers of its calls.
use micro_go_lab.Base.{
  ℕ, zero, suc, ◌≡◌, ◌<◌, ◌≤◌, ◌⊎◌, refl, true, false, Option, none, some, List, [], ◌∷◌, inl, inr,
  Bool-cases, take, arith,
}
use micro_go_lab.Errors.{Error}
use micro_go_lab.Client.{is_retryable, attempt_from, retry_unary_interceptor}

-- The waits that precede attempt `k`, in milliseconds.
abbrev pub waits : ℕ → List ℕ
waits k = take k (100 ∷ 200 ∷ [])

module _ (invoke done : ℕ → Option Error) where
  -- Attempt `i` fails for a moment, and the context outlives the wait after it.
  abbrev pub IsPassing : ℕ → Type 0
  IsPassing i = (e : Error) × (invoke i ≡ some e) × (is_retryable e ≡ true) × (done i ≡ none)

  -- Attempt `k` is the third one, or succeeds, or fails for good.
  abbrev pub IsLast : ℕ → Type 0
  IsLast k =
      (k ≡ 2) ⊎ ((invoke k ≡ none) ⊎ ((e : Error) × (invoke k ≡ some e) × (is_retryable e ≡ false)))

  third :
      (e f : Error) (o : Option Error)
      → invoke 0 ≡ some e
      → is_retryable e ≡ true
      → done 0 ≡ none
      → invoke 1 ≡ some f
      → is_retryable f ≡ true
      → done 1 ≡ none
      → invoke 2 ≡ o
      → retry_unary_interceptor invoke done ≡ (invoke 2, 100 ∷ 200 ∷ [])
  unfolding retry_unary_interceptor attempt_from
  third e f none h k l h' k' l' h2 = simp (h, k, l, h', k', l', h2)
  third e f (some x) h k l h' k' l' h2 = elim (Bool-cases (is_retryable x)) [
    | inl again ↦ simp (h, k, l, h', k', l', h2, again)
    | inr final ↦ simp (h, k, l, h', k', l', h2, final)
  ]

  -- If the attempts before `k` fail for a moment and the context outlives the waits after them, and
  -- attempt `k`, the third at the latest, succeeds or fails for good or is the third: the
  -- interceptor returns what attempt `k` returned, after the waits of 100 and 200 milliseconds
  -- that precede it, and no other attempt counts.
  pub retry_unary_interceptor-IsLast :
      (k : ℕ)
      → k ≤ 2
      → ((i : ℕ) → i < k → IsPassing i)
      → IsLast k
      → retry_unary_interceptor invoke done ≡ (invoke k, waits k)
  unfolding retry_unary_interceptor attempt_from
  retry_unary_interceptor-IsLast zero le pass (inl two) = absurd (omega arith)
  retry_unary_interceptor-IsLast zero le pass (inr (inl h)) = simp h
  retry_unary_interceptor-IsLast zero le pass (inr (inr (e, h, f))) = simp (h, f)
  retry_unary_interceptor-IsLast (suc zero) le pass (inl two) = absurd (omega arith)
  retry_unary_interceptor-IsLast (suc zero) le pass (inr (inl h)) =
      let (e, h0, k0, l0) = pass 0 (omega arith) in simp (h0, k0, l0, h)
  retry_unary_interceptor-IsLast (suc zero) le pass (inr (inr (x, h, f))) =
      let (e, h0, k0, l0) = pass 0 (omega arith) in simp (h0, k0, l0, h, f)
  retry_unary_interceptor-IsLast (suc (suc zero)) le pass last =
      let (e, h0, k0, l0) = pass 0 (omega arith) in
      let (f, h1, k1, l1) = pass 1 (omega arith) in third e f (invoke 2) h0 k0 l0 h1 k1 l1 refl
  retry_unary_interceptor-IsLast (suc (suc (suc k))) le pass last = absurd (omega arith)
