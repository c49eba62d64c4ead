-- ===== src/Base/Lists.antt =====
-- Lists measured by native numbers, and the list scans behind SQL's WHERE.
use Prim.Native.Nat.{ℕ, zero, suc, ◌+◌}
use mathlib.Core.Path.{◌≡◌, refl, subst}
use mathlib.Core.Logic.{◌≢◌, ◌⊎◌, inl, inr}
use mathlib.Core.Bool.{Bool, true, false}
use mathlib.Core.List.{List, [], ◌∷◌, ◌++◌}
use mathlib.Core.Option.{Option, none, some}
use native.Mathlib.Omega.{arith}
use micro_go_lab.Base.Tests.{if◌then◌else◌, Bool-cases}

module _ {ℓ} {A : Type ℓ} where
  abbrev pub length : List A → ℕ
  length [] = 0
  length (_ ∷ xs) = suc (length xs)

  abbrev pub take : ℕ → List A → List A
  take zero xs = []
  take (suc n) [] = []
  take (suc n) (x ∷ xs) = x ∷ take n xs

  abbrev pub drop : ℕ → List A → List A
  drop zero xs = xs
  drop (suc n) [] = []
  drop (suc n) (x ∷ xs) = drop n xs

  pub length-append : (xs ys : List A) → length (xs ++ ys) ≡ length xs + length ys
  length-append [] ys = omega arith
  length-append (x ∷ xs) ys = omega (arith, length-append xs ys)

  -- The first element that passes a test.
  unfoldable pub find : (A → Bool) → List A → Option A
  find p [] = none
  find p (x ∷ xs) = if p x then some x else find p xs

  -- Those that pass it, in order.
  unfoldable pub select : (A → Bool) → List A → List A
  select p [] = []
  select p (x ∷ xs) = if p x then x ∷ select p xs else select p xs

  -- All elements, those that pass changed by a function.
  unfoldable pub update_where : (A → Bool) → (A → A) → List A → List A
  update_where p f [] = []
  update_where p f (x ∷ xs) = (if p x then f x else x) ∷ update_where p f xs

  abbrev pub All {κ} : (A → Type κ) → List A → Type κ
  All P [] = Unit
  All P (x ∷ xs) = P x × All P xs

  abbrev pub Exists : (A → Type 0) → List A → Type 0
  Exists P [] = true ≡ false
  Exists P (x ∷ xs) = P x ⊎ Exists P xs

module _ {ℓ} {A : Type ℓ} where
  pub find-append_none :
      (p : A → Bool) (xs ys : List A) → find p xs ≡ none → find p (xs ++ ys) ≡ find p ys
  unfolding find
  find-append_none p [] ys e = refl
  find-append_none p (x ∷ xs) ys e = ground (arith, find-append_none p xs ys)

  pub find-append_some :
      (p : A → Bool) (xs ys : List A) (x : A) → find p xs ≡ some x → find p (xs ++ ys) ≡ some x
  unfolding find
  find-append_some p [] ys x e = cc
  find-append_some p (y ∷ xs) ys x e = ground (arith, find-append_some p xs ys x)

  -- An update that a test does not see hides nothing from it.
  pub find-update_where :
      (p g : A → Bool) (f : A → A) (xs : List A)
      → ((x : A) → p (f x) ≡ p x)
      → find p xs ≡ none
      → find p (update_where g f xs) ≡ none
  unfolding find update_where
  find-update_where p g f [] same e = refl
  find-update_where p g f (x ∷ xs) same e = ground (arith, same x, find-update_where p g f xs same)

  pub find-holds : (p : A → Bool) (xs : List A) (x : A) → find p xs ≡ some x → p x ≡ true
  unfolding find
  find-holds p [] x e = cc
  find-holds p (y ∷ xs) x e = ground (arith, find-holds p xs x)

  pub find-implies :
      (p q : A → Bool) (xs : List A)
      → ((x : A) → p x ≡ true → q x ≡ true)
      → find q xs ≡ none
      → find p xs ≡ none
  unfolding find
  find-implies p q [] i e = refl
  find-implies p q (x ∷ xs) i e = ground (arith, i x, find-implies p q xs i)

module _ {ℓ κ} {A : Type ℓ} (P : A → Type κ) where
  pub All-append : (xs : List A) (x : A) → All P xs → P x → All P (xs ++ x ∷ [])
  All-append [] x h p = (p, tt)
  All-append (y ∷ xs) x h p = (h.0, All-append xs x h.1 p)

  pub All-append_list : (xs ys : List A) → All P xs → All P ys → All P (xs ++ ys)
  All-append_list [] ys h k = k
  All-append_list (x ∷ xs) ys h k = (h.0, All-append_list xs ys h.1 k)

  pub All-find : (p : A → Bool) (xs : List A) (x : A) → All P xs → find p xs ≡ some x → P x
  unfolding find
  All-find p [] x h e = cc
  All-find p (y ∷ xs) x h e = elim (Bool-cases (p y)) [
    | inl hit ↦
        let found : some y ≡ some x = rw hit at e in let same : y ≡ x = cc in subst P same h.0
    | inr miss ↦ All-find p xs x h.1 (rw miss at e)
  ]

  pub All-update_where :
      (p : A → Bool) (f : A → A) (xs : List A)
      → ((x : A) → p x ≡ true → P x → P (f x))
      → All P xs
      → All P (update_where p f xs)
  unfolding update_where
  All-update_where p f [] keep h = tt
  All-update_where p f (x ∷ xs) keep h = elim (Bool-cases (p x)) [
    | inl hit ↦ rw hit (keep x hit h.0, All-update_where p f xs keep h.1)
    | inr miss ↦ rw miss (h.0, All-update_where p f xs keep h.1)
  ]

module _ {ℓ} {A : Type ℓ} where
  pub All-imply {κ μ} :
      {P : A → Type κ} {Q : A → Type μ} (xs : List A) → ((x : A) → P x → Q x) → All P xs → All Q xs
  All-imply [] f h = tt
  All-imply (x ∷ xs) f h = (f x h.0, All-imply xs f h.1)

module _ {A : Type 0} where
  pub All-Exists {κ} :
      (P : A → Type κ) (xs : List A) {x : A} → All P xs → Exists (λ y. y ≡ x) xs → P x
  All-Exists P [] h e = absurd (cc)
  All-Exists P (y ∷ xs) h (inl same) = subst P same h.0
  All-Exists P (y ∷ xs) h (inr later) = All-Exists P xs h.1 later

  pub Exists-append_last : (P : A → Type 0) (xs : List A) {x : A} → P x → Exists P (xs ++ x ∷ [])
  Exists-append_last P [] p = inl p
  Exists-append_last P (y ∷ xs) p = inr (Exists-append_last P xs p)

  pub Exists-append_left : (P : A → Type 0) (xs ys : List A) → Exists P xs → Exists P (xs ++ ys)
  Exists-append_left P [] ys e = absurd (cc)
  Exists-append_left P (x ∷ xs) ys (inl p) = inl p
  Exists-append_left P (x ∷ xs) ys (inr later) = inr (Exists-append_left P xs ys later)

  -- A row that an update hits.
  pub Exists-update_where :
      (P : A → Type 0) (p : A → Bool) (f : A → A) (xs : List A)
      → ((x : A) → p x ≡ true → P (f x))
      → find p xs ≢ none
      → Exists P (update_where p f xs)
  unfolding find update_where
  Exists-update_where P p f [] h found = absurd (found refl)
  Exists-update_where P p f (x ∷ xs) h found = elim (Bool-cases (p x)) [
    | inl hit ↦ rw hit (inl (h x hit))
    | inr miss ↦ rw miss (inr (Exists-update_where P p f xs h (rw miss at found)))
  ]
