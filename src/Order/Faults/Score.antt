-- ===== src/Order/Faults/Score.antt =====
-- What the loops of computeRiskScore count.
use micro_go_lab.Base.{
  ℕ, zero, suc, ◌+◌, ◌*◌, ◌%◌, ◌<◌, ◌≤◌, ◌≡◌, refl, ap, ◌∙◌, inl, inr, Bool-cases, Option, String,
  List, [], ◌∷◌, ℤ, ◌==◌, length, drop, if◌then◌else◌, arith,
}
use micro_go_lab.Order.Faults.{
  Env, int_bits, byte_at, positive_or, scan_from, scan_all, repeat_scan, compute_risk_score,
}

-- The reference: the pairs of equal bytes in a name.
abbrev pub count : ℕ → List ℕ → ℕ
count b [] = 0
count b (c ∷ cs) = (if b == c then 1 else 0) + count b cs

abbrev pub equal_pairs : List ℕ → ℕ
equal_pairs [] = 0
equal_pairs (b ∷ bs) = count b bs + equal_pairs bs

drop-byte_at : (i : ℕ) (bs : List ℕ) → i < length bs → drop i bs ≡ byte_at bs i ∷ drop (suc i) bs
drop-byte_at i [] l = absurd (omega arith)
drop-byte_at zero (b ∷ bs) l = refl
drop-byte_at (suc i) (b ∷ bs) l = drop-byte_at i bs (omega arith)

drop_all : (i : ℕ) (bs : List ℕ) → length bs ≤ i → drop i bs ≡ []
drop_all zero [] l = refl
drop_all (suc i) [] l = refl
drop_all zero (b ∷ bs) l = absurd (omega arith)
drop_all (suc i) (b ∷ bs) l = drop_all i bs (omega arith)

wraps : (s n : ℕ) → (s % int_bits + n) % int_bits ≡ (s + n) % int_bits
wraps s n = omega arith

module _ (name : List ℕ) where
  scan_from-count :
      (left i j s : ℕ)
      → j + left ≡ length name
      → scan_from name i left j (s % int_bits)
        ≡ (s + count (byte_at name i) (drop j name)) % int_bits
  unfolding scan_from
  scan_from-count zero i j s total =
      let end : count (byte_at name i) (drop j name) ≡ 0 =
        ap (count (byte_at name i)) (drop_all j name (omega arith)) in
      ap (λ n. n % int_bits) (omega arith)
  scan_from-count (suc left) i j s total =
      let tail : drop j name ≡ byte_at name j ∷ drop (suc j) name =
        drop-byte_at j name (omega arith) in
      let whole : count (byte_at name i) (drop j name)
          ≡ (if byte_at name i == byte_at name j then 1 else 0)
            + count (byte_at name i) (drop (suc j) name) =
        ap (count (byte_at name i)) tail in
      let next : count (byte_at name i) (drop (j + 1) name)
          ≡ count (byte_at name i) (drop (suc j) name) =
        ap (λ k. count (byte_at name i) (drop k name)) {x = j + 1} {y = suc j} (omega arith) in
      elim (Bool-cases (byte_at name i == byte_at name j)) [
        | inl hit ↦
            let more = rw hit at whole in
            rw hit (
              ap (scan_from name i left (j + 1)) (wraps s 1)
              ∙ scan_from-count left i (j + 1) (s + 1) (omega arith)
              ∙ ap (λ n. n % int_bits) (omega arith))
        | inr miss ↦
            let same = rw miss at whole in
            rw miss (
              scan_from-count left i (j + 1) s (omega arith) ∙ ap (λ n. n % int_bits) (omega arith))
      ]

  scan_all-pairs :
      (left i s : ℕ)
      → i + left ≡ length name
      → scan_all name left i (s % int_bits) ≡ (s + equal_pairs (drop i name)) % int_bits
  unfolding scan_all
  scan_all-pairs zero i s total =
      let end : equal_pairs (drop i name) ≡ 0 = ap equal_pairs (drop_all i name (omega arith)) in
      ap (λ n. n % int_bits) (omega arith)
  scan_all-pairs (suc left) i s total =
      let here = count (byte_at name i) (drop (suc i) name) in
      let whole : equal_pairs (drop i name) ≡ here + equal_pairs (drop (suc i) name) =
        ap equal_pairs (drop-byte_at i name (omega arith)) in
      let inner : count (byte_at name i) (drop (i + 1) name) ≡ here =
        ap (λ k. count (byte_at name i) (drop k name)) {x = i + 1} {y = suc i} (omega arith) in
      let outer : equal_pairs (drop (i + 1) name) ≡ equal_pairs (drop (suc i) name) =
        ap (λ k. equal_pairs (drop k name)) {x = i + 1} {y = suc i} (omega arith) in
      ap (scan_all name left (i + 1))
        (scan_from-count left i (i + 1) s (omega arith) ∙ ap (λ n. n % int_bits) (omega arith))
      ∙ scan_all-pairs left (i + 1) (s + here) (omega arith)
      ∙ ap (λ n. n % int_bits) (omega arith)

  repeat_scan-pairs :
      (rounds s : ℕ)
      → repeat_scan name rounds (s % int_bits) ≡ (s + rounds * equal_pairs name) % int_bits
  unfolding repeat_scan
  repeat_scan-pairs zero s = ap (λ n. n % int_bits) (omega arith)
  repeat_scan-pairs (suc rounds) s =
      ap (repeat_scan name rounds) (scan_all-pairs (length name) 0 s (omega arith))
      ∙ repeat_scan-pairs rounds (s + equal_pairs name)
      ∙ ap (λ n. n % int_bits) (omega arith)

-- The three nested loops of computeRiskScore leave, in 64 bits, the number of the pairs of equal
-- bytes in the name, as often as BUG_CPU_ITERS says, which is 50000 if it is not a positive number.
pub compute_risk_score-pairs :
    (env : Env) (atoi : String → Option ℤ) (name : List ℕ)
    → compute_risk_score env atoi name
      ≡ (positive_or env atoi "BUG_CPU_ITERS" 50_000 * equal_pairs name) % int_bits
unfolding compute_risk_score
compute_risk_score-pairs env atoi name =
    repeat_scan-pairs name (positive_or env atoi "BUG_CPU_ITERS" 50_000) 0
    ∙ ap (λ n. n % int_bits) (omega arith)
