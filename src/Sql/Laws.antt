-- ===== src/Sql/Laws.antt =====
-- What the laws of a table say of the number of rows that an UPDATE reports.
use micro_go_lab.Base.{
  ℕ, ◌<◌, ◌≡◌, ◌≢◌, refl, inl, inr, Bool, none, List, [], ◌∷◌, find, update_where, arith,
}
use micro_go_lab.Sql.Defs.{Affected}

module _ {R : Type 0} (p : R → Bool) (f : R → R) where
  -- No row affected: the table is as it was.
  pub update_where-Affected_zero :
      (rs : List R) {n : ℕ} → Affected p f rs n → n ≡ 0 → update_where p f rs ≡ rs
  unfolding update_where
  update_where-Affected_zero [] h z = refl
  update_where-Affected_zero (r ∷ rs) (m, h, inl (e, same)) z =
      ground (arith, update_where-Affected_zero rs h)
  update_where-Affected_zero (r ∷ rs) (m, h, inr (e, hit, changed)) z = absurd (omega arith)

  -- Some row affected: a row matched.
  pub find-Affected_pos : (rs : List R) {n : ℕ} → Affected p f rs n → 0 < n → find p rs ≢ none
  unfolding find
  find-Affected_pos [] h l = absurd (omega arith)
  find-Affected_pos (r ∷ rs) (m, h, inl (e, same)) l = ground (arith, find-Affected_pos rs h)
  find-Affected_pos (r ∷ rs) (m, h, inr (e, hit, changed)) l = ground arith

  -- An UPDATE that changes whatever it matches affects a row if one matches.
  pub find-Affected_zero :
      (rs : List R) {n : ℕ} → ((r : R) → f r ≢ r) → Affected p f rs n → n ≡ 0 → find p rs ≡ none
  unfolding find
  find-Affected_zero [] ch h z = refl
  find-Affected_zero (r ∷ rs) ch (m, h, inl (e, same)) z =
      ground (arith, ch r, find-Affected_zero rs ch h)
  find-Affected_zero (r ∷ rs) ch (m, h, inr (e, hit, changed)) z = absurd (omega arith)
