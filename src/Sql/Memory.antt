-- ===== src/Sql/Memory.antt =====
-- An engine that meets the laws: the rows in memory, and no statement fails but for a row that is
-- not there or a key that is taken.
use micro_go_lab.Base.{
  ℕ, suc, ◌≡◌, refl, inl, inr, Bool, Option, none, some, List, [], ◌∷◌, ◌++◌, find, update_where,
  length, Bool-cases, if◌then◌else◌,
}
use micro_go_lab.Errors.{Result, ok, err, record_not_found, mysql, is_record_not_found}
use micro_go_lab.Sql.Defs.{
  Tx, Table, Schema, Affected, Firsted, Created, IsTable, Database, IsDatabase, Ran,
}

module _ {S R : Type 0} (c : Schema S R) (same : Discrete R) where
  unfoldable pub changed : (R → Bool) → (R → R) → List R → ℕ
  changed p f [] = 0
  changed p f (r ∷ rs) =
      let m = changed p f rs in if p r then elim (same (f r) r) [ yes _ ↦ m | no _ ↦ suc m ] else m

  unfoldable pub select_first : (R → Bool) → S → Result R
  select_first p s = elim (find p (c.rows s)) [ none ↦ err record_not_found | some r ↦ ok r ]

  unfoldable pub insert : R → Tx S R
  insert r s =
      let r' = c.assign (suc (length (c.rows s))) r in
      elim (find (c.clash r') (c.rows s)) [
        | none ↦ ok (r', c.put (c.rows s ++ r' ∷ []) s)
        | some _ ↦ err (mysql 1062)
      ]

  unfoldable pub table : Table S R
  unfolding changed select_first insert
  table = record {
    first = select_first;
    update = λ p f s. ok (changed p f (c.rows s), c.put (update_where p f (c.rows s)) s);
    create = insert;
  }

  changed-Affected : (p : R → Bool) (f : R → R) (rs : List R) → Affected p f rs (changed p f rs)
  unfolding changed
  changed-Affected p f [] = refl
  changed-Affected p f (r ∷ rs) = elim (Bool-cases (p r)) [
    | inl hit ↦
        elim (same (f r) r)
          as (λ d. Affected p f (r ∷ rs) (
            if p r
            then elim d [ yes _ ↦ changed p f rs | no _ ↦ suc (changed p f rs) ]
            else changed p f rs)) [
              | yes e ↦ rw hit (changed p f rs, changed-Affected p f rs, inl (refl, λ _. e))
              | no ne ↦ rw hit (changed p f rs, changed-Affected p f rs, inr (refl, refl, ne))
            ]
    | inr miss ↦ rw miss (changed p f rs, changed-Affected p f rs, inl (refl, λ h. cc))
  ]

  select_first-Firsted : (p : R → Bool) (s : S) → Firsted c p s (select_first p s)
  unfolding select_first
  select_first-Firsted p s = go (find p (c.rows s)) refl
    where
      go :
          (o : Option R)
          → find p (c.rows s) ≡ o
          → Firsted c p s (elim o [ none ↦ err record_not_found | some r ↦ ok r ])
      go none e = λ _. e
      go (some r) e = e

  insert-Created : (r : R) (s : S) → Created c r s (insert r s)
  unfolding insert is_record_not_found
  insert-Created r s = go (find (c.clash r') (c.rows s)) refl
    where
      r' : R
      r' = c.assign (suc (length (c.rows s))) r

      go :
          (o : Option R)
          → find (c.clash r') (c.rows s) ≡ o
          → Created c r s
              (elim o [ none ↦ ok (r', c.put (c.rows s ++ r' ∷ []) s) | some _ ↦ err (mysql 1062) ])
      go none e = (suc (length (c.rows s)), refl, e, refl)
      go (some _) e = refl

  pub table-IsTable : IsTable c table
  unfolding table
  table-IsTable = record {
    first_law = select_first-Firsted;
    update_law = λ p f s. (changed-Affected p f (c.rows s), refl);
    create_law = insert-Created;
  }

module _ {S : Type 0} where
  unfoldable pub run : {A : Type 0} → Tx S A → S → Result A × S
  run m s = elim (m s) [ ok (a, s') ↦ (ok a, s') | err e ↦ (err e, s) ]

  unfoldable pub database : Database S
  unfolding run
  database = record { transaction = run; tx_error = λ _. none }

  run-Ran : (A : Type 0) (m : Tx S A) (s : S) → Ran m s (run m s)
  unfolding run
  run-Ran A m s = go (m s) refl
    where
      go :
          (r : Result (A × S))
          → m s ≡ r
          → Ran m s (elim r [ ok (a, s') ↦ (ok a, s') | err e ↦ (err e, s) ])
      go (ok (a, s')) e = e
      go (err e') e = refl

  pub database-IsDatabase : IsDatabase database
  unfolding database
  database-IsDatabase = record { transaction_law = run-Ran; tx_error_law = λ _. refl }
