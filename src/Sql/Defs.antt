-- ===== src/Sql/Defs.antt =====
-- The statements against a table of rows `R` in a database `S`, transactions, and their laws.
use micro_go_lab.Base.{
  ℕ, suc, ◌≡◌, ◌≢◌, ◌⊎◌, Bool, true, false, Option, none, some, List, [], ◌∷◌, ◌++◌, find,
  update_where,
}
use micro_go_lab.Errors.{Error, Result, ok, err, ◌>>=◌ as bind, is_record_not_found}

-- A statement or a block of them: the new contents, or an error.
abbrev pub Tx : Type 0 → Type 0 → Type 0
Tx S A = S → Result (A × S)

infixl 5 ◌>>=◌ ◌>>◌
abbrev pub ◌>>=◌ : {S A B : Type 0} → Tx S A → (A → Tx S B) → Tx S B
◌>>=◌ m f s = bind (m s) (λ r. f r.0 r.1)

abbrev pub ◌>>◌ : {S A B : Type 0} → Tx S A → Tx S B → Tx S B
m >> k = m >>= λ _. k

abbrev pub return : {S A : Type 0} → A → Tx S A
return a s = ok (a, s)

abbrev pub fail : {S A : Type 0} → Error → Tx S A
fail e s = err e

-- A read, its error handed back as a value: `err := tx.….First(&row).Error`.
abbrev pub attempt : {S A : Type 0} → (S → Result A) → Tx S (Result A)
attempt m s = ok (m s, s)

-- A computation with no statement in it.
abbrev pub lift : {S A : Type 0} → Result A → Tx S A
lift r s = bind r (λ a. ok (a, s))

pub record Table (S R : Type 0) : Type 0 where
  -- Where(p).First(&row), with a locking clause or without
  pub first : (R → Bool) → S → Result R
  -- Where(p).Updates(f): RowsAffected
  pub update : (R → Bool) → (R → R) → Tx S ℕ
  -- Create(&row): the row as the statement leaves it in the variable
  pub create : R → Tx S R

-- What the migrations say of a table: where its rows stand, the key that the database assigns,
-- and which two rows a unique index keeps apart.
pub record Schema (S R : Type 0) : Type 0 where
  pub rows : S → List R
  pub put : List R → S → S
  pub assign : ℕ → R → R
  pub clash : R → R → Bool

-- RowsAffected counts the rows that the statement changes, not those that it matches.
abbrev pub Affected : {R : Type 0} → (R → Bool) → (R → R) → List R → ℕ → Type 0
Affected p f [] n = n ≡ 0
Affected p f (r ∷ rs) n =
    (m : ℕ) × Affected p f rs m
    × (((n ≡ m) × (p r ≡ true → f r ≡ r)) ⊎ ((n ≡ suc m) × (p r ≡ true) × (f r ≢ r)))

module _ {S R : Type 0} (c : Schema S R) where
  abbrev pub Firsted : (R → Bool) → S → Result R → Type 0
  Firsted p s (ok r) = find p (c.rows s) ≡ some r
  Firsted p s (err e) = is_record_not_found e ≡ true → find p (c.rows s) ≡ none

  abbrev pub Updated : (R → Bool) → (R → R) → S → Result (ℕ × S) → Type 0
  Updated p f s (ok (n, s')) =
      Affected p f (c.rows s) n × (s' ≡ c.put (update_where p f (c.rows s)) s)
  Updated p f s (err e) = is_record_not_found e ≡ false

  abbrev pub Created : R → S → Result (R × S) → Type 0
  Created r s (ok (r', s')) =
      (id : ℕ) × (r' ≡ c.assign id r)
      × (find (c.clash r') (c.rows s) ≡ none)
      × (s' ≡ c.put (c.rows s ++ r' ∷ []) s)
  Created r s (err e) = is_record_not_found e ≡ false

  -- The documented behaviour. Any statement may fail, and then it has changed nothing; only First
  -- reports gorm.ErrRecordNotFound.
  pub record IsTable (t : Table S R) : Type 0 where
    pub first_law : (p : R → Bool) (s : S) → Firsted p s (t.first p s)
    pub update_law : (p : R → Bool) (f : R → R) (s : S) → Updated p f s (t.update p f s)
    pub create_law : (r : R) (s : S) → Created r s (t.create r s)

-- db.Transaction(fn), and the Error field of the handle that fn is given.
pub record Database (S : Type 0) : Type 1 where
  pub transaction : {A : Type 0} → Tx S A → S → Result A × S
  pub tx_error : S → Option Error

abbrev pub Ran : {S A : Type 0} → Tx S A → S → Result A × S → Type 0
Ran {A = A} m s (err e, s') = s' ≡ s
Ran m s (ok a, s') = m s ≡ ok (a, s')

-- A transaction that reports an error has changed nothing; one that does not has run its body to
-- the end. A statement's error stands in the value that the statement returns, and not in the
-- handle of the transaction.
pub record IsDatabase {S : Type 0} (d : Database S) : Type 1 where
  pub transaction_law : (A : Type 0) (m : Tx S A) (s : S) → Ran m s (d.transaction m s)
  pub tx_error_law : (s : S) → d.tx_error s ≡ none
