-- ===== src/Sql/Keeps.antt =====
-- Predicates that statements, blocks of them and transactions keep.
use micro_go_lab.Errors.{Result, ok, err, ◌>>=◌ as bind}
use micro_go_lab.Sql.Defs.{Tx, ◌>>=◌, Database, IsDatabase, Ran}

-- If the block returns, the predicate holds of the new contents.
abbrev pub Keeps : {S A : Type 0} → (S → Type 0) → Result (A × S) → Type 0
Keeps P (ok (a, s)) = P s
Keeps P (err e) = Unit

module _ {S : Type 0} (P : S → Type 0) where
  pub Keeps->>= :
      {A B : Type 0} (m : Tx S A) (f : A → Tx S B) (s : S)
      → Keeps P (m s)
      → ((a : A) (s' : S) → P s' → Keeps P (f a s'))
      → Keeps P ((m >>= f) s)
  Keeps->>= {A} {B} m f s k g = go (m s) k
    where
      go : (r : Result (A × S)) → Keeps P r → Keeps P (bind r (λ x. f x.0 x.1))
      go (ok (a, s')) k = g a s' k
      go (err e) k = tt

  -- A transaction keeps what its block keeps.
  pub transaction-keeps :
      {A : Type 0} (d : Database S) (m : Tx S A) (s : S)
      → IsDatabase d
      → P s
      → Keeps P (m s)
      → P (d.transaction m s).1
  transaction-keeps {A} d m s law p k = go (d.transaction m s) (law.transaction_law A m s)
    where
      go : (r : Result A × S) → Ran m s r → P r.1
      go (ok a, s') e = rw e at k
      go (err x, s') e = rw e p

pub Keeps-both :
    {S A : Type 0} (P Q : S → Type 0) (r : Result (A × S))
    → Keeps P r
    → Keeps Q r
    → Keeps (λ s. P s × Q s) r
Keeps-both P Q (ok (a, s)) p q = (p, q)
Keeps-both P Q (err e) p q = tt
