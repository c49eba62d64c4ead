-- ===== src/Idempotent/Keeps.antt =====
-- Predicates that a block and its transaction keep, kept by Process.
use micro_go_lab.Base.{inl, inr, Bool, true, String, List, [], ◌∷◌, ◌++◌, str_eq, Bool-cases}
use micro_go_lab.Errors.{Result, ok, err, ◌>>=◌ as bind, is_record_not_found}
use micro_go_lab.Sql.{Tx, Table, Schema, IsTable, Database, IsDatabase, Created}
use micro_go_lab.Sql.Keeps.{Keeps, Keeps->>=, transaction-keeps}
use micro_go_lab.Idempotent.{ProcessedEvent, process, process_tx, process_found}

module _ {S : Type 0} (c : Schema S ProcessedEvent) (d : Database S) (t : Table S ProcessedEvent)
    (db : IsDatabase d) (law : IsTable c t) (P : S → Type 0)
    (by_processed : (s : S) (es : List ProcessedEvent) → P s → P (c.put es s)) (id : String)
    (fn : Tx S (Unit {0})) where
  row : ProcessedEvent
  row = record { event_id = id; processed_at = 0 }

  mark-Keeps :
      (s : S) (r : Result (ProcessedEvent × S))
      → P s
      → Created c row s r
      → Keeps {A = Bool} P (bind r (λ x. ok (true, x.1)))
  mark-Keeps s (ok (e', s')) p (i, _, _, put) = rw put (by_processed s (c.rows s ++ e' ∷ []) p)
  mark-Keeps s (err x) p h = tt

  process_found-Keeps :
      (existing : Result ProcessedEvent) (s : S)
      → P s
      → Keeps P (fn s)
      → Keeps P (process_found d t id fn existing s)
  unfolding process_found row
  process_found-Keeps (ok existing) s p k = p
  process_found-Keeps (err x) s p k = elim (Bool-cases (is_record_not_found x)) [
    | inl new ↦ rw new (
        Keeps->>= P fn _ s k
          (λ _ s' p'. mark-Keeps s' (t.create row s') p' (law.create_law row s')))
    | inr failed ↦ rw failed tt
  ]

  pub process-keeps : (s : S) → P s → Keeps P (fn s) → P (process d t id fn s).1
  unfolding process process_tx
  process-keeps s p k =
      transaction-keeps P d (process_tx d t id fn) s db p
        (process_found-Keeps (t.first (λ r. str_eq r.event_id id) s) s p k)
