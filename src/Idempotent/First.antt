-- ===== src/Idempotent/First.antt =====
-- An event that is new: what Process does when it is delivered for the first time.
use micro_go_lab.Base.{
  ◌≡◌, ap, ◌∙◌, Bool, true, none, inl, inr, String, [], ◌∷◌, ◌++◌, find, Bool-cases,
}
use micro_go_lab.Errors.{Result, ok, err, ◌>>=◌, >>=-eq-ok, err_ne_ok, is_record_not_found}
use micro_go_lab.Sql.{Tx, Table, Schema, IsTable, Database, IsDatabase, Firsted, Created}
use micro_go_lab.Idempotent.{ProcessedEvent, process, process_tx, process_found}
use micro_go_lab.Idempotent.Once.{IsProcessedTable, with_id}

module _ {S : Type 0} (c : Schema S ProcessedEvent) (table : IsProcessedTable c) (d : Database S)
    (t : Table S ProcessedEvent) (db : IsDatabase d) (law : IsTable c t) (id : String)
    (fn : Tx S (Unit {0})) (s s' : S) where
  -- The block has run, from the contents as they were, and then the event was marked.
  abbrev pub Processes : Type 0
  Processes =
      (mid : S) × (row : ProcessedEvent) × (fn s ≡ ok (tt, mid))
      × (row.event_id ≡ id)
      × (s' ≡ c.put (c.rows mid ++ row ∷ []) mid)

  new_row : ProcessedEvent
  new_row = record { event_id = id; processed_at = 0 }

  marked :
      (mid : S) (r : Result (ProcessedEvent × S)) (b : Bool)
      → fn s ≡ ok (tt, mid)
      → Created c new_row mid r
      → ◌>>=◌ {B = Bool × S} r (λ x. ok (true, x.1)) ≡ ok (b, s')
      → Processes
  unfolding new_row
  marked mid (ok (row, s1)) b ran (i, same, _, put) e =
      let last : s' ≡ s1 = cc in
      (mid, row, ran, ap (λ x. x.event_id) same ∙ table.assign_id i _, last ∙ put)
  marked mid (err x) b ran h e = absurd (cc)

  process_tx-Processes :
      (b : Bool)
      → find (with_id id) (c.rows s) ≡ none
      → process_tx d t id fn s ≡ ok (b, s')
      → Processes
  unfolding process_tx process_found new_row
  process_tx-Processes b fresh e = found (t.first (with_id id) s) (law.first_law (with_id id) s) e
    where
      found :
          (r : Result ProcessedEvent)
          → Firsted c (with_id id) s r
          → process_found d t id fn r s ≡ ok (b, s')
          → Processes
      found (ok existing) there h = absurd (cc)
      found (err x) _ h = elim (Bool-cases (is_record_not_found x)) [
        | inl new ↦
            let (ran, block, then) = >>=-eq-ok (fn s) _ (rw (new, process_found) at h) in
            marked ran.1 (t.create new_row ran.1) b block (law.create_law new_row ran.1) then
        | inr failed ↦ err_ne_ok x (b, s') (rw (failed, process_found) at h)
      ]

  -- Process, of a new event, if it returns.
  pub process-Processes :
      (b : Bool)
      → find (with_id id) (c.rows s) ≡ none
      → process d t id fn s ≡ (ok b, s')
      → Processes
  unfolding process
  process-Processes b fresh e =
      process_tx-Processes b fresh (rw e at (db.transaction_law Bool (process_tx d t id fn) s))
