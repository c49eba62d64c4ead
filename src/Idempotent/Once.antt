-- ===== src/Idempotent/Once.antt =====
-- An event is processed once: what Process does when the event is delivered again.
use micro_go_lab.Base.{
  ℕ, ◌≡◌, ◌≢◌, ap, ◌∙◌, Bool, true, false, none, String, List, [], ◌∷◌, ◌++◌, find, str_eq, eq_refl,
  Bool-cases, inl, inr, arith,
}
use micro_go_lab.Errors.{Result, ok, err, ◌>>=◌ as bind, is_record_not_found, err_ne_ok}
use micro_go_lab.Sql.{Tx, Table, Schema, IsTable, Database, IsDatabase, Ran, Firsted, Created}
use micro_go_lab.Idempotent.{ProcessedEvent, process, process_tx, process_found}

-- What the table of processed events is to Process, whatever database it stands in.
pub record IsProcessedTable {S : Type 0} (c : Schema S ProcessedEvent) : Type 0 where
  pub rows-put : (rs : List ProcessedEvent) (s : S) → c.rows (c.put rs s) ≡ rs
  pub assign_id : (i : ℕ) (e : ProcessedEvent) → (c.assign i e).event_id ≡ e.event_id

abbrev pub with_id : String → ProcessedEvent → Bool
with_id id e = str_eq e.event_id id

find-append_ne_none :
    (id : String) (rs : List ProcessedEvent) (e : ProcessedEvent)
    → e.event_id ≡ id
    → find (with_id id) (rs ++ e ∷ []) ≢ none
unfolding find
find-append_ne_none id [] e h = rw (h, eq_refl id) (λ n. cc)
find-append_ne_none id (r ∷ rs) e h = ground (arith, find-append_ne_none id rs e h)

module _ {S : Type 0} (c : Schema S ProcessedEvent) (table : IsProcessedTable c) (d : Database S)
    (t : Table S ProcessedEvent) (db : IsDatabase d) (law : IsTable c t) (id : String)
    (fn : Tx S (Unit {0})) where
  abbrev row : ProcessedEvent
  row = record { event_id = id; processed_at = 0 }

  -- A block that returns has left the event in the table.
  pub process_tx-marks :
      (s s' : S) (b : Bool)
      → process_tx d t id fn s ≡ ok (b, s')
      → find (with_id id) (c.rows s') ≢ none
  unfolding process_tx process_found
  process_tx-marks s s' b e = found (t.first (with_id id) s) (law.first_law (with_id id) s) e
    where
      created :
          (s1 : S) (r : Result (ProcessedEvent × S))
          → Created c row s1 r
          → bind {B = Bool × S} r (λ x. ok (true, x.1)) ≡ ok (b, s')
          → find (with_id id) (c.rows s') ≢ none
      created s1 (ok (r', s2)) (i, same, _, put) h =
          let last : s' ≡ s2 = cc in
          rw (last, put, table.rows-put)
            (find-append_ne_none id (c.rows s1) r'
              (ap (λ x. x.event_id) same ∙ table.assign_id i row))
      created s1 (err x) k h = cc

      ran :
          (r : Result (Unit {0} × S))
          → bind {B = Bool × S} r
              (λ x. bind {B = Bool × S} (t.create row x.1) (λ y. ok (true, y.1)))
            ≡ ok (b, s')
          → find (with_id id) (c.rows s') ≢ none
      ran (ok (_, s1)) h = created s1 (t.create row s1) (law.create_law row s1) h
      ran (err x) h = cc

      found :
          (r : Result ProcessedEvent)
          → Firsted c (with_id id) s r
          → process_found d t id fn r s ≡ ok (b, s')
          → find (with_id id) (c.rows s') ≢ none
      found (ok existing) there h = let last : s ≡ s' = cc in rw (← last, there) (λ n. cc)
      found (err x) _ h = elim (Bool-cases (is_record_not_found x)) [
        | inl new ↦ ran (fn s) (rw (new, process_found) at h)
        | inr failed ↦ err_ne_ok x (b, s') (rw (failed, process_found) at h)
      ]

  -- A block that is run with the event in the table changes nothing and does not report true.
  pub process_tx-skips :
      (s s' : S) (b : Bool)
      → find (with_id id) (c.rows s) ≢ none
      → process_tx d t id fn s ≡ ok (b, s')
      → (b ≡ false) × (s' ≡ s)
  unfolding process_tx process_found
  process_tx-skips s s' b present e =
      found (t.first (with_id id) s) (law.first_law (with_id id) s) e
    where
      found :
          (r : Result ProcessedEvent)
          → Firsted c (with_id id) s r
          → process_found d t id fn r s ≡ ok (b, s')
          → (b ≡ false) × (s' ≡ s)
      found (ok existing) f h = ground arith
      found (err x) f h = elim (Bool-cases (is_record_not_found x)) [
        | inl new ↦ absurd (present (f new))
        | inr failed ↦ err_ne_ok x (b, s') (rw (failed, process_found) at h)
      ]

-- The event is processed at most once.
module _ {S : Type 0} (c : Schema S ProcessedEvent) (table : IsProcessedTable c) (d : Database S)
    (t : Table S ProcessedEvent) (db : IsDatabase d) (law : IsTable c t) (id : String) where
  -- When Process has run a block for an event, a later Process of the same event, whatever its
  -- block, changes nothing and does not report that it processed the event.
  pub process_again :
      (fn again : Tx S (Unit {0})) (s s' s'' : S) (r : Result Bool)
      → process d t id fn s ≡ (ok true, s')
      → process d t id again s' ≡ (r, s'')
      → (s'' ≡ s') × (r ≢ ok true)
  unfolding process
  process_again fn again s s' s'' r once twice =
      second r twice (rw twice at (db.transaction_law Bool (process_tx d t id again) s'))
    where
      marked : find (with_id id) (c.rows s') ≢ none
      marked =
          process_tx-marks c table d t db law id fn s s' true
            (rw once at (db.transaction_law Bool (process_tx d t id fn) s))

      second :
          (r : Result Bool)
          → d.transaction (process_tx d t id again) s' ≡ (r, s'')
          → Ran (process_tx d t id again) s' (r, s'')
          → (s'' ≡ s') × (r ≢ ok true)
      second (ok b) e ran =
          let k = process_tx-skips c table d t db law id again s' s'' b marked ran in
          (k.1, λ h. let same : b ≡ true = cc in cc)
      second (err x) e ran = (ran, λ h. cc)
