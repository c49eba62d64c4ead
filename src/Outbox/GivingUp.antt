-- ===== src/Outbox/GivingUp.antt =====
-- What becomes of the rows that the broker refuses, over all ticks of the poller.
use micro_go_lab.Base.{
  ℕ, ◌+◌, ◌≡◌, ◌⊎◌, refl, inl, inr, Bool, true, false, Option, none, some, List, [], ◌∷◌, ◌==◌,
  update_where, All, Exists, ◌++◌, All-imply, All-append_list, Exists-append_left, All-Exists,
  arith, Bool-cases,
}
use micro_go_lab.Errors.{Error, Result, ok, err, ◌>>=◌ as bind}
use micro_go_lab.Sql.{
  Tx, Table, Schema, IsTable, Database, IsDatabase, Updated, ◌>>=◌, ◌>>◌, return,
}
use micro_go_lab.Sql.Keeps.{Keeps, Keeps->>=, transaction-keeps}
use micro_go_lab.Stream.{Message}
use micro_go_lab.Outbox.{OutboxEvent, max_retries, mark_as_sent, increment_retry_count, sent}
use micro_go_lab.Outbox.Poller.{
  Format, is_due, to_message, handle_pending, process_pending, publish_all, counted, tick,
}
use micro_go_lab.Outbox.Sent.{Has}
use micro_go_lab.Outbox.Polling.{
  Signal, poll, poll-keeps, DistinctIds, IsTriable, IsBounded, Locks, counted_once, sent_once,
}

-- A row that an UPDATE passes over.
missed :
    (p : OutboxEvent → Bool) (g : OutboxEvent → OutboxEvent) (rows : List OutboxEvent)
    (r : OutboxEvent)
    → p r ≡ false
    → Exists (λ x. x ≡ r) rows
    → Exists (λ x. x ≡ r) (update_where p g rows)
unfolding update_where
missed p g [] r miss h = h
missed p g (x ∷ rows) r miss (inl same) = rw (same, miss) (inl refl)
missed p g (x ∷ rows) r miss (inr later) = inr (missed p g rows r miss later)

module _ {S : Type 0} (c : Schema S OutboxEvent)
    (rows-put : (rs : List OutboxEvent) (s : S) → c.rows (c.put rs s) ≡ rs) (d : Database S)
    (t : Table S OutboxEvent) (db : IsDatabase d) (law : IsTable c t)
    (pending : (OutboxEvent → Bool) → ℕ → S → Result (List OutboxEvent)) (f : Format)
    (publish : Message → Option Error) (now : ℕ) where
  -- One UPDATE by id, seen in the rows.
  update-rows :
      (P : List OutboxEvent → Type 0) (p : OutboxEvent → Bool) (g : OutboxEvent → OutboxEvent)
      (s : S)
      → P (update_where p g (c.rows s))
      → Keeps {A = Unit {0}} (λ s'. P (c.rows s')) (bind (t.update p g s) (λ x. ok (tt, x.1)))
  update-rows P p g s h = go (t.update p g s) (law.update_law p g s)
    where
      go :
          (r : Result (ℕ × S))
          → Updated c p g s r
          → Keeps {A = Unit {0}} (λ s'. P (c.rows s')) (bind r (λ x. ok (tt, x.1)))
      go (err x) u = tt
      go (ok (n, s')) (_, e) = rw (e, rows-put) h

  module _ (Inv : List OutboxEvent → List OutboxEvent → Type 0)
      (by_count : (x : Error) (e : OutboxEvent) (es rows : List OutboxEvent)
        → Inv (e ∷ es) rows
        → Inv es (
            update_where
              (λ r. r.id == e.id)
              (λ r. record r { retry_count = r.retry_count + 1; last_error = some x })
              rows))
      (by_sent : (e : OutboxEvent) (es rows : List OutboxEvent)
        → Inv (e ∷ es) rows
        → Inv es (
            update_where
              (λ r. r.id == e.id)
              (λ r. record r { status = sent; sent_at = some now })
              rows))
      (by_skip : (e : OutboxEvent) (es rows : List OutboxEvent)
        → Inv (e ∷ es) rows
        → Inv es rows) where
    counted-Inv :
        (x : Error) (e : OutboxEvent) (es : List OutboxEvent) (s : S)
        → Inv (e ∷ es) (c.rows s)
        → Inv es (c.rows (counted d t pending f publish now s (increment_retry_count t e.id x s)))
    unfolding increment_retry_count
    counted-Inv x e es s h = go _ (update-rows (Inv es) _ _ s (by_count x e es (c.rows s) h))
      where
        go :
            (r : Result (Unit {0} × S))
            → Keeps (λ s'. Inv es (c.rows s')) r
            → Inv es (c.rows (counted d t pending f publish now s r))
        go (ok (_, s')) k = k
        go (err y) k = by_skip e es (c.rows s) h

    mark_as_sent-Inv :
        (e : OutboxEvent) (es : List OutboxEvent) (s : S)
        → Inv (e ∷ es) (c.rows s)
        → Keeps (λ s'. Inv es (c.rows s')) (mark_as_sent t now e.id s)
    unfolding mark_as_sent
    mark_as_sent-Inv e es s h = update-rows (Inv es) _ _ s (by_sent e es (c.rows s) h)

    -- The loop of tick works the batch off.
    publish_all-Inv :
        (es : List OutboxEvent) (s : S)
        → Inv es (c.rows s)
        → Keeps (λ s'. Inv [] (c.rows s')) (publish_all d t pending f publish now es s)
    unfolding publish_all
    publish_all-Inv [] s h = h
    publish_all-Inv (e ∷ es) s h = go (publish (to_message f e)) (publish_all-Inv es)
      where
        rest : Tx S (List OutboxEvent)
        rest = publish_all d t pending f publish now es

        go :
            (r : Option Error)
            → ((s' : S) → Inv es (c.rows s') → Keeps (λ s''. Inv [] (c.rows s'')) (rest s'))
            → Keeps
                (λ s'. Inv [] (c.rows s'))
                ((elim r as (λ _. Tx S (List OutboxEvent)) [
                  | some x ↦ λ s.
                      rest (counted d t pending f publish now s (increment_retry_count t e.id x s))
                  | none ↦ (do mark_as_sent t now e.id; log ← rest; return (e ∷ log))
                ])
                  s)
        go (some x) ih = ih _ (counted-Inv x e es s h)
        go none ih = marked (mark_as_sent t now e.id s) (mark_as_sent-Inv e es s h)
          where
            marked :
                (r : Result (Unit {0} × S))
                → Keeps (λ s'. Inv es (c.rows s')) r
                → Keeps
                    (λ s'. Inv [] (c.rows s'))
                    (bind r (λ x. bind (rest x.1) (λ y. ok (e ∷ y.0, y.1))))
            marked (err x) k = tt
            marked (ok (_, s')) k =
                Keeps->>= (λ s''. Inv [] (c.rows s'')) rest (λ log s''. ok (e ∷ log, s'')) s'
                  (ih s' k) (λ _ s'' h''. h'')

-- Rows that have not been tried are appended.
abbrev pub Inserts : List OutboxEvent → List OutboxEvent → Type 0
Inserts rows rows' =
    (es : List OutboxEvent) × All (λ e. e.retry_count ≡ 0) es × (rows' ≡ rows ++ es)

-- Every row but those of the batch may have been tried as often as it may be.
Tries : List OutboxEvent → List OutboxEvent → Type 0
Tries batch rows = DistinctIds batch × All (IsTriable batch) rows

-- The row stands in the table, and not in the batch.
Passes : OutboxEvent → List OutboxEvent → List OutboxEvent → Type 0
Passes r batch rows = Exists (λ x. x ≡ r) rows × (Has r.id batch → true ≡ false)

Passes-update :
    (r e : OutboxEvent) (g : OutboxEvent → OutboxEvent) (es rows : List OutboxEvent)
    → Passes r (e ∷ es) rows
    → Passes r es (update_where (λ x. x.id == e.id) g rows)
unfolding Passes
Passes-update r e g es rows (there, absent) = (
  missed (λ x. x.id == e.id) g rows r (other (Bool-cases (r.id == e.id))) there,
  λ later. absent (inr later),
)
  where
    other : ((r.id == e.id) ≡ true) ⊎ ((r.id == e.id) ≡ false) → (r.id == e.id) ≡ false
    other (inl hit) = let gone = absent (inl (ground arith)) in absurd (cc)
    other (inr miss) = miss

module _ {S : Type 0} (c : Schema S OutboxEvent)
    (rows-put : (rs : List OutboxEvent) (s : S) → c.rows (c.put rs s) ≡ rs) (d : Database S)
    (t : Table S OutboxEvent) (db : IsDatabase d) (law : IsTable c t)
    (pending : (OutboxEvent → Bool) → ℕ → S → Result (List OutboxEvent))
    (locks : (p : OutboxEvent → Bool) (n : ℕ) (s : S) → Locks p (c.rows s) (pending p n s))
    (f : Format) (publish : ℕ → Message → Option Error) (now : ℕ → ℕ) (batch_size : ℕ)
    (meanwhile : ℕ → S → S)
    (inserts : (n : ℕ) (s : S) → Inserts (c.rows s) (c.rows (meanwhile n s))) where
  -- The ticks of a poller: the broker may answer differently at each, and the service inserts rows
  -- before it.
  abbrev pub ticking : ℕ → S → S
  ticking n s = (tick d t pending f (publish n) (now n) batch_size (meanwhile n s)).1

  IsHeld : OutboxEvent → S → Type 0
  IsHeld r s = All IsBounded (c.rows s) × Exists (λ x. x ≡ r) (c.rows s)

  batch-Inv :
      (r : OutboxEvent) (s : S) (batch : List OutboxEvent)
      → r.retry_count ≡ max_retries
      → IsHeld r s
      → DistinctIds batch
      → All (λ x. Has x.id batch → is_due x ≡ true) (c.rows s)
      → Tries batch (c.rows s) × Passes r batch (c.rows s)
  unfolding Tries Passes IsHeld is_due
  batch-Inv r s batch spent (bounded, there) distinct due = (
    (distinct, both (c.rows s) bounded due),
    (
      there,
      λ mine.
          let hit = All-Exists (λ x. Has x.id batch → is_due x ≡ true) (c.rows s) due there mine in
          ground arith,
    ),
  )
    where
      both :
          (rows : List OutboxEvent)
          → All IsBounded rows
          → All (λ x. Has x.id batch → is_due x ≡ true) rows
          → All (IsTriable batch) rows
      both [] b q = tt
      both (x ∷ rows) (b, bs) (q, qs) =
          ((b, λ mine. let hit = q mine in ground arith), both rows bs qs)

  inserted-IsHeld : (r : OutboxEvent) (n : ℕ) (s : S) → IsHeld r s → IsHeld r (meanwhile n s)
  unfolding IsHeld
  inserted-IsHeld r n s (bounded, there) =
      let (es, few, e) = inserts n s in
      rw e (
        All-append_list IsBounded (c.rows s) es bounded
            (All-imply es (λ x k. let z = k in omega arith) few),
        Exists-append_left (λ x. x ≡ r) (c.rows s) es there,
      )

  tick-IsHeld :
      (r : OutboxEvent)
      → r.retry_count ≡ max_retries
      → (n : ℕ) (s : S) → IsHeld r s
      → IsHeld r (tick d t pending f (publish n) (now n) batch_size s).1
  unfolding tick process_pending handle_pending IsHeld Tries Passes
  tick-IsHeld r spent n s h =
      transaction-keeps (λ s'. IsHeld r s') d block s db h
        (go (pending is_due batch_size s) (locks is_due batch_size s))
    where
      loop : List OutboxEvent → Tx S (List OutboxEvent)
      loop = publish_all d t pending f (publish n) (now n)

      block : Tx S (List OutboxEvent)
      block = λ s. handle_pending d t pending loop (pending is_due batch_size s) s

      held :
          (q : Result (List OutboxEvent × S))
          → Keeps (λ s'. Tries [] (c.rows s') × Passes r [] (c.rows s')) q
          → Keeps (λ s'. IsHeld r s') q
      held (err x) k = tt
      held (ok (log, s')) k = (All-imply (c.rows s') (λ x h. h.0) k.0.1, k.1.0)

      go :
          (q : Result (List OutboxEvent))
          → Locks is_due (c.rows s) q
          → Keeps (λ s'. IsHeld r s') (handle_pending d t pending loop q s)
      go (err x) k = tt
      go (ok []) k = h
      go (ok (e ∷ es)) (distinct, due) = held _ (
          publish_all-Inv c rows-put d t db law pending f (publish n) (now n)
            (λ batch rows. Tries batch rows × Passes r batch rows)
            (λ x e es rows k.
              ((k.0.0.1, counted_once x e es rows k.0.0.0 k.0.1), Passes-update r e _ es rows k.1))
            (λ e es rows k.
              ((k.0.0.1, sent_once (now n) e es rows k.0.1), Passes-update r e _ es rows k.1))
            (λ e es rows k. (
              (k.0.0.1, All-imply rows (λ x h. (h.0, λ later. h.1 (inr later))) k.0.1),
              (k.1.0, λ later. k.1.1 (inr later)),
            ))
            (e ∷ es) s (batch-Inv r s (e ∷ es) spent h distinct due))

  -- The query returns rows of its condition, each once, and between the ticks nothing is written to
  -- the outbox but new rows. Then from a table in which no row has been tried more than MaxRetries
  -- times, whatever the broker refuses at each tick, whatever statements fail and however often the
  -- ticker fires before the context is done: no row is tried more often, and a row that has been
  -- tried MaxRetries times stays as it is, so that it is pending for good if it was.
  pub poll-gives_up :
      (jitter : Result ℕ) (signals : List Signal) (s : S) (r : OutboxEvent)
      → All IsBounded (c.rows s)
      → Exists (λ x. x ≡ r) (c.rows s)
      → r.retry_count ≡ max_retries
      → let s' = (poll ticking jitter signals s).1 in
        All IsBounded (c.rows s') × Exists (λ x. x ≡ r) (c.rows s')
  unfolding IsHeld
  poll-gives_up jitter signals s r bounded there spent =
      poll-keeps ticking (IsHeld r)
        (λ n s h. tick-IsHeld r spent n (meanwhile n s) (inserted-IsHeld r n s h)) jitter signals s
        (bounded, there)
