-- ===== src/Outbox/Liveness.antt =====
-- common/xstream/poller.go, tick: what becomes of a batch that holds all that is due.
use micro_go_lab.Base.{
  ℕ, ◌+◌, ◌≡◌, ◌⊎◌, refl, sym, ap, subst, ◌∙◌, inl, inr, Bool, true, false, Option, some, none,
  List, [], ◌∷◌, All, All-imply, update_where, arith, ◌==◌, Bool-cases, select,
}
use micro_go_lab.Errors.{Error, Result, ok, err, ◌>>=◌ as bind, >>=-eq-ok}
use micro_go_lab.Sql.{Tx, Table, Schema, IsTable, Database, IsDatabase, Updated}
use micro_go_lab.Stream.{Message}
use micro_go_lab.Outbox.{OutboxEvent, sent, mark_as_sent, increment_retry_count}
use micro_go_lab.Outbox.Poller.{
  Format, is_due, to_message, handle_pending, process_pending, publish_all, counted, tick,
}
use micro_go_lab.Outbox.Sent.{Has}

-- A row that is not due, or that the batch has.
abbrev pub DueIn : List OutboxEvent → OutboxEvent → Type 0
DueIn es r = (is_due r ≡ false) ⊎ Has r.id es

-- A row that is not due, that the rest of the batch has, or whose number is one of those refused.
abbrev LeftIn : (ℕ → Type 0) → List OutboxEvent → OutboxEvent → Type 0
LeftIn Q es r = (is_due r ≡ false) ⊎ (Has r.id es ⊎ Q r.id)

-- An UPDATE of the row of the first event, after which that row is not due or is refused.
update-LeftIn :
    (Q : ℕ → Type 0) (g : OutboxEvent → OutboxEvent) (e : OutboxEvent) (es rs : List OutboxEvent)
    → ((r : OutboxEvent) → r.id ≡ e.id → (is_due (g r) ≡ false) ⊎ Q (g r).id)
    → All (LeftIn Q (e ∷ es)) rs
    → All (LeftIn Q es) (update_where (λ r. r.id == e.id) g rs)
unfolding update_where
update-LeftIn Q g e es [] k h = tt
update-LeftIn Q g e es (r ∷ rs) k (h, hs) = elim (Bool-cases (r.id == e.id)) [
  | inl hit ↦ rw hit (done (k r (ground arith)), update-LeftIn Q g e es rs k hs)
  | inr miss ↦ rw miss (left h miss, update-LeftIn Q g e es rs k hs)
]
  where
    done : (is_due (g r) ≡ false) ⊎ Q (g r).id → LeftIn Q es (g r)
    done (inl settled) = inl settled
    done (inr q) = inr (inr q)

    left : LeftIn Q (e ∷ es) r → (r.id == e.id) ≡ false → LeftIn Q es r
    left (inl settled) miss = inl settled
    left (inr (inl (inl same))) miss = absurd (ground arith)
    left (inr (inl (inr later))) miss = inr (inl later)
    left (inr (inr q)) miss = inr (inr q)

module _ {S : Type 0} (c : Schema S OutboxEvent)
    (rows-put : (rs : List OutboxEvent) (s : S) → c.rows (c.put rs s) ≡ rs) (d : Database S)
    (t : Table S OutboxEvent) (db : IsDatabase d) (law : IsTable c t)
    (pending : (OutboxEvent → Bool) → ℕ → S → Result (List OutboxEvent)) (f : Format)
    (publish : Message → Option Error) (now : ℕ) where
  -- Whether the broker takes the event.
  abbrev pub takes : OutboxEvent → Bool
  takes e = elim (publish (to_message f e)) [ none ↦ true | some x ↦ false ]

  abbrev pub refuses : OutboxEvent → Bool
  refuses e = elim (publish (to_message f e)) [ none ↦ false | some x ↦ true ]

  module _ (Q : ℕ → Type 0) (e : OutboxEvent) (es : List OutboxEvent) (s : S)
      (h : All (LeftIn Q (e ∷ es)) (c.rows s)) where
    mark_as_sent-LeftIn :
        (s' : S) → mark_as_sent t now e.id s ≡ ok (tt, s') → All (LeftIn Q es) (c.rows s')
    unfolding mark_as_sent is_due
    mark_as_sent-LeftIn s' done = go (t.update p g s) (law.update_law p g s) done
      where
        p : OutboxEvent → Bool
        p r = r.id == e.id

        g : OutboxEvent → OutboxEvent
        g r = record r { status = sent; sent_at = some now }

        settled : (r : OutboxEvent) → is_due (g r) ≡ false
        settled r = refl

        go :
            (r : Result (ℕ × S))
            → Updated c p g s r
            → bind {B = Unit {0} × S} r (λ y. ok (tt, y.1)) ≡ ok (tt, s')
            → All (LeftIn Q es) (c.rows s')
        go (err x) k done = cc
        go (ok (n, s1)) (_, put) done =
            let last : s' ≡ s1 = cc in
            rw (last, put, rows-put)
              (update-LeftIn Q g e es (c.rows s) (λ r same. inl (settled r)) h)

    counted-LeftIn :
        (x : Error)
        → Q e.id
        → All
            (LeftIn Q es)
            (c.rows (counted d t pending f publish now s (increment_retry_count t e.id x s)))
    unfolding increment_retry_count
    counted-LeftIn x q = go (t.update p g s) (law.update_law p g s)
      where
        p : OutboxEvent → Bool
        p r = r.id == e.id

        g : OutboxEvent → OutboxEvent
        g r = record r { retry_count = r.retry_count + 1; last_error = some x }

        passed : (r : OutboxEvent) → LeftIn Q (e ∷ es) r → LeftIn Q es r
        passed r (inl settled) = inl settled
        passed r (inr (inl (inl same))) = inr (inr (rw (sym same) q))
        passed r (inr (inl (inr later))) = inr (inl later)
        passed r (inr (inr k)) = inr (inr k)

        go :
            (r : Result (ℕ × S))
            → Updated c p g s r
            → All (LeftIn Q es) (
                c.rows (
                  counted d t pending f publish now s
                    (bind {B = Unit {0} × S} r (λ y. ok (tt, y.1)))))
        go (err y) k = All-imply (c.rows s) passed h
        go (ok (n, s')) (_, put) =
            rw (put, rows-put) (update-LeftIn Q g e es (c.rows s) (λ r same. inr (rw same q)) h)

  -- The loop of tick, if it returns, has published what the broker takes, and the rows that it leaves
  -- due are of events that the broker refuses.
  publish_all-takes :
      (Q : ℕ → Type 0) (es log : List OutboxEvent) (s s' : S)
      → ((i : ℕ) → Has i (select refuses es) → Q i)
      → All (LeftIn Q es) (c.rows s)
      → publish_all d t pending f publish now es s ≡ ok (log, s')
      → (log ≡ select takes es) × All (LeftIn Q []) (c.rows s')
  unfolding publish_all select
  publish_all-takes Q [] log s s' q h done =
      let last : s' ≡ s = cc in let none_left : log ≡ [] = cc in (none_left, rw last h)
  publish_all-takes Q (e ∷ es) log s s' q h done =
      answered (publish (to_message f e)) refl (publish_all-takes Q es)
    where
      answered :
          (o : Option Error)
          → publish (to_message f e) ≡ o
          → ((log : List OutboxEvent) (s s' : S)
              → ((i : ℕ) → Has i (select refuses es) → Q i)
              → All (LeftIn Q es) (c.rows s)
              → publish_all d t pending f publish now es s ≡ ok (log, s')
              → (log ≡ select takes es) × All (LeftIn Q []) (c.rows s'))
          → (log ≡ select takes (e ∷ es)) × All (LeftIn Q []) (c.rows s')
      answered none taken ih =
          let same : select refuses (e ∷ es) ≡ select refuses es = rw (taken, refuses) refl in
          let (marked, marks, then) =
            >>=-eq-ok (mark_as_sent t now e.id s) _ (rw (taken, publish_all) at done) in
          let (more, rest, end) =
            >>=-eq-ok (publish_all d t pending f publish now es marked.1) _ then in
          let (all, rows) =
            ih more.0 marked.1 more.1 (λ i k. q i (subst (Has i) (sym same) k))
              (mark_as_sent-LeftIn Q e es s h marked.1 marks) rest in
          let last : s' ≡ more.1 = cc in
          let whole : log ≡ e ∷ more.0 = cc in
          (rw (taken, takes) (whole ∙ ap (λ l. e ∷ l) all), rw last rows)
      answered (some x) refused ih =
          let rest = rw (refused, publish_all) at done in
          let same : select refuses (e ∷ es) ≡ e ∷ select refuses es = rw (refused, refuses) refl in
          let (more, rows) =
            ih log _ s' (λ i k. q i (subst (Has i) (sym same) (inr k)))
              (counted-LeftIn Q e es s h x (q e.id (subst (Has e.id) (sym same) (inl refl))))
              rest in
          (rw (refused, takes) more, rows)

  -- `publish` is what the broker answers to a message in this tick. The query returns a batch, every
  -- due row of the table is in the batch, and the tick commits, whatever messages the broker refuses:
  -- then what the tick has published is those events of the batch to whose messages publish answers
  -- no error, in their order, and a row that is still due has the number of one that it refuses.
  pub tick-sends_batch :
      (batch_size : ℕ) (s s' : S) (batch log : List OutboxEvent)
      → pending is_due batch_size s ≡ ok batch
      → All (DueIn batch) (c.rows s)
      → tick d t pending f publish now batch_size s ≡ (ok log, s')
      → (log ≡ select takes batch) × All (DueIn (select refuses batch)) (c.rows s')
  unfolding tick process_pending handle_pending publish_all
  tick-sends_batch batch_size s s' batch log query due h =
      let ran : handle_pending d t pending loop (pending is_due batch_size s) s ≡ ok (log, s') =
        rw h at (db.transaction_law (List OutboxEvent) block s) in
      let (whole, rows) =
        publish_all-takes (λ i. Has i (select refuses batch)) batch log s s' (λ i k. k)
          (All-imply (c.rows s) first due) (sym (same batch) ∙ (rw query at ran)) in
      (whole, All-imply (c.rows s') last rows)
    where
      loop : List OutboxEvent → Tx S (List OutboxEvent)
      loop = publish_all d t pending f publish now

      block : Tx S (List OutboxEvent)
      block = λ s. handle_pending d t pending loop (pending is_due batch_size s) s

      same : (es : List OutboxEvent) → handle_pending d t pending loop (ok es) s ≡ loop es s
      same [] = refl
      same (e ∷ es) = refl

      first : (r : OutboxEvent) → DueIn batch r → LeftIn (λ i. Has i (select refuses batch)) batch r
      first r (inl settled) = inl settled
      first r (inr here) = inr (inl here)

      last :
          (r : OutboxEvent)
          → LeftIn (λ i. Has i (select refuses batch)) [] r
          → DueIn (select refuses batch) r
      last r (inl settled) = inl settled
      last r (inr (inl none_left)) = absurd (cc)
      last r (inr (inr q)) = inr q
