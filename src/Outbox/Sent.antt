-- ===== src/Outbox/Sent.antt =====
-- common/xstream/poller.go, tick: the rows that it marks, and what the broker answers.
use micro_go_lab.Base.{
  ℕ, ◌+◌, ◌≡◌, ◌⊎◌, refl, sym, ◌∙◌, inl, inr, Bool, true, false, Option, none, some, List, [], ◌∷◌,
  All, update_where, arith, ◌==◌, Bool-cases,
}
use micro_go_lab.Errors.{Error, Result, ok, err, ◌>>=◌ as bind}
use micro_go_lab.Sql.{Tx, Table, Schema, IsTable, Database, IsDatabase, Ran, Updated}
use micro_go_lab.Stream.{Message}
use micro_go_lab.Outbox.{
  OutboxEvent, OutboxStatus, pending, sent, failed, mark_as_sent, increment_retry_count,
}
use micro_go_lab.Outbox.Poller.{
  Format, is_due, to_message, handle_pending, process_pending, publish_all, counted, tick,
}

abbrev is_sent : OutboxStatus → Bool
is_sent sent = true
is_sent pending = false
is_sent failed = false

-- Some event of the list has the id.
abbrev pub Has : ℕ → List OutboxEvent → Type 0
Has i [] = true ≡ false
Has i (e ∷ es) = (e.id ≡ i) ⊎ Has i es

-- Row by row: a row that is sent after was sent before or is in the log, and its identity stays.
abbrev pub Drains : List OutboxEvent → List OutboxEvent → List OutboxEvent → Type 0
Drains log [] [] = Unit
Drains log [] (r' ∷ rs') = true ≡ false
Drains log (r ∷ rs) [] = true ≡ false
Drains log (r ∷ rs) (r' ∷ rs') =
    (r'.id ≡ r.id)
    × (r'.event_id ≡ r.event_id)
    × ((is_sent r'.status ≡ false) ⊎ ((is_sent r.status ≡ true) ⊎ Has r.id log))
    × Drains log rs rs'

unsent :
    (log : List OutboxEvent) (r : OutboxEvent)
    → (is_sent r.status ≡ false) ⊎ ((is_sent r.status ≡ true) ⊎ Has r.id log)
unsent log r = elim (Bool-cases (is_sent r.status)) [
  | inl was ↦ inr (inl was)
  | inr not_yet ↦ inl not_yet
]

Drains-refl : (log rs : List OutboxEvent) → Drains log rs rs
Drains-refl log [] = tt
Drains-refl log (r ∷ rs) = (refl, refl, unsent log r, Drains-refl log rs)

-- One UPDATE by id, that sends no row but those of an event in the log.
update-Drains :
    (f : OutboxEvent → OutboxEvent) (i : ℕ) (log rs : List OutboxEvent)
    → ((r : OutboxEvent) → ((f r).id ≡ r.id) × ((f r).event_id ≡ r.event_id))
    → ((r : OutboxEvent)
        → r.id ≡ i
        → (is_sent (f r).status ≡ false) ⊎ ((is_sent r.status ≡ true) ⊎ Has r.id log))
    → Drains log rs (update_where (λ e. e.id == i) f rs)
unfolding update_where
update-Drains f i log [] same sends = tt
update-Drains f i log (r ∷ rs) same sends = elim (Bool-cases (r.id == i)) [
  | inl hit ↦
      rw hit ((same r).0, (same r).1, sends r (ground arith), update-Drains f i log rs same sends)
  | inr miss ↦ rw miss (refl, refl, unsent log r, update-Drains f i log rs same sends)
]

-- First one batch, then another, of a longer log.
Drains-trans :
    (log log' rs rs' rs'' : List OutboxEvent)
    → ((i : ℕ) → Has i log → Has i log')
    → Drains log' rs rs'
    → Drains log rs' rs''
    → Drains log' rs rs''
Drains-trans log log' [] [] [] inc k h = tt
Drains-trans log log' [] [] (x ∷ y) inc k h = h
Drains-trans log log' [] (x ∷ y) z inc k h = absurd (cc)
Drains-trans log log' (r ∷ rs) [] z inc k h = absurd (cc)
Drains-trans log log' (r ∷ rs) (r' ∷ rs') [] inc k h = absurd (cc)
Drains-trans log log' (r ∷ rs) (r' ∷ rs') (r'' ∷ rs'') inc (i, e, s, k) (i', e', s', k') =
    (i' ∙ i, e' ∙ e, step s', Drains-trans log log' rs rs' rs'' inc k k')
  where
    step :
        (is_sent r''.status ≡ false) ⊎ ((is_sent r'.status ≡ true) ⊎ Has r'.id log)
        → (is_sent r''.status ≡ false) ⊎ ((is_sent r.status ≡ true) ⊎ Has r.id log')
    step (inl h) = inl h
    step (inr (inl h)) = elim s [ inl n ↦ absurd (cc) | inr was ↦ inr was ]
    step (inr (inr m)) = inr (inr (rw i at (inc r'.id m)))

module _ {S : Type 0} (c : Schema S OutboxEvent)
    (rows-put : (rs : List OutboxEvent) (s : S) → c.rows (c.put rs s) ≡ rs) (d : Database S)
    (t : Table S OutboxEvent) (db : IsDatabase d) (law : IsTable c t)
    (pending : (OutboxEvent → Bool) → ℕ → S → Result (List OutboxEvent)) (f : Format)
    (publish : Message → Option Error) (now : ℕ) where
  -- The answer of the broker to the message of the event.
  abbrev pub IsTaken : OutboxEvent → Type 0
  IsTaken e = publish (to_message f e) ≡ none

  Drained : S → Result (List OutboxEvent × S) → Type 0
  Drained s (ok (log, s')) = Drains log (c.rows s) (c.rows s') × All IsTaken log
  Drained s (err e) = Unit

  extend :
      (s s1 : S) (r : Result (List OutboxEvent × S))
      → ((log : List OutboxEvent) → Drains log (c.rows s) (c.rows s1))
      → Drained s1 r
      → Drained s r
  unfolding Drained
  extend s s1 (err x) k h = tt
  extend s s1 (ok (log, s')) k h =
      (Drains-trans log log (c.rows s) (c.rows s1) (c.rows s') (λ i m. m) (k log) h.0, h.1)

  counted-Drains :
      (e : OutboxEvent) (x : Error) (s : S) (log : List OutboxEvent)
      → Drains log
          (c.rows s)
          (c.rows (counted d t pending f publish now s (increment_retry_count t e.id x s)))
  unfolding increment_retry_count
  counted-Drains e x s log = go (t.update p g s) (law.update_law p g s)
    where
      p : OutboxEvent → Bool
      p q = q.id == e.id

      g : OutboxEvent → OutboxEvent
      g q = record q { retry_count = q.retry_count + 1; last_error = some x }

      go :
          (r : Result (ℕ × S))
          → Updated c p g s r
          → Drains log (c.rows s) (
              c.rows (
                counted d t pending f publish now s
                  (bind {B = Unit {0} × S} r (λ y. ok (tt, y.1)))))
      go (err y) k = Drains-refl log (c.rows s)
      go (ok (n, s')) (_, put) =
          rw (put, rows-put)
            (update-Drains g e.id log (c.rows s) (λ r. (refl, refl)) (λ r _. unsent log r))

  marked :
      (e : OutboxEvent) (s : S) (rest : Tx S (List OutboxEvent))
      → IsTaken e
      → ((s1 : S) → Drained s1 (rest s1))
      → Drained s (
          bind {B = List OutboxEvent × S}
            (mark_as_sent t now e.id s)
            (λ y. bind {B = List OutboxEvent × S} (rest y.1) (λ z. ok (e ∷ z.0, z.1))))
  unfolding mark_as_sent Drained
  marked e s rest taken ih = go (t.update p g s) (law.update_law p g s)
    where
      p : OutboxEvent → Bool
      p q = q.id == e.id

      g : OutboxEvent → OutboxEvent
      g q = record q { status = sent; sent_at = some now }

      after :
          (s1 : S) (r : Result (List OutboxEvent × S))
          → s1 ≡ c.put (update_where p g (c.rows s)) s
          → Drained s1 r
          → Drained s (bind {B = List OutboxEvent × S} r (λ z. ok (e ∷ z.0, z.1)))
      after s1 (err x) put k = tt
      after s1 (ok (log, s')) put k = (
        Drains-trans log (e ∷ log) (c.rows s) (c.rows s1) (c.rows s') (λ i m. inr m)
            (rw (put, rows-put)
              (update-Drains g e.id (e ∷ log) (c.rows s) (λ r. (refl, refl))
                (λ r same. inr (inr (inl (sym same))))))
            k.0,
        (taken, k.1),
      )

      go :
          (r : Result (ℕ × S))
          → Updated c p g s r
          → Drained s (
              bind {B = List OutboxEvent × S}
                (bind {B = Unit {0} × S} r (λ y. ok (tt, y.1)))
                (λ y. bind {B = List OutboxEvent × S} (rest y.1) (λ z. ok (e ∷ z.0, z.1))))
      go (err x) k = tt
      go (ok (n, s1)) (_, put) = after s1 (rest s1) put (ih s1)

  publish_all-Drained :
      (es : List OutboxEvent) (s : S) → Drained s (publish_all d t pending f publish now es s)
  unfolding publish_all Drained
  publish_all-Drained [] s = (Drains-refl [] (c.rows s), tt)
  publish_all-Drained (e ∷ es) s = go (publish (to_message f e)) refl (publish_all-Drained es)
    where
      rest : Tx S (List OutboxEvent)
      rest = publish_all d t pending f publish now es

      go :
          (o : Option Error)
          → publish (to_message f e) ≡ o
          → ((s1 : S) → Drained s1 (publish_all d t pending f publish now es s1))
          → Drained s (publish_all d t pending f publish now (e ∷ es) s)
      go none h ih = rw (h, publish_all) (marked e s rest h ih)
      go (some x) h ih =
          rw (h, publish_all)
            (extend s (counted d t pending f publish now s (increment_retry_count t e.id x s))
              (rest (counted d t pending f publish now s (increment_retry_count t e.id x s)))
              (counted-Drains e x s) (ih _))

  abbrev pub Ticked : S → Result (List OutboxEvent) × S → Type 0
  Ticked s (ok log, s') = Drains log (c.rows s) (c.rows s') × All IsTaken log
  Ticked s (err e, s') = s' ≡ s

  -- `publish` is what the broker answers to a message in this tick. Whichever messages it refuses and
  -- whichever statements fail: after a tick that commits, a row that is marked as sent was so before,
  -- or it has the id of an event to whose message publish answers no error; a tick that does not
  -- commit has changed no row.
  pub tick-Ticked :
      (batch_size : ℕ) (s : S) → Ticked s (tick d t pending f publish now batch_size s)
  unfolding tick process_pending handle_pending Drained
  tick-Ticked batch_size s = go (d.transaction block s) (law_of block)
    where
      handler : List OutboxEvent → Tx S (List OutboxEvent)
      handler = publish_all d t pending f publish now

      block : Tx S (List OutboxEvent)
      block s = handle_pending d t pending handler (pending is_due batch_size s) s

      law_of : (m : Tx S (List OutboxEvent)) → Ran m s (d.transaction m s)
      law_of m = db.transaction_law (List OutboxEvent) m s

      handled : (r : Result (List OutboxEvent)) → Drained s (handle_pending d t pending handler r s)
      handled (err x) = tt
      handled (ok []) = (Drains-refl [] (c.rows s), tt)
      handled (ok (e ∷ es)) = publish_all-Drained (e ∷ es) s

      go : (r : Result (List OutboxEvent) × S) → Ran block s r → Ticked s r
      go (err x, s') e = e
      go (ok log, s') e = rw e at (handled (pending is_due batch_size s))
