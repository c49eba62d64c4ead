-- ===== src/Outbox/Keeps.antt =====
-- Predicates on a database that the poller keeps: it changes no more of a row than its status.
use micro_go_lab.Base.{
  ℕ, ◌+◌, ◌≡◌, refl, Bool, Option, none, some, List, [], ◌∷◌, ◌==◌, update_where,
}
use micro_go_lab.Errors.{Error, Result, ok, err, ◌>>=◌ as bind}
use micro_go_lab.Sql.{
  Tx, Table, Schema, IsTable, Database, IsDatabase, Updated, ◌>>=◌, ◌>>◌, return,
}
use micro_go_lab.Sql.Keeps.{Keeps, Keeps->>=, transaction-keeps}
use micro_go_lab.Stream.{Message}
use micro_go_lab.Outbox.{OutboxEvent, mark_as_sent, increment_retry_count, sent}
use micro_go_lab.Outbox.Poller.{
  Format, is_due, to_message, handle_pending, process_pending, publish_all, counted, tick,
}

-- An UPDATE of the bookkeeping of a row: what its message is made of stays.
abbrev pub KeepsMessage : (OutboxEvent → OutboxEvent) → Type 0
KeepsMessage g = (f : Format) (e : OutboxEvent) → to_message f (g e) ≡ to_message f e

module _ {S : Type 0} (c : Schema S OutboxEvent) (d : Database S) (t : Table S OutboxEvent)
    (db : IsDatabase d) (law : IsTable c t)
    (pending : (OutboxEvent → Bool) → ℕ → S → Result (List OutboxEvent)) (f : Format)
    (publish : Message → Option Error) (now : ℕ) (P : S → Type 0)
    (by_update : (p : OutboxEvent → Bool) (g : OutboxEvent → OutboxEvent) (s : S)
      → KeepsMessage g
      → P s
      → P (c.put (update_where p g (c.rows s)) s)) where
  update-Keeps :
      (p : OutboxEvent → Bool) (g : OutboxEvent → OutboxEvent) (s : S)
      → KeepsMessage g
      → P s
      → Keeps {A = Unit {0}} P (bind (t.update p g s) (λ x. ok (tt, x.1)))
  update-Keeps p g s k h = go (t.update p g s) (law.update_law p g s)
    where
      go :
          (r : Result (ℕ × S))
          → Updated c p g s r
          → Keeps {A = Unit {0}} P (bind r (λ x. ok (tt, x.1)))
      go (err x) u = tt
      go (ok (n, s')) (_, e) = rw e (by_update p g s k h)

  mark_as_sent-Keeps : (id : ℕ) (s : S) → P s → Keeps P (mark_as_sent t now id s)
  unfolding mark_as_sent to_message
  mark_as_sent-Keeps id s h =
      update-Keeps (λ e. e.id == id) (λ e. record e { status = sent; sent_at = some now }) s
        (λ f e. refl) h

  counted-keeps :
      (id : ℕ) (x : Error) (s : S)
      → P s
      → P (counted d t pending f publish now s (increment_retry_count t id x s))
  unfolding increment_retry_count to_message
  counted-keeps id x s h = go _ (
      update-Keeps (λ e. e.id == id)
        (λ e. record e { retry_count = e.retry_count + 1; last_error = some x }) s (λ f e. refl) h)
    where
      go : (r : Result (Unit {0} × S)) → Keeps P r → P (counted d t pending f publish now s r)
      go (ok (_, s')) k = k
      go (err x) k = h

  publish_all-Keeps :
      (es : List OutboxEvent) (s : S) → P s → Keeps P (publish_all d t pending f publish now es s)
  unfolding publish_all
  publish_all-Keeps [] s h = h
  publish_all-Keeps (e ∷ es) s h = go (publish (to_message f e)) (publish_all-Keeps es)
    where
      rest : Tx S (List OutboxEvent)
      rest = publish_all d t pending f publish now es

      go :
          (r : Option Error)
          → ((s' : S) → P s' → Keeps P (rest s'))
          → Keeps P (
              (elim r as (λ _. Tx S (List OutboxEvent)) [
                | some x ↦ λ s.
                    rest (counted d t pending f publish now s (increment_retry_count t e.id x s))
                | none ↦ (do mark_as_sent t now e.id; log ← rest; return (e ∷ log))
              ])
                s)
      go (some x) ih = ih _ (counted-keeps e.id x s h)
      go none ih =
          Keeps->>= P (mark_as_sent t now e.id) _ s (mark_as_sent-Keeps e.id s h) (λ _ s' h'.
            Keeps->>= P rest (λ log s''. ok (e ∷ log, s'')) s' (ih s' h') (λ _ s'' h''. h''))

  -- Whatever the broker refuses and whatever statements fail.
  pub tick-keeps :
      (batch_size : ℕ) (s : S) → P s → P (tick d t pending f publish now batch_size s).1
  unfolding tick process_pending handle_pending
  tick-keeps batch_size s h = transaction-keeps P d block s db h (go (pending is_due batch_size s))
    where
      loop : List OutboxEvent → Tx S (List OutboxEvent)
      loop = publish_all d t pending f publish now

      block : Tx S (List OutboxEvent)
      block = λ s. handle_pending d t pending loop (pending is_due batch_size s) s

      go : (r : Result (List OutboxEvent)) → Keeps P (handle_pending d t pending loop r s)
      go (err x) = tt
      go (ok []) = h
      go (ok (e ∷ es)) = publish_all-Keeps (e ∷ es) s h
