-- ===== src/Tests/Poller.antt =====
-- The poller, over a pending row that the broker takes and one that it refuses.
use micro_go_lab.Base.{
  update_where, select, All, Exists, ℕ, ◌+◌, ◌≡◌, ◌⊎◌, refl, inl, inr, Bool, true, false, ◌&&◌,
  if◌then◌else◌, Option, none, some, List, [], ◌∷◌, ◌++◌, map, str_eq, ◌==◌, find, find-holds,
  Bool-cases, arith,
}
use micro_go_lab.Errors.{Error, Result, ok, other, canceled}
use micro_go_lab.Stream.{Message}
use micro_go_lab.Sql.{Table, Schema}
use micro_go_lab.Sql.Memory.{
  table, table-IsTable, database, database-IsDatabase, changed, select_first,
}
use micro_go_lab.Event.{order_events, order_created}
use micro_go_lab.Outbox.{OutboxEvent, pending, sent, mark_as_sent, increment_retry_count}
use micro_go_lab.Outbox.Poller.{
  Format, tick, process_pending, handle_pending, publish_all, is_due, to_message,
}
use micro_go_lab.Outbox.Polling.{Locks, IsBounded, poll, poll_from, fired, done}
use micro_go_lab.Outbox.GivingUp.{ticking, poll-gives_up}
use micro_go_lab.Outbox.Liveness.{DueIn, tick-sends_batch}
use micro_go_lab.Outbox.Sent.{Has, Ticked, tick-Ticked}
use micro_go_lab.Tests.Data.{OutboxEvent-discrete}

abbrev Rows : Type 0
Rows = List OutboxEvent

abbrev rows_schema : Schema Rows OutboxEvent
rows_schema = record {
  rows = λ s. s;
  put = λ rs s. rs;
  assign = λ i e. record e { id = i };
  clash = λ e f. str_eq e.event_id f.event_id;
}

abbrev rows_table : Table Rows OutboxEvent
rows_table = table rows_schema OutboxEvent-discrete

abbrev pub format : Format
format = record { itoa = λ n. "1"; rfc3339 = λ n. "2026-01-01T00:00:00Z" }

abbrev row : OutboxEvent
row = record {
  id = 1;
  event_id = "uuid-1";
  topic = order_events;
  event_key = 2;
  event_type = order_created;
  version = 1;
  payload = record { event = order_created; version = 1; occurred_at = 1; body = [] };
  status = pending;
  retry_count = 0;
  last_error = none;
  created_at = 1;
  sent_at = none;
}

abbrev locking : (OutboxEvent → Bool) → ℕ → Rows → Result Rows
locking p n s = ok s

-- A row after it, whose event the broker refuses.
abbrev refused_row : OutboxEvent
refused_row = record row { id = 2; event_id = "e2"; event_key = 3 }

abbrev refusing : Message → Option Error
refusing m = if m.key == 3 then some (other "broker") else none

abbrev after_tick : Rows
after_tick =
    record row { status = sent; sent_at = some 9 }
    ∷ record refused_row { retry_count = 1; last_error = some (other "broker") }
    ∷ []

tick-Ticked_example :
    Ticked rows_schema
      (λ rs s. refl)
      database
      rows_table
      database-IsDatabase
      (table-IsTable rows_schema OutboxEvent-discrete)
      locking
      format
      refusing
      9
      (row ∷ refused_row ∷ [])
      (tick database rows_table locking format refusing 9 10 (row ∷ refused_row ∷ []))
tick-Ticked_example =
    tick-Ticked rows_schema (λ rs s. refl) database rows_table database-IsDatabase
      (table-IsTable rows_schema OutboxEvent-discrete) locking format refusing 9 10
      (row ∷ refused_row ∷ [])

ticks :
    tick database rows_table locking format refusing 9 10 (row ∷ refused_row ∷ [])
    ≡ (ok (row ∷ []), after_tick)
unfolding tick process_pending handle_pending publish_all mark_as_sent increment_retry_count table
    database changed update_where
ticks = refl

tick-sends_batch_example :
    (◌≡◌ {A = Rows} (row ∷ []) (row ∷ [])) × All (DueIn (refused_row ∷ [])) after_tick
unfolding select to_message
tick-sends_batch_example =
    tick-sends_batch rows_schema (λ rs s. refl) database rows_table database-IsDatabase
      (table-IsTable rows_schema OutboxEvent-discrete) locking format refusing 9 10
      (row ∷ refused_row ∷ []) after_tick (row ∷ refused_row ∷ []) (row ∷ []) refl
      (inr (inl refl), (inr (inr (inl refl)), tt)) ticks

every : (OutboxEvent → Bool) → Rows → Bool
every p [] = true
every p (r ∷ rows) = p r && every p rows

-- Every row with the id of `e` satisfies the condition.
abbrev checked : (OutboxEvent → Bool) → Rows → OutboxEvent → Bool
checked p rows e = every (λ r. if r.id == e.id then p r else true) rows

-- A query that locks one row.
locking_one : (OutboxEvent → Bool) → ℕ → Rows → Result Rows
locking_one p n s = elim (find (checked p s) s) [ none ↦ ok [] | some e ↦ ok (e ∷ []) ]

every-All :
    (p : OutboxEvent → Bool) (e : OutboxEvent) (rows : Rows)
    → every (λ r. if r.id == e.id then p r else true) rows ≡ true
    → All (λ r. Has r.id (e ∷ []) → p r ≡ true) rows
unfolding every
every-All p e [] h = tt
every-All p e (r ∷ rows) h = (here (Bool-cases (r.id == e.id)), every-All p e rows (ground arith))
  where
    here : ((r.id == e.id) ≡ true) ⊎ ((r.id == e.id) ≡ false) → Has r.id (e ∷ []) → p r ≡ true
    here (inl hit) mine = ground arith
    here (inr miss) (inl same) = absurd (ground arith)
    here (inr miss) (inr none_left) = absurd (cc)

locking_one-Locks :
    (p : OutboxEvent → Bool) (n : ℕ) (rows : Rows) → Locks p rows (locking_one p n rows)
unfolding locking_one
locking_one-Locks p n rows = go (find (checked p rows) rows) refl
  where
    none_has : (rs : Rows) → All (λ r. Has r.id [] → p r ≡ true) rs
    none_has [] = tt
    none_has (r ∷ rs) = (λ mine. absurd (cc), none_has rs)

    go :
        (o : Option OutboxEvent)
        → find (checked p rows) rows ≡ o
        → Locks p rows (elim o as (λ _. Result Rows) [ none ↦ ok [] | some e ↦ ok (e ∷ []) ])
    go none f = (tt, none_has rows)
    go (some e) f =
        ((λ i later. absurd (cc), tt), every-All p e rows (find-holds (checked p rows) rows e f))

abbrev spent : OutboxEvent
spent = record row { id = 2; retry_count = 5 }

-- The service inserts a row before each tick, and the broker refuses them all.
abbrev polled : Bool × Rows
polled =
    poll
      (ticking rows_schema (λ rs s. refl) database rows_table database-IsDatabase
        (table-IsTable rows_schema OutboxEvent-discrete) locking_one locking_one-Locks format
        (λ n m. some canceled) (λ n. n) 10 (λ n s. s ++ record row { id = n + 3 } ∷ [])
        (λ n s. (record row { id = n + 3 } ∷ [], (refl, tt), refl)))
      (ok 1) (fired ∷ fired ∷ fired ∷ done ∷ []) (row ∷ spent ∷ [])

polled_rows : map (λ r. r.retry_count) polled.1 ≡ 2 ∷ 5 ∷ 0 ∷ 0 ∷ []
unfolding poll poll_from tick process_pending handle_pending publish_all increment_retry_count table
    database changed update_where locking_one find every is_due select_first
polled_rows = refl

poll-gives_up_example : All IsBounded polled.1 × Exists (λ x. x ≡ spent) polled.1
poll-gives_up_example =
    poll-gives_up rows_schema (λ rs s. refl) database rows_table database-IsDatabase
      (table-IsTable rows_schema OutboxEvent-discrete) locking_one locking_one-Locks format
      (λ n m. some canceled) (λ n. n) 10 (λ n s. s ++ record row { id = n + 3 } ∷ [])
      (λ n s. (record row { id = n + 3 } ∷ [], (refl, tt), refl)) (ok 1)
      (fired ∷ fired ∷ fired ∷ done ∷ []) (row ∷ spent ∷ []) spent (omega arith, (omega arith, tt))
      (inr (inl refl)) refl
