-- ===== src/Outbox/Poller.antt =====
-- common/xstream/poller.go (tick) and ProcessPending and FindPending of common/xevent/outbox_repo.go.
-- The broker, the query that locks pending rows and the texts of numbers and times are parameters.
use micro_go_lab.Base.{ℕ, Bool, Option, none, some, String, List, [], ◌∷◌, ltb, ◌&&◌}
use micro_go_lab.Errors.{Error, Result, ok, err}
use micro_go_lab.Sql.{Tx, Table, Database, ◌>>=◌, ◌>>◌, return}
use micro_go_lab.Event.{
  EventType, user_registered, order_created, order_cancelled, inventory_reserved,
  reservation_failed, unknown,
}
use micro_go_lab.Event.Codec.{envelope}
use micro_go_lab.Stream.{Message}
use micro_go_lab.Outbox.{OutboxEvent, is_pending, max_retries, mark_as_sent, increment_retry_count}

-- strconv.Itoa, and Format(time.RFC3339)
pub record Format : Type 0 where
  pub itoa : ℕ → String
  pub rfc3339 : ℕ → String

-- string(eventType)
unfoldable pub event_type_text : EventType → String
event_type_text user_registered = "user.registered"
event_type_text order_created = "order.created"
event_type_text order_cancelled = "order.cancelled"
event_type_text inventory_reserved = "inventory.reserved"
event_type_text reservation_failed = "inventory.reservation_failed"
event_type_text (unknown s) = s

-- The condition of FindPending and of ProcessPending.
unfoldable pub is_due : OutboxEvent → Bool
is_due e = is_pending e.status && ltb e.retry_count max_retries

-- The message that tick publishes; the broker places it.
unfoldable pub to_message : Format → OutboxEvent → Message
unfolding event_type_text
to_message f e = record {
  topic = e.topic;
  partition = 0;
  offset = 0;
  key = e.event_key;
  value = envelope e.payload;
  headers =
      ("event_id", e.event_id)
      ∷ ("event_type", event_type_text e.event_type)
      ∷ ("version", f.itoa e.version)
      ∷ ("occurred_at", f.rfc3339 e.created_at)
      ∷ [];
}

module _ {S : Type 0} (d : Database S) (t : Table S OutboxEvent)
    -- Where(p).Order("created_at ASC").Limit(n).Find(&events), FOR UPDATE SKIP LOCKED
    (pending : (OutboxEvent → Bool) → ℕ → S → Result (List OutboxEvent)) where
  -- FindPending
  unfoldable pub find_pending : ℕ → S → Result (List OutboxEvent)
  unfolding is_due
  find_pending limit = pending is_due limit

  -- What follows the query in ProcessPending: no call of the handler without an event.
  unfoldable pub handle_pending :
      (List OutboxEvent → Tx S (List OutboxEvent))
      → Result (List OutboxEvent)
      → Tx S (List OutboxEvent)
  handle_pending handler (err e) s = err e
  handle_pending handler (ok []) s = ok ([], s)
  handle_pending handler (ok (e ∷ es)) s = handler (e ∷ es) s

  -- ProcessPending
  unfoldable pub process_pending :
      ℕ → (List OutboxEvent → Tx S (List OutboxEvent)) → S → Result (List OutboxEvent) × S
  unfolding is_due handle_pending
  process_pending limit handler =
      d.transaction (λ s. handle_pending handler (pending is_due limit s) s)

  module _ (f : Format) (publish : Message → Option Error) (now : ℕ) where
    -- A failure to count a failed attempt is logged and passed over.
    abbrev pub counted : S → Result (Unit {0} × S) → S
    counted s (ok (_, s')) = s'
    counted s (err e) = s

    -- The loop of tick. The events that publish has taken, in their order, are returned beside what
    -- the source returns, which is only an error or nil.
    unfoldable pub publish_all : List OutboxEvent → Tx S (List OutboxEvent)
    unfolding to_message mark_as_sent increment_retry_count
    publish_all [] = return []
    publish_all (e ∷ es) =
        let rest = publish_all es in
        elim (publish (to_message f e)) [
          | some x ↦ λ s. rest (counted s (increment_retry_count t e.id x s))
          | none ↦ (do mark_as_sent t now e.id; log ← rest; return (e ∷ log))
        ]

    -- tick: the events of a batch that is committed. What the broker took of a batch that is rolled
    -- back stays in the broker, and is published again by a later tick.
    unfoldable pub tick : ℕ → S → Result (List OutboxEvent) × S
    unfolding process_pending publish_all
    tick batch_size = process_pending batch_size publish_all
