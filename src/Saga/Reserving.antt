-- ===== src/Saga/Reserving.antt =====
-- From the order service to the stock: the events of an order, as the inventory service handles them.
use micro_go_lab.Base.{ℕ, ◌≡◌, refl, false, Option, none, String, List, [], ◌∷◌, ◌++◌, find, str_eq}
use micro_go_lab.Errors.{Error, ok}
use micro_go_lab.Event.{order_created, order_cancelled, Reason}
use micro_go_lab.Event.Json.{any_object}
use micro_go_lab.Event.Codec.{
  Envelope, marshal, created, cancels, unmarshal_envelope, unmarshal_created,
}
use micro_go_lab.Event.Delivery.{unmarshal-marshal_created}
use micro_go_lab.Idempotent.{ProcessedEvent}
use micro_go_lab.Idempotent.Once.{with_id}
use micro_go_lab.Outbox.{Ambient, OutboxEvent, new_event}
use micro_go_lab.Outbox.Poller.{Format, to_message}
use micro_go_lab.Retry.{Label}
use micro_go_lab.Stream.{to_kafka_headers, from_kafka_headers, header}
use micro_go_lab.Inventory.{Db, Service, IsService}
use micro_go_lab.Inventory.Consumer.{dispatch, handle_order_event}
use micro_go_lab.Inventory.Outcomes.{Outcome, handle_order_created-Outcome}
use micro_go_lab.Order.{Order}
use micro_go_lab.Order.Create.{created_event}
use micro_go_lab.Order.Update.{cancelled_event}
use micro_go_lab.Saga.{placed, created_data, cancelled_data, IsSendable}
use micro_go_lab.Saga.Delivered.{handle_order_event-ProcessedAt}

-- The rows of the outbox, under the id that the database gave them.
abbrev pub created_row : Ambient → Order → ℕ → OutboxEvent
created_row b o k = record (created_event b o) { id = k }

abbrev pub cancelled_row : Ambient → Order → Reason → ℕ → OutboxEvent
cancelled_row b o why k = record (cancelled_event b o why) { id = k }

-- What json.Unmarshal makes of their envelopes.
abbrev pub created_envelope : Ambient → Order → Envelope
created_envelope b o = record {
  event = order_created;
  version = 1;
  occurred_at = b.now;
  body = any_object (marshal (created (created_data o)));
}

abbrev pub cancelled_envelope : Ambient → Order → Reason → Envelope
cancelled_envelope b o why = record {
  event = order_cancelled;
  version = 1;
  occurred_at = b.now;
  body = any_object (marshal (cancels (cancelled_data o why)));
}

-- The tables after a block that ended in `mid`, when the event has been marked.
abbrev pub Marks : String → Db → Db → Type 0
Marks id mid s' =
    (row : ProcessedEvent) × (row.event_id ≡ id)
    × (s' ≡ record mid { processed = mid.processed ++ row ∷ [] })

pub header-placed :
    (f : Format) (e : OutboxEvent) (p i : ℕ)
    → header "event_id" (placed f e p i).headers ≡ e.event_id
unfolding placed to_message to_kafka_headers from_kafka_headers header
header-placed f e p i = refl

placed-created :
    (f : Format) (b : Ambient) (o : Order) (k p i : ℕ)
    → unmarshal_envelope (placed f (created_row b o k) p i).value ≡ ok (created_envelope b o)
unfolding placed to_message created_event new_event unmarshal_envelope
placed-created f b o k p i = refl

pub placed-cancelled :
    (f : Format) (b : Ambient) (o : Order) (why : Reason) (k p i : ℕ)
    → unmarshal_envelope (placed f (cancelled_row b o why k) p i).value
      ≡ ok (cancelled_envelope b o why)
unfolding placed to_message cancelled_event new_event unmarshal_envelope
placed-cancelled f b o why k p i = refl

uuid-created : (b : Ambient) (o : Order) (k : ℕ) → (created_row b o k).event_id ≡ b.uuid
unfolding created_event new_event
uuid-created b o k = refl

pub uuid-cancelled :
    (b : Ambient) (o : Order) (why : Reason) (k : ℕ) → (cancelled_row b o why k).event_id ≡ b.uuid
unfolding cancelled_event new_event
uuid-cancelled b o why k = refl

module _ (sc : ℕ → Service) (law : (n : ℕ) → IsService (sc n)) (a : ℕ → Ambient)
    (done : ℕ → Option Error) (f : Format) (b : Ambient) (o : Order) (k p i : ℕ) where
  -- The outbox row of an order.created event, as createOrder builds it, of an order whose numbers
  -- are within 53 bits and whose status is one of the constants, is published and placed anywhere.
  -- If its event id is not empty and not among the processed ones and the inventory service
  -- handles the message without an error, then one of its attempts has taken the order's
  -- quantity off its sku, stored an active reservation for the order's id and appended the event
  -- that says so, or has touched no stock and appended the event that the reservation failed; and
  -- the event id is marked.
  pub created_message-Outcome :
      (s s' : Db) (ls : List Label)
      → IsSendable o
      → str_eq b.uuid "" ≡ false
      → find (with_id b.uuid) s.processed ≡ none
      → handle_order_event sc a done (placed f (created_row b o k) p i) s ≡ (ok tt, s', ls)
      → (n : ℕ) × (mid : Db) × Outcome (a n) (created_data o) s (ok (tt, mid)) × Marks b.uuid mid s'
  unfolding dispatch
  created_message-Outcome s s' ls fits named fresh h =
      let here : header "event_id" (placed f (created_row b o k) p i).headers ≡ b.uuid =
        rw (header-placed f (created_row b o k) p i) (uuid-created b o k) in
      let (n, (mid, row, ran, marked, put)) =
        handle_order_event-ProcessedAt sc law a done (placed f (created_row b o k) p i)
          (created_envelope b o) s s' ls (rw here named) (placed-created f b o k p i)
          (rw here fresh) h in
      let arrives : unmarshal_created (created_envelope b o).body ≡ ok (created_data o) =
        unmarshal-marshal_created (created_data o) fits.id fits.user_id fits.quantity fits.amount
          fits.status in
      (
        n,
        mid,
        rw ran at (
            handle_order_created-Outcome (sc n) (law n) (a n) (created_envelope b o).body
              (created_data o) s arrives),
        (row, rw here at marked, put),
      )
