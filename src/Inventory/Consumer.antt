-- ===== src/Inventory/Consumer.antt =====
-- service/inventory/rpc/internal/svc/order_event_consumer.go
use micro_go_lab.Base.{ℕ, Bool, false, Option, String, ◌==◌, str_eq, if◌then◌else◌, List, []}
use micro_go_lab.Errors.{Error, Result, ok, err, is_record_not_found}
use micro_go_lab.Sql.{Tx, ◌>>=◌, return, lift}
use micro_go_lab.Event.{
  EventType, order_created, order_cancelled, inventory_reserved, reservation_failed, out_of_stock,
  inventory_events,
}
use micro_go_lab.Event.Json.{Object}
use micro_go_lab.Event.Codec.{
  Payload, Envelope, marshal, unmarshal_envelope, unmarshal_created, unmarshal_cancelled, reserved,
  failed,
}
use micro_go_lab.Outbox.{Ambient, new_event, insert}
use micro_go_lab.Idempotent.{process}
use micro_go_lab.Retry.{Label, default_retry_options, with_retry}
use micro_go_lab.Stream.{Message, header}
use micro_go_lab.Inventory.{Db, Service}
use micro_go_lab.Inventory.Repository.{reserve, release}

module _ (sc : Service) (a : Ambient) where
  -- writeOutbox
  unfoldable pub write_outbox : EventType → ℕ → Payload → Tx Db (Unit {0})
  write_outbox event order_id payload = insert sc.outbox (
      new_event a inventory_events order_id
        (record { event = event; version = 1; occurred_at = a.now; body = marshal payload }))

  -- The event that reports what Reserve affected.
  unfoldable pub report : ℕ → ℕ → Tx Db (Unit {0})
  unfolding write_outbox
  report order_id affected =
      if affected == 1
      then write_outbox inventory_reserved order_id (reserved (record { order_id = order_id }))
      else write_outbox reservation_failed order_id
          (failed (record { order_id = order_id; reason = out_of_stock }))

  -- handleOrderCreated
  unfoldable pub handle_order_created : Object → Tx Db (Unit {0})
  unfolding report
  handle_order_created body = do
    d ← lift (unmarshal_created body)
    affected ← reserve sc d.order_id d.sku d.quantity
    report d.order_id affected

  -- What follows Release: a reservation that is not there is no error.
  abbrev pub released_or_absent : Db → Result (ℕ × Db) → Result (Unit {0} × Db)
  released_or_absent s (ok (n, s')) = ok (tt, s')
  released_or_absent s (err e) = if is_record_not_found e then ok (tt, s) else err e

  -- handleOrderCancelled
  unfoldable pub handle_order_cancelled : Object → Tx Db (Unit {0})
  handle_order_cancelled body = do
    d ← lift (unmarshal_cancelled body)
    λ s. released_or_absent s (release sc d.order_id s)

  -- The switch of handleOrderEvent.
  unfoldable pub dispatch : EventType → Object → Tx Db (Unit {0})
  unfolding handle_order_created handle_order_cancelled
  dispatch order_created body = handle_order_created body
  dispatch order_cancelled body = handle_order_cancelled body
  dispatch _ body = return tt

-- One attempt: the block that WithRetry runs.
unfoldable pub process_order_event : Service → Ambient → String → Envelope → Db → Result Bool × Db
unfolding dispatch
process_order_event sc a id e = process sc.db sc.processed id (dispatch sc a e.event e.body)

abbrev pub settle : Result Bool × Db × List Label → Result (Unit {0}) × Db × List Label
settle (ok processed, s, ls) = (ok tt, s, ls)
settle (err e, s, ls) = (err e, s, ls)

-- handleOrderEvent. `sc n` are the connections, and `a n` the time and uuid, at attempt `n`: they
-- may fail at one attempt and not at the next.
unfoldable pub handle_order_event :
    (ℕ → Service)
    → (ℕ → Ambient)
    → (ℕ → Option Error)
    → Message
    → Db
    → Result (Unit {0}) × Db × List Label
unfolding process_order_event
handle_order_event sc a done msg s =
    let id = header "event_id" msg.headers in
    if str_eq id "" then (ok tt, s, []) else elim (unmarshal_envelope msg.value) [
      | err e ↦ (err e, s, [])
      | ok e ↦ settle (
          with_retry default_retry_options (λ n. process_order_event (sc n) (a n) id e) done false
            s)
    ]
