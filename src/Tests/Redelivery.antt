-- ===== src/Tests/Redelivery.antt =====
-- An order.created message, handled and then delivered again.
use micro_go_lab.Base.{◌≡◌, refl, none, [], ◌∷◌, ◌++◌}
use micro_go_lab.Errors.{ok, is_record_not_found}
use micro_go_lab.Stream.{header}
use micro_go_lab.Inventory.{Db}
use micro_go_lab.Inventory.Repository.{
  reserve, reserve_ordered, reserve_locked, reserve_decremented, decrement_available,
  create_reservation,
}
use micro_go_lab.Inventory.Consumer.{
  handle_order_event, handle_order_created, dispatch, process_order_event, report, write_outbox,
}
use micro_go_lab.Inventory.Redelivery.{handle_order_event-redelivered}
use micro_go_lab.Event.Json.{
  any_object, as_uint, as_int, as_string, value, any_scalar, float_ℤ, to_float64, ulp, round_even,
}
use micro_go_lab.Event.Codec.{marshal, unmarshal_created, unmarshal_envelope}
use micro_go_lab.Idempotent.{ProcessedEvent, process, process_tx, process_found}
use micro_go_lab.Retry.{with_retry, retry_from, default_retry_options}
use micro_go_lab.Base.{find, update_where, ◌-ℤ◌}
use micro_go_lab.Sql.Memory.{database, table, select_first, changed, insert}
use micro_go_lab.Outbox
use micro_go_lab.Outbox.{new_event}
use micro_go_lab.Tests.Data.{ambient, inventory, inventory-IsService}
use micro_go_lab.Tests.Inventory.{db, message}

abbrev handled : Db
handled = (handle_order_event (λ n. inventory) (λ n. ambient) (λ n. none) message db).1

handles :
    handle_order_event (λ n. inventory) (λ n. ambient) (λ n. none) message db ≡ (ok tt, handled, [])
unfolding handle_order_event process_order_event process process_tx process_found dispatch
    with_retry retry_from default_retry_options header handle_order_created reserve reserve_ordered
    reserve_locked reserve_decremented decrement_available create_reservation report write_outbox
    Outbox.insert inventory table database select_first changed insert find update_where
    is_record_not_found ◌-ℤ◌ new_event unmarshal_envelope unmarshal_created any_object any_scalar
    marshal as_uint as_int as_string value float_ℤ to_float64 ulp round_even
handles = refl

-- Another event has been processed in between.
abbrev other_row : ProcessedEvent
other_row = record { event_id = "uuid-9"; processed_at = 8 }

abbrev later : Db
later = record handled { processed = handled.processed ++ other_row ∷ [] }

handle_order_event-redelivered_example :
    (handle_order_event (λ n. inventory) (λ n. ambient) (λ n. none) message later).1 ≡ later
unfolding header
handle_order_event-redelivered_example =
    handle_order_event-redelivered (λ n. inventory) (λ n. inventory) (λ n. inventory-IsService)
      (λ n. inventory-IsService) (λ n. ambient) (λ n. ambient) (λ n. none) (λ n. none) message
      message db handled later [] (other_row ∷ []) refl refl handles refl
