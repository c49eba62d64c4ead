-- ===== src/Tests/Refusing.antt =====
-- A pending order for three pens that the inventory refuses.
use micro_go_lab.Base.{ℕ, ◌≡◌, refl, some, [], ◌∷◌, find, update_where, ◌==◌, arith}
use micro_go_lab.Errors.{ok, is_record_not_found}
use micro_go_lab.Event.{out_of_stock}
use micro_go_lab.Event.Json.{
  any_object, as_uint, as_string, value, any_scalar, float_ℤ, to_float64, ulp, round_even,
}
use micro_go_lab.Event.Codec.{marshal, unmarshal_failed, unmarshal_envelope, status_text}
use micro_go_lab.Idempotent.{process, process_tx, process_found}
use micro_go_lab.Inventory.Outcomes.{failed_event}
use micro_go_lab.Sql.Memory.{database, table, select_first, changed, insert}
use micro_go_lab.Order.{Db}
use micro_go_lab.Order.Repository.{same_status, versioned, set_cancelled, cancel, cancel_affected}
use micro_go_lab.Order.Update.{cancelled_event}
use micro_go_lab.Order.Consumer.{
  dispatch, handle_inventory_event, handle_reservation_failed, failed_found, failed_written,
}
use micro_go_lab.Outbox
use micro_go_lab.Outbox.{Ambient, new_event}
use micro_go_lab.Outbox.Poller.{to_message, event_type_text}
use micro_go_lab.Stream.{Message, header, from_kafka_headers, to_kafka_headers, put_header}
use micro_go_lab.Saga.{placed, created_data}
use micro_go_lab.Saga.Refusing.{failed_message-cancels}
use micro_go_lab.Tests.Data.{ambient, orders, orders-IsService}
use micro_go_lab.Tests.Poller.{format}
use micro_go_lab.Tests.Saga.{pens}

abbrev db : Db
db = record { orders = pens ∷ []; outbox = []; processed = []; known_users = [] }

abbrev at_refusal : Ambient
at_refusal = record { now = 5; uuid = "uuid-5" }

abbrev refusal : Message
refusal = placed format (failed_event at_refusal (created_data pens) 3) 0 2

abbrev after : Db
after = (handle_inventory_event orders ambient refusal db).1

refuses : handle_inventory_event orders ambient refusal db ≡ (ok tt, after)
unfolding handle_inventory_event dispatch handle_reservation_failed failed_found failed_written
    cancel cancel_affected versioned same_status status_text set_cancelled cancelled_event process
    process_tx process_found orders table database select_first changed insert find update_where
    is_record_not_found new_event Outbox.insert unmarshal_envelope unmarshal_failed any_object
    any_scalar marshal as_uint as_string value float_ℤ to_float64 ulp round_even placed to_message
    event_type_text from_kafka_headers to_kafka_headers put_header header
refuses = refl

failed_message-cancels_example :
    (n : ℕ) × (find (λ q. q.id == 6) after.orders ≡ some (set_cancelled out_of_stock pens))
    × (after.outbox
        ≡ record (cancelled_event ambient (set_cancelled out_of_stock pens) out_of_stock) { id = n }
          ∷ [])
unfolding find same_status status_text
failed_message-cancels_example =
    failed_message-cancels orders orders-IsService ambient format at_refusal (created_data pens) 3 0
      2 pens db after (omega arith) refl refl refl refl refuses
