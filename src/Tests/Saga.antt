-- ===== src/Tests/Saga.antt =====
-- An order for three pens, from its creation to its cancellation.
use micro_go_lab.Base.{◌≡◌, refl, none, []}
use micro_go_lab.Errors.{Result, ok, is_record_not_found}
use micro_go_lab.Stream.{header}
use micro_go_lab.Inventory.{Db}
use micro_go_lab.Inventory.Repository.{
  reserve, reserve_ordered, reserve_locked, reserve_decremented, decrement_available,
  create_reservation,
}
use micro_go_lab.Inventory.Consumer.{
  handle_order_event, handle_order_created, dispatch, process_order_event, report, write_outbox,
}
use micro_go_lab.Event.Json.{
  any_object, as_uint, as_int, as_string, value, any_scalar, float_ℤ, to_float64, ulp, round_even,
}
use micro_go_lab.Event.Codec.{marshal, unmarshal_created, unmarshal_envelope}
use micro_go_lab.Idempotent.{process, process_tx, process_found}
use micro_go_lab.Retry.{Label, with_retry, retry_from, default_retry_options}
use micro_go_lab.Base.{find, update_where, ◌-ℤ◌, ◌+ℤ◌, pos, String, List, arith}
use micro_go_lab.Sql.Memory.{database, table, select_first, changed, insert}
use micro_go_lab.Outbox
use micro_go_lab.Outbox.{new_event}
use micro_go_lab.Tests.Data.{ambient, inventory, inventory-IsService}
use micro_go_lab.Tests.Inventory.{db, db-IsConsistent}
use micro_go_lab.Event.{pending, no_reason, user_cancelled}
use micro_go_lab.Event.Codec.{unmarshal_cancelled}
use micro_go_lab.Idempotent.Once.{with_id}
use micro_go_lab.Inventory.{is_active}
use micro_go_lab.Inventory.Keys.{of_order}
use micro_go_lab.Inventory.Consumer.{handle_order_cancelled}
use micro_go_lab.Inventory.Repository.{release, release_found}
use micro_go_lab.Order.{Order}
use micro_go_lab.Order.Create.{created_event}
use micro_go_lab.Order.Update.{cancelled_event}
use micro_go_lab.Outbox.{Ambient}
use micro_go_lab.Outbox.Poller.{to_message, event_type_text}
use micro_go_lab.Stream.{Message, from_kafka_headers, to_kafka_headers, put_header}
use micro_go_lab.Saga.{placed, IsSendable}
use micro_go_lab.Saga.Reserving.{Marks, created_row, cancelled_row}
use micro_go_lab.Saga.Restoring.{Restores, cancelled_message-Restores}
use micro_go_lab.Saga.Compensation.{IsCompensated, cancelled_message-IsCompensated}
use micro_go_lab.Tests.Poller.{format}

abbrev pub pens : Order
pens = record {
  id = 6;
  user_id = 2;
  product_name = "Pen";
  amount = pos 300;
  status = pending;
  version = 0;
  sku = "pen";
  quantity = pos 3;
  cancel_reason = no_reason;
}

pens-IsSendable : IsSendable pens
pens-IsSendable = record {
  id = omega arith;
  user_id = omega arith;
  quantity = (omega arith, omega arith);
  amount = (omega arith, omega arith);
  status = λ t h. cc;
}

abbrev at_creation : Ambient
at_creation = record { now = 3; uuid = "uuid-3" }

abbrev at_cancellation : Ambient
at_cancellation = record { now = 4; uuid = "uuid-4" }

abbrev creation : Message
creation = placed format (created_row at_creation pens 1) 0 5

abbrev cancellation : Message
cancellation = placed format (cancelled_row at_cancellation pens user_cancelled 2) 1 0

abbrev run : Message → Db → Result (Unit {0}) × Db × List Label
run = handle_order_event (λ n. inventory) (λ n. ambient) (λ n. none)

abbrev s1 : Db
s1 = (run creation db).1

abbrev s2 : Db
s2 = (run cancellation s1).1

creates : run creation db ≡ (ok tt, s1, [])
unfolding handle_order_event process_order_event process process_tx process_found dispatch
    with_retry retry_from default_retry_options header handle_order_created reserve reserve_ordered
    reserve_locked reserve_decremented decrement_available create_reservation report write_outbox
    Outbox.insert inventory table database select_first changed insert find update_where
    is_record_not_found ◌-ℤ◌ new_event unmarshal_envelope unmarshal_created any_object any_scalar
    marshal as_uint as_int as_string value float_ℤ to_float64 ulp round_even placed to_message
    event_type_text created_event from_kafka_headers to_kafka_headers put_header
creates = refl

cancels : run cancellation s1 ≡ (ok tt, s2, [])
unfolding handle_order_event process_order_event process process_tx process_found dispatch
    with_retry retry_from default_retry_options header handle_order_created reserve reserve_ordered
    reserve_locked reserve_decremented decrement_available create_reservation report write_outbox
    Outbox.insert inventory table database select_first changed insert find update_where
    is_record_not_found ◌-ℤ◌ new_event unmarshal_envelope unmarshal_created any_object any_scalar
    marshal as_uint as_int as_string value float_ℤ to_float64 ulp round_even placed to_message
    event_type_text created_event from_kafka_headers to_kafka_headers put_header cancelled_event
    handle_order_cancelled release release_found is_active unmarshal_cancelled ◌+ℤ◌
cancels = refl

fresh : find (with_id "uuid-4") s1.processed ≡ none
unfolding handle_order_event process_order_event process process_tx process_found dispatch
    with_retry retry_from default_retry_options header handle_order_created reserve reserve_ordered
    reserve_locked reserve_decremented decrement_available create_reservation report write_outbox
    Outbox.insert inventory table database select_first changed insert find update_where
    is_record_not_found ◌-ℤ◌ new_event unmarshal_envelope unmarshal_created any_object any_scalar
    marshal as_uint as_int as_string value float_ℤ to_float64 ulp round_even placed to_message
    event_type_text created_event from_kafka_headers to_kafka_headers put_header
fresh = refl

absent : find (of_order 6) db.reservations ≡ none
unfolding find
absent = refl

unseen : (id : String) → find (with_id id) db.processed ≡ none
unfolding find
unseen id = refl

cancelled_message-Restores_example : (mid : Db) × Restores 6 s1 mid × Marks "uuid-4" mid s2
cancelled_message-Restores_example =
    cancelled_message-Restores (λ n. inventory) (λ n. inventory-IsService) (λ n. ambient)
      (λ n. none) format at_cancellation pens user_cancelled 2 1 0 s1 s2 [] (omega arith)
      (omega arith, omega arith) (λ t h. cc) refl fresh cancels

cancelled_message-IsCompensated_example : IsCompensated 6 db s2
cancelled_message-IsCompensated_example =
    cancelled_message-IsCompensated (λ n. inventory) (λ n. inventory-IsService) (λ n. ambient)
      (λ n. none) format at_creation at_cancellation pens user_cancelled 1 2 0 1 5 0 db s1 s2 [] []
      pens-IsSendable (λ t h. cc) db-IsConsistent.skus absent refl refl (unseen "uuid-3") fresh
      creates cancels
