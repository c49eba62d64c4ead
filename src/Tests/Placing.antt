-- ===== src/Tests/Placing.antt =====
-- A request for three pens, up to the stock.
use micro_go_lab.Base.{◌∷◌, ◌≡◌, refl, none, []}
use micro_go_lab.Errors.{ok, is_record_not_found}
use micro_go_lab.Stream.{header}
use micro_go_lab.Inventory.{Db}
use micro_go_lab.Inventory.Repository.{
  reserve, reserve_ordered, reserve_locked, reserve_decremented, decrement_available,
  create_reservation,
}
use micro_go_lab.Inventory.Consumer.{
  handle_order_event, handle_order_created, dispatch, process_order_event, report, write_outbox,
}
use micro_go_lab.Event.Json.{
  any_object, as_uint, as_int, as_string, value, any_scalar, float_ℤ, to_float64, ulp, round_even,
}
use micro_go_lab.Event.Codec.{marshal, unmarshal_created, unmarshal_envelope}
use micro_go_lab.Idempotent.{process, process_tx, process_found}
use micro_go_lab.Retry.{with_retry, retry_from, default_retry_options}
use micro_go_lab.Base.{ℕ, find, update_where, ◌-ℤ◌, pos, arith, true}
use micro_go_lab.Sql.Memory.{database, table, select_first, changed, insert}
use micro_go_lab.Outbox
use micro_go_lab.Outbox.{new_event}
use micro_go_lab.Tests.Data.{ambient, inventory, inventory-IsService}
use micro_go_lab.Tests.Inventory.{db}
use micro_go_lab.Idempotent.Once.{with_id}
use micro_go_lab.Inventory.Outcomes.{Outcome}
use micro_go_lab.Order.{Order}
use micro_go_lab.Order.Create.{created_event}
use micro_go_lab.Outbox.{Ambient}
use micro_go_lab.Outbox.Poller.{to_message, event_type_text}
use micro_go_lab.Stream.{from_kafka_headers, to_kafka_headers, put_header}
use micro_go_lab.Saga.{placed}
use micro_go_lab.Saga.Reserving.{Marks, created_row}
use micro_go_lab.Tests.Poller.{format}
use micro_go_lab.Order
use micro_go_lab.Order.{default_quantity}
use micro_go_lab.Order.Create.{CreateOrderRequest, create_order, create_tx, new_order}
use micro_go_lab.Order.Repository
use micro_go_lab.Order.Create.Outcomes.{stored}
use micro_go_lab.Saga.Placing.{IsWanted, ordered, create_order-Outcome}
use micro_go_lab.Tests.Data.{orders, orders-IsService}

abbrev at_creation : Ambient
at_creation = record { now = 3; uuid = "uuid-3" }

abbrev request : CreateOrderRequest
request = record { product_name = "Pen"; sku = "pen"; quantity = pos 3; amount = pos 300 }

request-IsWanted : IsWanted request
request-IsWanted = record {
  some_pieces = omega arith;
  quantity = (omega arith, omega arith);
  amount = (omega arith, omega arith);
}

abbrev no_orders : Order.Db
no_orders = record { orders = []; outbox = []; processed = []; known_users = [] }

abbrev placed_order : Order.Order
placed_order = stored at_creation 2 request 1

abbrev placed_db : Order.Db
placed_db = (create_order orders at_creation (λ i. ok true) 2 request no_orders).1

places :
    create_order orders at_creation (λ i. ok true) 2 request no_orders
    ≡ (ok placed_order, placed_db)
unfolding create_order create_tx new_order Order.Repository.create created_event orders table
    database insert changed find default_quantity Outbox.insert new_event
places = refl

abbrev run_db : Db
run_db =
    (handle_order_event (λ n. inventory) (λ n. ambient) (λ n. none)
      (placed format (created_event at_creation placed_order) 0 5) db).1

runs :
    handle_order_event
      (λ n. inventory)
      (λ n. ambient)
      (λ n. none)
      (placed format (created_event at_creation placed_order) 0 5)
      db
    ≡ (ok tt, run_db, [])
unfolding handle_order_event process_order_event process process_tx process_found dispatch
    with_retry retry_from default_retry_options header handle_order_created reserve reserve_ordered
    reserve_locked reserve_decremented decrement_available create_reservation report write_outbox
    Outbox.insert inventory table database select_first changed insert find update_where
    is_record_not_found ◌-ℤ◌ new_event unmarshal_envelope unmarshal_created any_object any_scalar
    marshal as_uint as_int as_string value float_ℤ to_float64 ulp round_even placed to_message
    event_type_text created_event from_kafka_headers to_kafka_headers put_header new_order
    default_quantity
runs = refl

unseen : find (with_id "uuid-3") db.processed ≡ none
unfolding find
unseen = refl

create_order-Outcome_example :
    (k n : ℕ) × (mid : Db) × (placed_db.outbox ≡ created_row at_creation placed_order k ∷ [])
    × Outcome ambient (ordered 1 2 request) db (ok (tt, mid))
    × Marks "uuid-3" mid run_db
create_order-Outcome_example =
    create_order-Outcome orders orders-IsService at_creation (λ i. ok true) 2 request
      (λ n. inventory) (λ n. inventory-IsService) (λ n. ambient) (λ n. none) format 0 5 placed_order
      no_orders placed_db db run_db [] request-IsWanted (omega arith) (omega arith) refl unseen
      places runs
