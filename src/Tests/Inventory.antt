-- ===== src/Tests/Inventory.antt =====
-- The inventory service: two products, an order for three of the first, and its cancellation.
use micro_go_lab.Base.{
  ℕ, ◌≡◌, ◌⊎◌, refl, none, some, List, [], ◌∷◌, pos, find, int_laws, arith, sym, ◌∙◌, ◌+ℤ◌,
}
use micro_go_lab.Errors.{ok, err, mysql, is_record_not_found}
use micro_go_lab.Event.{
  order_created, order_events, pending, user_cancelled, OrderCreatedData, OrderCancelledData,
}
use micro_go_lab.Event.Json.{
  Object, any_object, as_uint, as_int, as_string, value, any_scalar, float_ℤ, to_float64, ulp,
  round_even,
}
use micro_go_lab.Event.Codec.{
  Envelope, envelope, marshal, created, cancels, unmarshal_created, unmarshal_cancelled,
  unmarshal_envelope,
}
use micro_go_lab.Event.Delivery.{unmarshal-marshal_created, unmarshal-marshal_cancelled_odd}
use micro_go_lab.Stream.{Message}
use micro_go_lab.Inventory.{
  Db, Service, IsService, products_schema, Product, Reservation, reserved, released, is_active,
}
use micro_go_lab.Inventory.Stock.{held}
use micro_go_lab.Inventory.Repository.{release, reserve}
use micro_go_lab.Inventory.Effects.{reservation}
use micro_go_lab.Inventory.Balance.{IsConsistent}
use micro_go_lab.Inventory.Bounds.{IsBounded, Asks}
use micro_go_lab.Inventory.Handling.{handle_order_event-IsConsistent, Delivers}
use micro_go_lab.Inventory.Consumer.{
  handle_order_event, handle_order_created, handle_order_cancelled, report, write_outbox,
}
use micro_go_lab.Inventory.Outcomes.{
  Outcome, reserved_event, failed_event, handle_order_created-Outcome,
  handle_order_created-decrement_error, GoesOn,
}
use micro_go_lab.Inventory.Races.{release_twice, created_after_cancelled}
use micro_go_lab.Base.{update_where, ◌-ℤ◌, ◌≢◌, ◌^◌, ◌+◌}
use micro_go_lab.Sql.Memory.{table, table-IsTable, select_first, changed, insert}
use micro_go_lab.Sql.{Table, IsTable}
use micro_go_lab.Outbox
use micro_go_lab.Outbox.{new_event}
use micro_go_lab.Inventory.Keys.{of_order}
use micro_go_lab.Inventory.Repository.{
  release_found, reserve_ordered, reserve_locked, reserve_decremented, decrement_available,
  create_reservation,
}
use micro_go_lab.Tests.Data.{Product-discrete, ambient, inventory, inventory-IsService}

abbrev pub stock : List Product
stock =
    record { sku = "pen"; total = pos 10; available = pos 8 }
    ∷ record { sku = "ink"; total = pos 4; available = pos 4 }
    ∷ []

abbrev pub held_order : Reservation
held_order = record { id = 1; order_id = 5; sku = "pen"; quantity = pos 2; status = reserved }

abbrev pub db : Db
db = record { products = stock; reservations = held_order ∷ []; outbox = []; processed = [] }

abbrev pub order : OrderCreatedData
order = record {
  order_id = 6;
  user_id = 2;
  sku = "pen";
  quantity = pos 3;
  product_name = "Pen";
  amount = pos 300;
  order_status = pending;
}

abbrev pub create : Object
create = marshal (created order)

abbrev pub message : Message
message = record {
  topic = order_events;
  partition = 0;
  offset = 4;
  key = 2;
  value = envelope (record { event = order_created; version = 1; occurred_at = 1; body = create });
  headers = ("event_id", "uuid-0") ∷ [];
}

pub db-IsConsistent : IsConsistent db
unfolding find held is_active ◌+ℤ◌
db-IsConsistent = record {
  skus = (refl, (refl, tt));
  orders = (refl, tt);
  balanced = (refl, (refl, tt));
}

db-IsBounded : IsBounded db
db-IsBounded = record {
  stock = (omega int_laws, (omega int_laws, tt));
  quantities = (omega int_laws, tt);
}

pub arrived : unmarshal_created (any_object create) ≡ ok order
arrived =
    unmarshal-marshal_created order (omega arith) (omega arith) (omega arith, omega arith)
      (omega arith, omega arith) (λ t h. cc)

pub asks : (e : Envelope) → unmarshal_envelope message.value ≡ ok e → Delivers Asks e
unfolding unmarshal_envelope
asks e h d t u =
    let sent : Envelope = record {
      event = order_created;
      version = 1;
      occurred_at = 1;
      body = any_object create;
    } in
    let same : sent ≡ e = cc in
    let got : unmarshal_created (any_object create) ≡ ok d = rw (sym same) at u in
    let it : ok order ≡ ok d = sym arrived ∙ got in
    let order' : order ≡ d = cc in rw (sym order') (omega int_laws)

handle_order_event-IsConsistent_example :
    IsConsistent (handle_order_event (λ n. inventory) (λ n. ambient) (λ n. none) message db).1
handle_order_event-IsConsistent_example =
    handle_order_event-IsConsistent (λ n. inventory) (λ n. inventory-IsService) (λ n. ambient)
      (λ n. none) message db db-IsConsistent

handle_order_created-Outcome_example :
    Outcome ambient order db (handle_order_created inventory ambient create db)
unfolding unmarshal_created as_uint value marshal as_string as_int
handle_order_created-Outcome_example =
    handle_order_created-Outcome inventory inventory-IsService ambient create order db refl

abbrev released_db : Db
released_db = record db {
  products =
      record { sku = "pen"; total = pos 10; available = pos 10 }
      ∷ record { sku = "ink"; total = pos 4; available = pos 4 }
      ∷ [];
  reservations = record held_order { status = released } ∷ [];
}

released_once : release inventory 5 db ≡ ok (1, released_db)
unfolding release inventory table select_first changed update_where find release_found is_active
    ◌+ℤ◌
released_once = refl

released_again : release inventory 5 released_db ≡ ok (0, released_db)
unfolding release inventory table select_first changed update_where find release_found is_active
    ◌+ℤ◌
released_again = refl

release_twice_example : (◌≡◌ {A = ℕ} 0 0) × (released_db ≡ released_db)
release_twice_example =
    release_twice inventory inventory inventory-IsService inventory-IsService 5 0 db released_db
      released_db released_once released_again

abbrev cancelled_order : OrderCancelledData
cancelled_order = record { order_id = 6; sku = "pen"; quantity = pos 3; reason = user_cancelled }

abbrev cancel : Object
cancel = marshal (cancels cancelled_order)

abbrev late_db : Db
late_db = record {
  products =
      record { sku = "pen"; total = pos 10; available = pos 5 }
      ∷ record { sku = "ink"; total = pos 4; available = pos 4 }
      ∷ [];
  reservations = held_order ∷ reservation 2 6 "pen" (pos 3) ∷ [];
  outbox = reserved_event ambient order 1 ∷ [];
  processed = [];
}

create_read : unmarshal_created create ≡ ok order
unfolding unmarshal_created as_uint value marshal as_string as_int
create_read = refl

cancel_read : unmarshal_cancelled cancel ≡ ok cancelled_order
unfolding unmarshal_cancelled as_uint value marshal as_string as_int
cancel_read = refl

no_order_6 : find (of_order 6) db.reservations ≡ none
unfolding find
no_order_6 = refl

cancel_first : handle_order_cancelled inventory ambient cancel db ≡ ok (tt, db)
unfolding handle_order_cancelled release inventory table select_first find is_record_not_found
cancel_first = rw cancel_read refl

create_late : handle_order_created inventory ambient create db ≡ ok (tt, late_db)
unfolding handle_order_created reserve reserve_ordered reserve_locked reserve_decremented
    decrement_available create_reservation report write_outbox Outbox.insert inventory table
    select_first changed insert find update_where is_record_not_found ◌-ℤ◌ new_event
create_late = rw create_read refl

created_after_cancelled_example :
    (db ≡ db)
    × (((id : ℕ) × (find (of_order 6) late_db.reservations ≡ some (reservation id 6 "pen" (pos 3))))
        ⊎ ((late_db.products ≡ db.products) × (late_db.reservations ≡ db.reservations)))
created_after_cancelled_example =
    created_after_cancelled inventory inventory-IsService ambient cancel create cancelled_order
      order db db late_db cancel_read create_read refl no_order_6 cancel_first create_late

-- A database whose UPDATE of the stock meets a deadlock.
abbrev locked : Table Db Product
locked = record (table products_schema Product-discrete) { update = λ p f s. err (mysql 1213) }

locked-IsTable : IsTable products_schema locked
unfolding is_record_not_found
locked-IsTable = record {
  first_law = (table-IsTable products_schema Product-discrete).first_law;
  update_law = λ p f s. refl;
  create_law = (table-IsTable products_schema Product-discrete).create_law;
}

abbrev deadlocked : Service
deadlocked = record inventory { products = locked }

deadlocked-IsService : IsService deadlocked
unfolding inventory
deadlocked-IsService = record {
  db = inventory-IsService.db;
  products = locked-IsTable;
  reservations = inventory-IsService.reservations;
  outbox = inventory-IsService.outbox;
  processed = inventory-IsService.processed;
}

absent_6 : GoesOn (deadlocked.reservations.first (of_order 6) db)
unfolding inventory table select_first find is_record_not_found
absent_6 = refl

handle_order_created-decrement_error_example :
    handle_order_created deadlocked ambient create db
    ≡ Outbox.insert deadlocked.outbox (failed_event ambient order 0) db
unfolding is_record_not_found inventory
handle_order_created-decrement_error_example =
    handle_order_created-decrement_error deadlocked deadlocked-IsService ambient create order db
      (mysql 1213) create_read absent_6 refl

abbrev large : OrderCancelledData
large = record cancelled_order { order_id = 2 ^ 53 + 1 }

abbrev large_received : OrderCancelledData
large_received = record cancelled_order { order_id = 2 ^ 53 }

large_read : unmarshal_cancelled (any_object (marshal (cancels large))) ≡ ok large_received
unfolding unmarshal_cancelled any_object any_scalar marshal as_uint as_int as_string value float_ℤ
    to_float64 ulp round_even
large_read = refl

unmarshal-marshal_cancelled_odd_example : large_received.order_id ≢ large.order_id
unmarshal-marshal_cancelled_odd_example =
    unmarshal-marshal_cancelled_odd large large_received (omega arith) (omega arith) refl large_read
