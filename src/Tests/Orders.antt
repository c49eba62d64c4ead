-- ===== src/Tests/Orders.antt =====
-- The order service: one pending order, paid, cancelled, out of stock; and an order placed twice.
use micro_go_lab.Base.{
  ℕ, ◌≡◌, ◌≢◌, ◌⊎◌, refl, Bool, true, false, Option, none, some, String, [], ◌∷◌, pos, find,
  update_where, ℤ, length, if◌then◌else◌, ◌||◌, str_eq,
}
use micro_go_lab.Errors.{
  Error, Result, ok, err, err_optimistic_conflict, err_idempotency_conflict, is_record_not_found,
  is_coded,
}
use micro_go_lab.Sql.Memory.{table, select_first, changed, insert, run, database}
use micro_go_lab.Event.{
  pending, paid, cancelled, no_reason, user_cancelled, out_of_stock, inventory_events,
  reservation_failed, ReservationFailedData,
}
use micro_go_lab.Event.Json.{Object, as_uint, as_string, value}
use micro_go_lab.Event.Codec.{envelope, marshal, failed, unmarshal_failed}
use micro_go_lab.Outbox
use micro_go_lab.Stream.{Message}
use micro_go_lab.Order.{Order, Db, default_quantity}
use micro_go_lab.Order.Repository.{
  update_status, cancel, cancel_affected, find_by_id_and_user_id, versioned, same_status,
  set_status, is_valid_transition,
}
use micro_go_lab.Order.Update.{
  update_found, update_order_status, paid_order, cancel_order, cancel_tx, cancel_written,
}
use micro_go_lab.Order.Update.Outcomes.{CancelOutcome, cancel_order-CancelOutcome}
use micro_go_lab.Order.Steps.{Evolves, update_order_status-Evolves}
use micro_go_lab.Order.Race.{update_found-one_winner}
use micro_go_lab.Order.Create.{
  Redis, CreateOrderRequest, create_order, create_idempotent, success, new_order, create_tx,
  create_gated, create_acquired, order_idempotency_key, settle_gate, created_event,
}
use micro_go_lab.Order.Repository.{create as create_row}
use micro_go_lab.Order.Create.Outcomes.{CreateOutcome, create_order-CreateOutcome}
use micro_go_lab.Order.Create.Gate.{IsRedis}
use micro_go_lab.Order.Faults.{Env, bug_enabled, cache_risk_profile, put_profile, fill, positive_or}
use micro_go_lab.Order.Faults.Creating.{Load, create, create_unloaded, loaded, create-again}
use micro_go_lab.Order.Consumer.{handle_reservation_failed}
use micro_go_lab.Order.Consumer.Outcomes.{FailedOutcome, handle_reservation_failed-FailedOutcome}
use micro_go_lab.Order.Api.{update_order_status_handler, update_reply}
use micro_go_lab.Http.{not_found, error_json}
use micro_go_lab.Tests.Data.{ambient, orders, orders-IsService}

abbrev order : Order
order = record {
  id = 1;
  user_id = 2;
  product_name = "Pen";
  amount = pos 300;
  status = pending;
  version = 0;
  sku = "pen";
  quantity = pos 3;
  cancel_reason = no_reason;
}

abbrev db : Db
db = record { orders = order ∷ []; outbox = []; processed = []; known_users = [] }

abbrev paid_db : Db
paid_db = record db { orders = record order { status = paid; version = 1 } ∷ [] }

update_order_status-Evolves_example :
    Evolves db.orders (update_order_status orders ambient (λ s. s) 2 1 paid db).1.orders
update_order_status-Evolves_example =
    update_order_status-Evolves orders orders-IsService ambient (λ s. s) 2 1 paid db

pay_first :
    update_found orders ambient paid (ok order) db ≡ (ok (record order { status = paid }), paid_db)
unfolding update_found paid_order update_status orders table changed update_where versioned
    same_status set_status is_valid_transition
pay_first = refl

cancel_second :
    update_found orders ambient cancelled (ok order) paid_db
    ≡ (err err_optimistic_conflict, paid_db)
unfolding update_found cancel_order cancel_tx cancel cancel_affected cancel_written orders table
    database run changed update_where versioned same_status is_valid_transition
cancel_second = refl

update_found-one_winner_example :
    (paid_db ≡ paid_db)
    × ((e : Error) × (◌≡◌ {A = Result Order} (err err_optimistic_conflict) (err e)))
update_found-one_winner_example =
    update_found-one_winner orders orders orders-IsService orders-IsService ambient ambient paid
      cancelled order (record order { status = paid }) db paid_db paid_db
      (err err_optimistic_conflict) pay_first cancel_second

cancel_order-CancelOutcome_example :
    CancelOutcome orders orders-IsService ambient order user_cancelled db
      (cancel_order orders ambient order user_cancelled db)
cancel_order-CancelOutcome_example =
    cancel_order-CancelOutcome orders orders-IsService ambient order user_cancelled db

abbrev failure : ReservationFailedData
failure = record { order_id = 1; reason = out_of_stock }

abbrev failure_body : Object
failure_body = marshal (failed failure)

failure_read : unmarshal_failed failure_body ≡ ok failure
unfolding unmarshal_failed marshal as_uint as_string value
failure_read = refl

handle_reservation_failed-FailedOutcome_example :
    FailedOutcome ambient 1 db (handle_reservation_failed orders ambient failure_body db)
handle_reservation_failed-FailedOutcome_example =
    handle_reservation_failed-FailedOutcome orders orders-IsService ambient failure_body failure db
      failure_read

abbrev message : Message
message = record {
  topic = inventory_events;
  partition = 0;
  offset = 3;
  key = 1;
  value =
      envelope
        (record { event = reservation_failed; version = 1; occurred_at = 1; body = failure_body });
  headers = ("event_id", "uuid-0") ∷ [];
}

abbrev request : CreateOrderRequest
request = record { product_name = "Ink"; sku = "ink"; quantity = pos 1; amount = pos 50 }

create_order-CreateOutcome_example :
    CreateOutcome ambient 2 request db (create_order orders ambient (λ i. ok true) 2 request db)
create_order-CreateOutcome_example =
    create_order-CreateOutcome ambient 2 request orders orders-IsService db (λ i. ok true)

-- A Redis with one key.
abbrev Slot : Type 0
Slot = Option (Option Order)

abbrev acquire : Slot → Result Bool × Slot
acquire none = (ok true, some none)
acquire (some v) = (ok false, some v)

abbrev read : Slot → Result (Option Order)
read none = err (Error.other "redis: nil")
read (some v) = ok v

abbrev redis : Redis Slot
redis = record {
  set_nx = λ k c. acquire c;
  get = λ k c. read c;
  set = λ k o c. some (some o);
  del = λ k c. none;
}

acquire_kept : (c : Slot) → (acquire c).0 ≢ ok true → (acquire c).1 ≡ c
acquire_kept none h = absurd (h refl)
acquire_kept (some v) h = refl

redis-IsRedis : IsRedis redis
redis-IsRedis = record {
  taken_law = λ k o c h. cc;
  kept_law = λ k c h. acquire_kept c h;
  read_law = λ k o c. refl;
}

abbrev placed : Order
placed = record {
  id = 2;
  user_id = 2;
  product_name = "Ink";
  amount = pos 50;
  status = pending;
  version = 0;
  sku = "ink";
  quantity = pos 1;
  cancel_reason = no_reason;
}

abbrev placed_db : Db
placed_db = record db {
  orders = order ∷ placed ∷ [];
  outbox = record (created_event ambient placed) { id = 1 } ∷ [];
}

abbrev digest : ℕ → String → String
digest i k = "order:idem:0"

place_first :
    create_idempotent redis orders ambient (λ i. ok true) digest 2 request "key" none db
    ≡ (ok placed, some (some placed), placed_db, success)
unfolding create_idempotent create_acquired create_gated create_order create_tx new_order create_row
    Outbox.insert settle_gate order_idempotency_key orders table database run insert find
    default_quantity created_event
place_first = refl

-- The switches of the exercises: BUG_MEMLEAK alone, with snapshots of one byte.
abbrev leaking : Env
leaking name = if str_eq name "BUG_MEMLEAK" || str_eq name "BUG_MEMLEAK_BYTES" then "1" else ""

abbrev one_of : String → Option ℤ
one_of text = if str_eq text "1" then some (pos 1) else none

abbrev cold : Load
cold = record { cpu_bug_sink = 0; risk_profile_cache = [] }

abbrev warm : Load
warm = record {
  cpu_bug_sink = 0;
  risk_profile_cache =
      (
        "key",
        record {
          user_id = 2;
          reason = "auto-cached";
          score = 0;
          created_at = 7;
          snapshot = 0 ∷ [];
        },
      )
      ∷ [];
}

place_loaded :
    create leaking one_of 7 orders ambient
      (λ i. ok true)
      digest
      2
      request
      "key"
      (some redis)
      cold
      none
      db
    ≡ ((ok placed, some (some placed), placed_db, success), warm)
unfolding create create_unloaded loaded bug_enabled cache_risk_profile put_profile fill positive_or
place_loaded = rw place_first refl

create-again_example :
    let again =
      create leaking one_of 8 orders ambient
        (λ i. ok true)
        digest
        2
        request
        "key"
        (some redis)
        warm
        (some (some placed))
        placed_db in
    (again.0.2 ≡ placed_db)
    × ((again.0.0 ≡ ok placed) ⊎ (again.0.0 ≡ err err_idempotency_conflict))
    × (length again.1.risk_profile_cache ≡ 1)
create-again_example =
    create-again redis redis-IsRedis orders ambient (λ i. ok true) 2 digest one_of leaking 7 8
      request request "key" cold warm none (some none) (some (some placed)) db placed_db placed_db
      placed success refl refl refl place_loaded (λ e h. cc)

missing_order :
    (update_order_status_handler orders ambient (λ s. s) 2 (ok 99) (ok paid) db).0.http_status ≡ 404
unfolding update_order_status_handler update_order_status update_found find_by_id_and_user_id
    update_reply not_found error_json orders table select_first find is_record_not_found is_coded
missing_order = refl
