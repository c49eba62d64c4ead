-- ===== src/Tests/System.antt =====
-- An order for three pens that is placed, published, reserved, cancelled, published and released.
use micro_go_lab.Base.{
  ◌≡◌, refl, inl, inr, Bool, true, none, List, [], ◌∷◌, ◌++◌, subst, map, All, All-imply, select,
  pos, arith, find, update_where, ◌-ℤ◌, ◌+ℤ◌, Bool-cases,
}
use micro_go_lab.Errors.{ok, is_record_not_found}
use micro_go_lab.Event.{cancelled, user_cancelled}
use micro_go_lab.Event.Codec.{
  status_text, marshal, unmarshal_created, unmarshal_cancelled, unmarshal_envelope,
}
use micro_go_lab.Event.Json.{
  any_object, as_uint, as_int, as_string, value, any_scalar, float_ℤ, to_float64, ulp, round_even,
}
use micro_go_lab.Idempotent.{process, process_tx, process_found}
use micro_go_lab.Retry.{with_retry, retry_from, default_retry_options}
use micro_go_lab.Sql.Memory.{database, table, select_first, changed, insert}
use micro_go_lab.Outbox
use micro_go_lab.Outbox.{Ambient, OutboxEvent, new_event, mark_as_sent}
use micro_go_lab.Outbox.Poller.{
  is_due, to_message, event_type_text, tick, process_pending, handle_pending, publish_all,
}
use micro_go_lab.Stream.{Message, from_kafka_headers, to_kafka_headers, put_header, header}
use micro_go_lab.Inventory.{released, is_active}
use micro_go_lab.Inventory.Repository.{
  reserve, reserve_ordered, reserve_locked, reserve_decremented, decrement_available,
  create_reservation, release, release_found,
}
use micro_go_lab.Inventory.Consumer.{
  handle_order_event, handle_order_created, handle_order_cancelled, dispatch, process_order_event,
  report, write_outbox,
}
use micro_go_lab.Order
use micro_go_lab.Order.{Order, default_quantity}
use micro_go_lab.Order.Repository
use micro_go_lab.Order.Repository.{set_cancelled, versioned, same_status, is_valid_transition}
use micro_go_lab.Order.Create.{
  CreateOrderRequest, create_order, create_tx, new_order, created_event,
}
use micro_go_lab.Order.Create.Outcomes.{stored}
use micro_go_lab.Order.Update.{
  update_found, cancel_order, cancel_tx, cancel_written, cancelled_event,
}
use micro_go_lab.Saga.{placed}
use micro_go_lab.Saga.Telling.{IsFit}
use micro_go_lab.Saga.System.{
  World, In, Query, IsQuery, Taken, Step, creates, updates, polls, delivers, Reach, here, next,
  IsFresh,
}
use micro_go_lab.Inventory.Balance.{IsConsistent}
use micro_go_lab.Inventory.Stock.{held, IsBalanced}
use micro_go_lab.Inventory.Bounds.{IsSellable}
use micro_go_lab.Saga.System.Stock.{Reach-IsSellable}
use micro_go_lab.Saga.System.Soundness.{Reflects, Reach-Reflects}
use micro_go_lab.Tests.Data.{ambient, inventory, inventory-IsService, orders, orders-IsService}
use micro_go_lab.Tests.Poller.{format}

abbrev request : CreateOrderRequest
request = record { product_name = "Pen"; sku = "pen"; quantity = pos 3; amount = pos 300 }

abbrev at_creation : Ambient
at_creation = record { now = 3; uuid = "uuid-3" }

abbrev pens : Order
pens = stored at_creation 2 request 1

abbrev at_cancellation : Ambient
at_cancellation = record { now = 4; uuid = "uuid-4" }

-- The rows that are due.
abbrev all_due : Query Order.Db
all_due p n s = ok (select p s.outbox)

select-In : (p : OutboxEvent → Bool) (es : List OutboxEvent) → All (λ e. In e es) (select p es)
unfolding select
select-In p [] = tt
select-In p (e ∷ es) =
    let rest = All-imply (select p es) (λ x h. inr h) (select-In p es) in
    elim (Bool-cases (p e)) [ inl hit ↦ rw hit (inl refl, rest) | inr miss ↦ rw miss rest ]

all_due-IsQuery : IsQuery all_due
all_due-IsQuery p n s es e =
    let same : select p s.outbox ≡ es = cc in
    subst (λ l. All (λ x. In x s.outbox) l) same (select-In p s.outbox)

-- The broker takes all of a batch.
abbrev delivered : List OutboxEvent → List Message
delivered = map (λ e. placed format e 0 5)

In-self : (es : List OutboxEvent) → All (λ e. In e es) es
In-self [] = tt
In-self (e ∷ es) = (inl refl, All-imply es (λ x h. inr h) (In-self es))

delivered-Taken :
    (batch es : List OutboxEvent)
    → All (λ e. In e batch) es
    → All (Taken format (λ m. none) batch) (delivered es)
delivered-Taken batch [] h = tt
delivered-Taken batch (e ∷ es) h = ((e, h.0, refl, (0, 5, refl)), delivered-Taken batch es h.1)

abbrev w0 : World
w0 = record {
  orders = record { orders = []; outbox = []; processed = []; known_users = [] };
  stock = record {
    products = record { sku = "pen"; total = pos 10; available = pos 10 } ∷ [];
    reservations = [];
    outbox = [];
    processed = [];
  };
  published = [];
}

w0-IsFresh : IsFresh w0
w0-IsFresh = record { orders = refl; outbox = refl; published = refl; reservations = refl }

abbrev place : World → World
place w = record w {
  orders = (create_order orders at_creation (λ i. ok true) 2 request w.orders).1;
}

abbrev batch_of : World → List OutboxEvent
batch_of w = select is_due w.orders.outbox

abbrev poll : World → World
poll w = record w {
  orders = (tick orders.db orders.outbox all_due format (λ m. none) 5 100 w.orders).1;
  published = w.published ++ delivered (batch_of w);
}

abbrev deliver : Message → World → World
deliver msg w = record w {
  stock = (handle_order_event (λ n. inventory) (λ n. ambient) (λ n. none) msg w.stock).1;
}

abbrev cancel : World → World
cancel w = record w {
  orders = (update_found orders at_cancellation cancelled (ok pens) w.orders).1;
}

abbrev creation : Message
creation = placed format (record (created_event at_creation pens) { id = 1 }) 0 5

abbrev cancellation : Message
cancellation =
    placed format
      (record (cancelled_event at_cancellation (set_cancelled user_cancelled pens) user_cancelled) {
        id = 2;
      })
      0 5

abbrev w2 : World
w2 = poll (place w0)

abbrev w3 : World
w3 = deliver creation w2

abbrev w5 : World
w5 = poll (cancel w3)

abbrev w6 : World
w6 = deliver cancellation w5

pens-IsFit :
    (o : Order)
    → (create_order orders at_creation (λ i. ok true) 2 request w0.orders).0 ≡ ok o
    → IsFit o
unfolding create_order create_tx new_order Order.Repository.create created_event orders table
    database insert changed find default_quantity Outbox.insert new_event
pens-IsFit o e =
    let same : pens ≡ o = cc in
    subst IsFit same (omega arith, (omega arith, omega arith), omega arith)

polled : (w : World) → Step w (poll w)
polled w =
    polls w orders orders-IsService all_due all_due-IsQuery format (λ m. none) 5 100 (batch_of w)
      (delivered (batch_of w)) refl
      (delivered-Taken (batch_of w) (batch_of w) (In-self (batch_of w)))

handed : (w : World) (msg : Message) → In msg w.published → Step w (deliver msg w)
handed w msg held =
    delivers w (λ n. inventory) (λ n. inventory-IsService) (λ n. ambient) (λ n. none) msg held

publishes : In creation w2.published
unfolding create_order create_tx new_order Order.Repository.create created_event orders table
    database insert changed find default_quantity Outbox.insert new_event select is_due
publishes = inl refl

publishes_again : In cancellation w5.published
unfolding create_order create_tx new_order Order.Repository.create created_event orders table
    database insert changed find default_quantity Outbox.insert new_event select is_due update_found
    cancel_order cancel_tx cancel_written cancelled_event Order.Repository.cancel
    Order.Repository.cancel_affected versioned same_status status_text is_valid_transition
    set_cancelled tick process_pending handle_pending publish_all mark_as_sent update_where
    select_first
publishes_again = inr (inl refl)

reaches : Reach w0 w6
reaches =
    next
      (next
        (next
          (next
            (next
              (next here (
                creates w0 orders orders-IsService at_creation (λ i. ok true) 2 request pens-IsFit))
              (polled (place w0)))
            (handed w2 creation publishes))
          (updates w3 orders orders-IsService at_cancellation cancelled (ok pens)))
        (polled (cancel w3)))
      (handed w5 cancellation publishes_again)

Reach-Reflects_example : All (Reflects w6.orders.orders) w6.stock.reservations
Reach-Reflects_example = Reach-Reflects w0 w6 w0-IsFresh reaches

w0-IsConsistent : IsConsistent w0.stock
unfolding held find ◌+ℤ◌
w0-IsConsistent = record { skus = (refl, tt); orders = tt; balanced = (refl, tt) }

Reach-IsSellable_example :
    All IsSellable w6.stock.products × All (IsBalanced w6.stock.reservations) w6.stock.products
Reach-IsSellable_example =
    Reach-IsSellable w0 w6 w0-IsFresh
      (w0-IsConsistent, record { stock = (omega arith, tt); quantities = tt }) reaches

-- In that run the stock was taken and is given back.
gives_back : map (λ r. r.status) w6.stock.reservations ≡ released ∷ []
unfolding create_order create_tx new_order Order.Repository.create created_event orders table
    database insert changed find default_quantity Outbox.insert new_event select is_due update_found
    cancel_order cancel_tx cancel_written cancelled_event Order.Repository.cancel
    Order.Repository.cancel_affected versioned same_status status_text is_valid_transition
    set_cancelled tick process_pending handle_pending publish_all mark_as_sent update_where
    select_first handle_order_event process_order_event process process_tx process_found dispatch
    with_retry retry_from default_retry_options header handle_order_created reserve reserve_ordered
    reserve_locked reserve_decremented decrement_available create_reservation report write_outbox
    inventory is_record_not_found ◌-ℤ◌ unmarshal_envelope unmarshal_created any_object any_scalar
    marshal as_uint as_int as_string value float_ℤ to_float64 ulp round_even placed to_message
    event_type_text from_kafka_headers to_kafka_headers put_header handle_order_cancelled release
    release_found is_active unmarshal_cancelled ◌+ℤ◌
gives_back = refl
