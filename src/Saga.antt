-- ===== src/Saga.antt =====
-- The services together: an outbox row of the order service (createOrderLogic.go,
-- updateOrderStatusLogic.go), published by common/xstream/poller.go, and handled by the inventory
-- service (order_event_consumer.go).
pub mod Delivered
pub mod Telling
pub mod Truthful
pub mod Ordering
pub mod Backing
pub mod System
pub mod Reserving
pub mod Placing
pub mod Restoring
pub mod Refusing
pub mod Compensation
use micro_go_lab.Base.{ℕ, ◌<◌, String}
use micro_go_lab.Event.{OrderCreatedData, OrderCancelledData, Reason}
use micro_go_lab.Event.Json.{significands}
use micro_go_lab.Event.Delivery.{Fits, IsKnownStatus}
use micro_go_lab.Order.{Order}
use micro_go_lab.Outbox.{OutboxEvent}
use micro_go_lab.Outbox.Poller.{Format, to_message}
use micro_go_lab.Stream.{Message, to_kafka_headers, from_kafka_headers}

-- The message as the consumer fetches it: the broker has placed it.
unfoldable pub placed : Format → OutboxEvent → ℕ → ℕ → Message
unfolding to_message to_kafka_headers from_kafka_headers
placed f e partition offset = record (to_message f e) {
  partition = partition;
  offset = offset;
  headers = from_kafka_headers (to_kafka_headers (to_message f e).headers);
}

-- What the two events say of an order.
abbrev pub created_data : Order → OrderCreatedData
created_data o = record {
  order_id = o.id;
  user_id = o.user_id;
  sku = o.sku;
  quantity = o.quantity;
  product_name = o.product_name;
  amount = o.amount;
  order_status = o.status;
}

abbrev pub cancelled_data : Order → Reason → OrderCancelledData
cancelled_data o why = record { order_id = o.id; sku = o.sku; quantity = o.quantity; reason = why }

-- The numbers of the order are within 53 bits, and its status is one of the three constants.
pub record IsSendable (o : Order) : Type 0 where
  pub id : o.id < significands
  pub user_id : o.user_id < significands
  pub quantity : Fits o.quantity
  pub amount : Fits o.amount
  pub status : IsKnownStatus o.status
