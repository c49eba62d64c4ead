-- ===== src/Event.antt =====
-- common/xevent/event.go: topics, event types, and the data of each event.
pub mod Json
pub mod Codec
pub mod Delivery
use micro_go_lab.Base.{ℕ, ◌*◌, String, Bool, true, false, List, [], ◌∷◌, ℤ, str_eq}

pub data Topic : Type 0 where
  user_events order_events inventory_events : Topic

pub record TopicSpec : Type 0 where
  pub name : Topic
  pub num_partitions : ℕ
  pub replication_factor : ℕ
  pub retention_ms : ℕ

abbrev spec_of : Topic → TopicSpec
spec_of t = record {
  name = t;
  num_partitions = 3;
  replication_factor = 3;
  retention_ms = 7 * 24 * 3600 * 1000;
}

unfoldable pub topic_specs : List TopicSpec
topic_specs = spec_of user_events ∷ spec_of order_events ∷ spec_of inventory_events ∷ []

-- `type EventType string`; `unknown` is any text but the five constants.
pub data EventType : Type 0 where
  user_registered order_created order_cancelled inventory_reserved reservation_failed : EventType
  unknown : String → EventType

-- The `Status` of an order, a text; `other` is any text but the three constants of model/order.go.
pub data OrderStatus : Type 0 where
  pending paid cancelled : OrderStatus
  other : String → OrderStatus

-- The cancel_reason of an order: none, or one of the two constants.
pub data Reason : Type 0 where
  no_reason user_cancelled out_of_stock : Reason
  other_reason : String → Reason

pub record UserRegisteredData : Type 0 where
  pub user_id : ℕ
  pub username : String

pub record OrderCreatedData : Type 0 where
  pub order_id : ℕ
  pub user_id : ℕ
  pub sku : String
  pub quantity : ℤ
  pub product_name : String
  pub amount : ℤ
  pub order_status : OrderStatus

pub record OrderCancelledData : Type 0 where
  pub order_id : ℕ
  pub sku : String
  pub quantity : ℤ
  pub reason : Reason

pub record InventoryReservedData : Type 0 where
  pub order_id : ℕ

pub record ReservationFailedData : Type 0 where
  pub order_id : ℕ
  pub reason : Reason
