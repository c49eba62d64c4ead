-- ===== src/Inventory.antt =====
-- service/inventory/rpc: the tables of its database (internal/model, common/xdb/migrations/
-- inventory) and what a service context holds of them (internal/svc/serviceContext.go).
pub mod Repository
pub mod Consumer
pub mod Keys
pub mod Stock
pub mod Effects
pub mod Balance
pub mod Bounds
pub mod Handling
pub mod Redelivery
pub mod Outcomes
pub mod Races
pub mod Rpc
use micro_go_lab.Base.{ℕ, Bool, true, false, String, List, ℤ, str_eq, ◌==◌, ◌||◌, ◌≡◌, refl}
use micro_go_lab.Sql.{Table, Schema, Database, IsTable, IsDatabase}
use micro_go_lab.Outbox.{OutboxEvent}
use micro_go_lab.Idempotent.{ProcessedEvent}

pub record Product : Type 0 where
  pub sku : String
  pub total : ℤ
  pub available : ℤ

pub data ReservationStatus : Type 0 where
  reserved released : ReservationStatus

-- ReservationStatusActive
unfoldable pub is_active : ReservationStatus → Bool
is_active reserved = true
is_active released = false

-- created_at is left out: nothing reads it.
pub record Reservation : Type 0 where
  pub id : ℕ
  pub order_id : ℕ
  pub sku : String
  pub quantity : ℤ
  pub status : ReservationStatus

-- inventory_db
pub record Db : Type 0 where
  pub products : List Product
  pub reservations : List Reservation
  pub outbox : List OutboxEvent
  pub processed : List ProcessedEvent

abbrev pub products_schema : Schema Db Product
products_schema = record {
  rows = λ s. s.products;
  put = λ rs s. record s { products = rs };
  assign = λ _ p. p;
  clash = λ p q. str_eq p.sku q.sku;
}

abbrev pub reservations_schema : Schema Db Reservation
reservations_schema = record {
  rows = λ s. s.reservations;
  put = λ rs s. record s { reservations = rs };
  assign = λ i r. record r { id = i };
  clash = λ r q. r.id == q.id || r.order_id == q.order_id;
}

abbrev pub outbox_schema : Schema Db OutboxEvent
outbox_schema = record {
  rows = λ s. s.outbox;
  put = λ rs s. record s { outbox = rs };
  assign = λ i e. record e { id = i };
  clash = λ e f. e.id == f.id || str_eq e.event_id f.event_id;
}

abbrev pub processed_schema : Schema Db ProcessedEvent
processed_schema = record {
  rows = λ s. s.processed;
  put = λ rs s. record s { processed = rs };
  assign = λ i e. record e { processed_at = i };
  clash = λ e f. str_eq e.event_id f.event_id;
}

-- The connections of a ServiceContext, with the fault switch BUG_DB_DEADLOCK.
pub record Service : Type 1 where
  pub db : Database Db
  pub products : Table Db Product
  pub reservations : Table Db Reservation
  pub outbox : Table Db OutboxEvent
  pub processed : Table Db ProcessedEvent
  pub bug_db_deadlock : Bool

pub record IsService (sc : Service) : Type 1 where
  pub db : IsDatabase sc.db
  pub products : IsTable products_schema sc.products
  pub reservations : IsTable reservations_schema sc.reservations
  pub outbox : IsTable outbox_schema sc.outbox
  pub processed : IsTable processed_schema sc.processed
