-- ===== src/Order.antt =====
-- service/order/api: the tables of its database (internal/model, common/xdb/migrations/order) and
-- what a service context holds of them (internal/svc/servicecontext.go).
pub mod Repository
pub mod Create
pub mod Update
pub mod Consumer
pub mod Steps
pub mod Race
pub mod Faults
pub mod Api
use micro_go_lab.Base.{
  ℕ, ◌≡◌, ◌≤◌, Bool, true, false, Option, none, some, String, List, [], ◌∷◌, ℤ, pos, negsuc, zero,
  suc, str_eq, ◌==◌, ◌||◌, All, length,
}
use micro_go_lab.Errors.{Result, ok, err, is_record_not_found, Error}
use micro_go_lab.Sql.{Tx, Table, Schema, Database, IsTable, IsDatabase}
use micro_go_lab.Event.{OrderStatus, Reason}
use micro_go_lab.Outbox.{OutboxEvent}
use micro_go_lab.Idempotent.{ProcessedEvent}

-- The times that gorm.Model keeps are left out: nothing reads them, and no order is deleted.
pub record Order : Type 0 where
  pub id : ℕ
  pub user_id : ℕ
  pub product_name : String
  pub amount : ℤ
  pub status : OrderStatus
  pub version : ℕ
  pub sku : String
  pub quantity : ℤ
  pub cancel_reason : Reason

-- `default:1` stands in for the zero value.
unfoldable pub default_quantity : ℤ → ℤ
default_quantity (pos zero) = pos 1
default_quantity (pos (suc n)) = pos (suc n)
default_quantity (negsuc n) = negsuc n

-- seen_at is left out: nothing reads it.
pub record KnownUser : Type 0 where
  pub user_id : ℕ
  pub username : String

-- order_db
pub record Db : Type 0 where
  pub orders : List Order
  pub outbox : List OutboxEvent
  pub processed : List ProcessedEvent
  pub known_users : List KnownUser

abbrev pub orders_schema : Schema Db Order
orders_schema = record {
  rows = λ s. s.orders;
  put = λ rs s. record s { orders = rs };
  assign = λ i o. record o { id = i; quantity = default_quantity o.quantity };
  clash = λ o q. o.id == q.id;
}

abbrev pub outbox_schema : Schema Db OutboxEvent
outbox_schema = record {
  rows = λ s. s.outbox;
  put = λ rs s. record s { outbox = rs };
  assign = λ i e. record e { id = i };
  clash = λ e f. e.id == f.id || str_eq e.event_id f.event_id;
}

abbrev pub processed_schema : Schema Db ProcessedEvent
processed_schema = record {
  rows = λ s. s.processed;
  put = λ rs s. record s { processed = rs };
  assign = λ i e. record e { processed_at = i };
  clash = λ e f. str_eq e.event_id f.event_id;
}

-- Order("id DESC").Offset(offset).Limit(limit).Find(&rows), and Count(&total), of the rows that
-- satisfy the condition.
pub record Listing (S R : Type 0) : Type 0 where
  pub count : (R → Bool) → S → Result ℕ
  pub page : (R → Bool) → ℤ → ℤ → S → Result (List R)

-- The connections of a ServiceContext. `save` is gorm's Save of a known user.
pub record Service : Type 1 where
  pub db : Database Db
  pub orders : Table Db Order
  pub listing : Listing Db Order
  pub outbox : Table Db OutboxEvent
  pub processed : Table Db ProcessedEvent
  pub save : KnownUser → Tx Db (Unit {0})

-- Save writes no table but known_users.
abbrev pub Saved : Db → Result (Unit {0} × Db) → Type 0
Saved s (ok (_, s')) = (us : List KnownUser) × (s' ≡ record s { known_users = us })
Saved s (err e) = is_record_not_found e ≡ false

pub record IsService (sc : Service) : Type 1 where
  pub db : IsDatabase sc.db
  pub orders : IsTable orders_schema sc.orders
  pub outbox : IsTable outbox_schema sc.outbox
  pub processed : IsTable processed_schema sc.processed
  pub save_law : (u : KnownUser) (s : Db) → Saved s (sc.save u s)
