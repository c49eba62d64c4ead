-- ===== src/User.antt =====
-- service/user/rpc: the tables of its database (internal/model/user.go) and what a service context
-- holds of them (internal/svc/servicecontext.go).
pub mod Rpc
pub mod Api
pub mod Registration
pub mod Validation
pub mod Session
use micro_go_lab.Base.{◌≡◌, true, ℕ, Bool, Option, String, List, str_eq, ◌==◌, ◌||◌}
use micro_go_lab.Errors.{Error, Result, ok}
use micro_go_lab.Sql.{Tx, Table, Schema, IsTable}
use micro_go_lab.Outbox.{OutboxEvent}

-- The times of gorm.Model are left out: nothing reads them. `password` is the bcrypt hash.
pub record User : Type 0 where
  pub id : ℕ
  pub username : String
  pub password : String
  pub email : String

-- user_db
pub record Db : Type 0 where
  pub users : List User
  pub outbox : List OutboxEvent

abbrev pub users_schema : Schema Db User
users_schema = record {
  rows = λ s. s.users;
  put = λ rs s. record s { users = rs };
  assign = λ i u. record u { id = i };
  clash = λ u v. u.id == v.id || str_eq u.username v.username || str_eq u.email v.email;
}

abbrev pub outbox_schema : Schema Db OutboxEvent
outbox_schema = record {
  rows = λ s. s.outbox;
  put = λ rs s. record s { outbox = rs };
  assign = λ i e. record e { id = i };
  clash = λ e f. e.id == f.id || str_eq e.event_id f.event_id;
}

-- `begin` is the error of Begin and `commit` that of Commit, if they fail; `hash` and `compare` are
-- bcrypt's GenerateFromPassword and CompareHashAndPassword.
pub record Service : Type 0 where
  pub users : Table Db User
  pub outbox : Table Db OutboxEvent
  pub begin : Option Error
  pub commit : Db → Option Error
  pub hash : String → Result String
  pub compare : String → String → Bool

pub record IsService (sc : Service) : Type 0 where
  pub users : IsTable users_schema sc.users
  pub outbox : IsTable outbox_schema sc.outbox
  -- bcrypt: a hash that was made of a password is matched by it.
  pub hash_law : (p h : String) → sc.hash p ≡ ok h → sc.compare h p ≡ true
