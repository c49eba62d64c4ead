-- ===== src/Tests/Data.antt =====
-- The services of the runs: every table in memory.
use micro_go_lab.Base.{◌≡◌, sym, refl, Bool, true, false, none, String, [], ◌∷◌, str_eq, eq_iff}
use native.Mathlib.Decide.{ℕ_discrete}
use micro_go_lab.Errors.{ok}
use micro_go_lab.Sql.Memory.{table, table-IsTable, database, database-IsDatabase}
use micro_go_lab.Outbox.{OutboxEvent, Ambient}
use micro_go_lab.Idempotent.{ProcessedEvent}
use micro_go_lab.Inventory
use micro_go_lab.Order
use micro_go_lab.User

unfoldable pub decided : (s t : String) (b : Bool) → str_eq s t ≡ b → Dec (s ≡ t)
decided s t true e = yes ((eq_iff s t).0 e)
decided s t false e = no (λ h. let same : str_eq s t ≡ true = (eq_iff s t).1 h in absurd (cc))

unfoldable pub String-discrete : Discrete String
unfolding decided
String-discrete s t = decided s t (str_eq s t) refl

unfoldable pub Product-discrete : Discrete Inventory.Product
unfolding String-discrete ℕ_discrete
Product-discrete = hlevel (ℕ_discrete, String-discrete)

unfoldable pub Reservation-discrete : Discrete Inventory.Reservation
unfolding String-discrete ℕ_discrete
Reservation-discrete = hlevel (ℕ_discrete, String-discrete)

unfoldable pub ProcessedEvent-discrete : Discrete ProcessedEvent
unfolding String-discrete ℕ_discrete
ProcessedEvent-discrete = hlevel (ℕ_discrete, String-discrete)

unfoldable pub OutboxEvent-discrete : Discrete OutboxEvent
unfolding String-discrete ℕ_discrete
OutboxEvent-discrete = hlevel (ℕ_discrete, String-discrete)

unfoldable pub Order-discrete : Discrete Order.Order
unfolding String-discrete ℕ_discrete
Order-discrete = hlevel (ℕ_discrete, String-discrete)

unfoldable pub User-discrete : Discrete User.User
unfolding String-discrete ℕ_discrete
User-discrete = hlevel (ℕ_discrete, String-discrete)

abbrev pub ambient : Ambient
ambient = record { now = 7; uuid = "uuid-1" }

unfoldable pub inventory : Inventory.Service
unfolding Product-discrete Reservation-discrete OutboxEvent-discrete ProcessedEvent-discrete table
    database
inventory = record {
  db = database;
  products = table Inventory.products_schema Product-discrete;
  reservations = table Inventory.reservations_schema Reservation-discrete;
  outbox = table Inventory.outbox_schema OutboxEvent-discrete;
  processed = table Inventory.processed_schema ProcessedEvent-discrete;
  bug_db_deadlock = false;
}

pub inventory-IsService : Inventory.IsService inventory
unfolding inventory
inventory-IsService = record {
  db = database-IsDatabase;
  products = table-IsTable Inventory.products_schema Product-discrete;
  reservations = table-IsTable Inventory.reservations_schema Reservation-discrete;
  outbox = table-IsTable Inventory.outbox_schema OutboxEvent-discrete;
  processed = table-IsTable Inventory.processed_schema ProcessedEvent-discrete;
}

unfoldable pub orders : Order.Service
unfolding Order-discrete OutboxEvent-discrete ProcessedEvent-discrete table database
orders = record {
  db = database;
  orders = table Order.orders_schema Order-discrete;
  listing = record { count = λ p s. ok 0; page = λ p offset limit s. ok [] };
  outbox = table Order.outbox_schema OutboxEvent-discrete;
  processed = table Order.processed_schema ProcessedEvent-discrete;
  save = λ u s. ok (tt, record s { known_users = u ∷ [] });
}

pub orders-IsService : Order.IsService orders
unfolding orders
orders-IsService = record {
  db = database-IsDatabase;
  orders = table-IsTable Order.orders_schema Order-discrete;
  outbox = table-IsTable Order.outbox_schema OutboxEvent-discrete;
  processed = table-IsTable Order.processed_schema ProcessedEvent-discrete;
  save_law = λ u s. (u ∷ [], refl);
}

unfoldable pub users : User.Service
unfolding User-discrete OutboxEvent-discrete table
users = record {
  users = table User.users_schema User-discrete;
  outbox = table User.outbox_schema OutboxEvent-discrete;
  begin = none;
  commit = λ s. none;
  hash = λ p. ok p;
  compare = λ h p. str_eq h p;
}

pub users-IsService : User.IsService users
unfolding users
users-IsService = record {
  users = table-IsTable User.users_schema User-discrete;
  outbox = table-IsTable User.outbox_schema OutboxEvent-discrete;
  hash_law = λ p h e. let same : p ≡ h = cc in (eq_iff h p).1 (sym same);
}
