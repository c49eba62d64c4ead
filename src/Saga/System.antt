-- ===== src/Saga/System.antt =====
-- The order service, the inventory service and the broker between them, as steps in any order: the
-- requests, the poller and the consumers of service/order, the consumer and the poller of
-- service/inventory. Messages are delivered in any order, and as often as it may be.
pub mod Soundness
pub mod Stock
use micro_go_lab.Base.{ℕ, ◌≡◌, Bool, Option, none, List, [], ◌++◌, Exists, All}
use micro_go_lab.Errors.{Error, Result, ok}
use micro_go_lab.Event.{OrderStatus}
use micro_go_lab.Outbox.{Ambient, OutboxEvent}
use micro_go_lab.Outbox.Poller.{Format, is_due, to_message, tick}
use micro_go_lab.Stream.{Message}
use micro_go_lab.Inventory
use micro_go_lab.Inventory.Consumer.{handle_order_event}
use micro_go_lab.Order
use micro_go_lab.Order.{Order}
use micro_go_lab.Order.Create.{CreateOrderRequest, create_order}
use micro_go_lab.Order.Update.{update_found}
use micro_go_lab.Order.Consumer.{handle_inventory_event, handle_user_event}
use micro_go_lab.Saga.{placed}
use micro_go_lab.Saga.Telling.{IsFit}

-- The two databases, and what the broker holds of the messages of the order service.
pub record World : Type 0 where
  pub orders : Order.Db
  pub stock : Inventory.Db
  pub published : List Message

abbrev pub In : {A : Type 0} → A → List A → Type 0
In a = Exists (λ b. b ≡ a)

abbrev pub Query : Type 0 → Type 0
Query S = (OutboxEvent → Bool) → ℕ → S → Result (List OutboxEvent)

-- The query of the poller returns rows of the outbox.
abbrev pub IsQuery : Query Order.Db → Type 0
IsQuery pending =
    (p : OutboxEvent → Bool) (n : ℕ) (s : Order.Db) (es : List OutboxEvent)
    → pending p n s ≡ ok es
    → All (λ e. In e s.outbox) es

-- A message that the broker has taken of a batch, and placed.
abbrev pub Taken : Format → (Message → Option Error) → List OutboxEvent → Message → Type 0
Taken f publish batch m =
    (e : OutboxEvent) × In e batch
    × (publish (to_message f e) ≡ none)
    × ((partition offset : ℕ) × (m ≡ placed f e partition offset))

pub data Step : World → World → Type 1 where
  -- createOrder, the numbers of the order that it answers within 53 bits, and its quantity not
  -- negative
  creates :
      (w : World) (sc : Order.Service)
      → Order.IsService sc
      → (a : Ambient) (validate : ℕ → Result Bool) (user_id : ℕ) (req : CreateOrderRequest)
      → ((o : Order) → (create_order sc a validate user_id req w.orders).0 ≡ ok o → IsFit o)
      → Step w (record w { orders = (create_order sc a validate user_id req w.orders).1 })
  -- What UpdateStatus does with what it has read at whatever time
  updates :
      (w : World) (sc : Order.Service)
      → Order.IsService sc
      → (a : Ambient) (to : OrderStatus) (read : Result Order)
      → Step w (record w { orders = (update_found sc a to read w.orders).1 })
  -- Whatever message of inventory-events, and of user-events
  hears_of_stock :
      (w : World) (sc : Order.Service)
      → Order.IsService sc
      → (a : Ambient) (msg : Message)
      → Step w (record w { orders = (handle_inventory_event sc a msg w.orders).1 })
  hears_of_users :
      (w : World) (sc : Order.Service)
      → Order.IsService sc
      → (a : Ambient) (msg : Message)
      → Step w (record w { orders = (handle_user_event sc a msg w.orders).1 })
  -- A tick of the poller of the order service. The broker has some messages of the batch that it
  -- took, also where the transaction is rolled back.
  polls :
      (w : World) (sc : Order.Service)
      → Order.IsService sc
      → (pending : Query Order.Db) → IsQuery pending
      → (f : Format) (publish : Message → Option Error) (now batch_size : ℕ)
        (batch : List OutboxEvent) (taken : List Message)
      → pending is_due batch_size w.orders ≡ ok batch
      → All (Taken f publish batch) taken
      → Step w (record w {
        orders = (tick sc.db sc.outbox pending f publish now batch_size w.orders).1;
        published = w.published ++ taken;
      })
  -- A message reaches the inventory service, for the first time or again
  delivers :
      (w : World) (sc : ℕ → Inventory.Service)
      → ((n : ℕ) → Inventory.IsService (sc n))
      → (a : ℕ → Ambient) (done : ℕ → Option Error) (msg : Message) → In msg w.published
      → Step w (record w { stock = (handle_order_event sc a done msg w.stock).1 })
  -- A tick of the poller of the inventory service
  reports :
      (w : World) (sc : Inventory.Service)
      → Inventory.IsService sc
      → (pending : Query Inventory.Db) (f : Format) (publish : Message → Option Error)
        (now batch_size : ℕ)
      → Step w
          (record w { stock = (tick sc.db sc.outbox pending f publish now batch_size w.stock).1 })

pub data Reach (w : World) : World → Type 1 where
  here : Reach w w
  next : {u v : World} → Reach w u → Step u v → Reach w v

-- Before the first order.
pub record IsFresh (w : World) : Type 0 where
  pub orders : w.orders.orders ≡ []
  pub outbox : w.orders.outbox ≡ []
  pub published : w.published ≡ []
  pub reservations : w.stock.reservations ≡ []
