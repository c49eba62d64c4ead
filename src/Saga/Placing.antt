-- ===== src/Saga/Placing.antt =====
-- From a request for an order to the stock.
use micro_go_lab.Base.{
  ℕ, zero, suc, ◌<◌, ◌≡◌, refl, sym, ap, false, Bool, Option, none, List, [], ◌∷◌, ◌++◌, ℤ, pos,
  negsuc, ◌≤ℤ◌, find, str_eq, subst, arith,
}
use micro_go_lab.Errors.{Error, Result, ok}
use micro_go_lab.Event.{pending, OrderCreatedData}
use micro_go_lab.Event.Json.{significands}
use micro_go_lab.Event.Delivery.{Fits}
use micro_go_lab.Idempotent.Once.{with_id}
use micro_go_lab.Outbox.{Ambient}
use micro_go_lab.Outbox.Poller.{Format, to_message}
use micro_go_lab.Retry.{Label}
use micro_go_lab.Inventory
use micro_go_lab.Inventory.Consumer.{handle_order_event}
use micro_go_lab.Inventory.Outcomes.{Outcome}
use micro_go_lab.Order
use micro_go_lab.Order.{Order, default_quantity}
use micro_go_lab.Order.Create.{CreateOrderRequest, create_order, created_event, new_order}
use micro_go_lab.Order.Create.Outcomes.{CreateOutcome, stored, create_order-CreateOutcome}
use micro_go_lab.Saga.{placed, created_data, IsSendable}
use micro_go_lab.Saga.Reserving.{Marks, created_row, created_message-Outcome}

-- A request as the validator passes it, at least one piece, with numbers within 53 bits.
pub record IsWanted (req : CreateOrderRequest) : Type 0 where
  pub some_pieces : pos 1 ≤ℤ req.quantity
  pub quantity : Fits req.quantity
  pub amount : Fits req.amount

-- What the inventory is told.
abbrev pub ordered : ℕ → ℕ → CreateOrderRequest → OrderCreatedData
ordered id user_id req = record {
  order_id = id;
  user_id = user_id;
  sku = req.sku;
  quantity = req.quantity;
  product_name = req.product_name;
  amount = req.amount;
  order_status = pending;
}

default_quantity-some : (q : ℤ) → pos 1 ≤ℤ q → default_quantity q ≡ q
unfolding default_quantity
default_quantity-some (pos zero) h = absurd (omega arith)
default_quantity-some (pos (suc n)) h = refl
default_quantity-some (negsuc n) h = refl

created_data-stored :
    (b : Ambient) (user_id id : ℕ) (req : CreateOrderRequest)
    → IsWanted req
    → created_data (stored b user_id req id) ≡ ordered id user_id req
unfolding new_order
created_data-stored b user_id id req w =
    ap (λ q. record (ordered id user_id req) { quantity = q })
      (default_quantity-some req.quantity w.some_pieces)

stored-IsSendable :
    (b : Ambient) (user_id id : ℕ) (req : CreateOrderRequest)
    → IsWanted req
    → user_id < significands
    → id < significands
    → IsSendable (stored b user_id req id)
unfolding new_order
stored-IsSendable b user_id id req w fits_user fits = record {
  id = fits;
  user_id = fits_user;
  quantity = rw (default_quantity-some req.quantity w.some_pieces) w.quantity;
  amount = w.amount;
  status = λ t h. cc;
}

-- The message does not tell the id of the row.
placed-created_row :
    (f : Format) (b : Ambient) (o : Order) (k p i : ℕ)
    → placed f (created_row b o k) p i ≡ placed f (created_event b o) p i
unfolding placed to_message
placed-created_row f b o k p i = refl

module _ (osc : Order.Service) (olaw : Order.IsService osc) (b : Ambient)
    (validate : ℕ → Result Bool) (user_id : ℕ) (req : CreateOrderRequest)
    (sc : ℕ → Inventory.Service) (law : (n : ℕ) → Inventory.IsService (sc n)) (a : ℕ → Ambient)
    (done : ℕ → Option Error) (f : Format) (p i : ℕ) where
  -- createOrder answers an order to a request for at least one piece, all numbers within 53 bits, and
  -- the inventory service handles the message of its event, placed anywhere, without an error,
  -- the event id being neither empty nor processed. Then the row of the event stands in the
  -- outbox of the order service, and one attempt of the inventory service has taken the
  -- requested quantity of the requested sku and holds it under the id of the order, and has
  -- appended the event that says so, or it has touched no stock and appended the event that the
  -- reservation failed; and the event id is marked.
  pub create_order-Outcome :
      (o : Order) (t t' : Order.Db) (s s' : Inventory.Db) (ls : List Label)
      → IsWanted req
      → user_id < significands
      → o.id < significands
      → str_eq b.uuid "" ≡ false
      → find (with_id b.uuid) s.processed ≡ none
      → create_order osc b validate user_id req t ≡ (ok o, t')
      → handle_order_event sc a done (placed f (created_event b o) p i) s ≡ (ok tt, s', ls)
      → (k n : ℕ) × (mid : Inventory.Db) × (t'.outbox ≡ t.outbox ++ created_row b o k ∷ [])
        × Outcome (a n) (ordered o.id user_id req) s (ok (tt, mid))
        × Marks b.uuid mid s'
  create_order-Outcome o t t' s s' ls w fits_user fits named fresh made handled =
      go (rw made at (create_order-CreateOutcome b user_id req osc olaw t validate))
    where
      go :
          CreateOutcome b user_id req t (ok o, t')
          → (k n : ℕ) × (mid : Inventory.Db) × (t'.outbox ≡ t.outbox ++ created_row b o k ∷ [])
            × Outcome (a n) (ordered o.id user_id req) s (ok (tt, mid))
            × Marks b.uuid mid s'
      go (id, k, same, _, put) =
          let number : o.id ≡ id = ap (λ x. x.id) same in
          let sendable : IsSendable o =
            subst IsSendable (sym same)
              (stored-IsSendable b user_id id req w fits_user (rw number at fits)) in
          let (n, mid, outcome, marks) =
            created_message-Outcome sc law a done f b o k p i s s' ls sendable named fresh
              (rw (placed-created_row f b o k p i) handled) in
          let told : created_data o ≡ ordered o.id user_id req =
            rw (same) (created_data-stored b user_id id req w) in
          (
            k,
            n,
            mid,
            rw (put, same) refl,
            subst (λ d. Outcome (a n) d s (ok (tt, mid))) told outcome,
            marks,
          )
