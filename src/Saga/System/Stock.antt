-- ===== src/Saga/System/Stock.antt =====
-- The stock, whatever steps have led to it.
use micro_go_lab.Base.{ℕ, inl, inr, List, [], ◌∷◌, ◌≤ℤ◌, pos, ℤ, String, Exists, All, All-Exists}
use micro_go_lab.Inventory
use micro_go_lab.Inventory.Bounds.{
  IsSound, IsSellable, IsSound-IsSellable, handle_order_event-IsSound,
}
use micro_go_lab.Inventory.Stock.{IsBalanced}
use micro_go_lab.Outbox.Keeps.{tick-keeps}
use micro_go_lab.Order.{Order}
use micro_go_lab.Saga.Telling.{Asks, IsFit, Tells}
use micro_go_lab.Saga.System.{
  World, Step, creates, updates, hears_of_stock, hears_of_users, polls, delivers, reports, Reach,
  here, next, IsFresh,
}
use micro_go_lab.Saga.System.Soundness
use micro_go_lab.Saga.System.Soundness.{Reach-IsSound}

-- What some order asks for is not negative.
Asks-nonneg :
    (i : ℕ) (sku : String) (q : ℤ) (os : List Order)
    → All IsFit os
    → Exists (Asks i sku q) os
    → pos 0 ≤ℤ q
Asks-nonneg i sku q [] h e = absurd (cc)
Asks-nonneg i sku q (o ∷ os) (fit, fits) (inl (_, _, same)) = rw (← same) fit.2
Asks-nonneg i sku q (o ∷ os) (fit, fits) (inr later) = Asks-nonneg i sku q os fits later

Step-keeps_stock :
    {w u : World} → Step w u → Soundness.IsSound w → IsSound w.stock → IsSound u.stock
Step-keeps_stock (creates w sc law a validate user_id req fit) h k = k
Step-keeps_stock (updates w sc law a to read) h k = k
Step-keeps_stock (hears_of_stock w sc law a msg) h k = k
Step-keeps_stock (hears_of_users w sc law a msg) h k = k
Step-keeps_stock (polls w sc law pending query f publish now n batch taken found took) h k = k
Step-keeps_stock (delivers w sc law a done msg held) h k =
    let told : Tells w.orders.orders msg.value =
      All-Exists (λ m. Tells w.orders.orders m.value) w.published h.sent held in
    handle_order_event-IsSound sc law a done msg w.stock
      (λ e r d created read.
        Asks-nonneg d.order_id d.sku d.quantity w.orders.orders h.truthful.fits
          ((told e r).0 d created read))
      k
Step-keeps_stock (reports w sc law pending f publish now n) h k =
    tick-keeps Inventory.outbox_schema sc.db sc.outbox law.db law.outbox pending f publish now
      IsSound (λ p g s kept c. c) n w.stock k

Reach-keeps_stock :
    {w u : World} → Reach w u → Soundness.IsSound w → IsSound w.stock → IsSound u.stock
Reach-keeps_stock here h k = k
Reach-keeps_stock (next r st) h k =
    Step-keeps_stock st (Reach-IsSound r h) (Reach-keeps_stock r h k)

-- From tables with no order and a stock that is consistent and free of negative numbers, whatever
-- requests, polls and deliveries follow one another, of services whose statements may fail at any
-- call, whatever is delivered late, twice, out of order or never: of every product
-- 0 ≤ available ≤ total, and what is available and what is reserved add up to the total. The
-- requests that are answered with an order are for a quantity that is not negative and below
-- 2 ^ 53, and the order's id is below 2 ^ 53.
pub Reach-IsSellable :
    (w u : World)
    → IsFresh w
    → IsSound w.stock
    → Reach w u
    → All IsSellable u.stock.products × All (IsBalanced u.stock.reservations) u.stock.products
Reach-IsSellable w u fresh stock r =
    let end = Reach-keeps_stock r (Soundness.IsFresh-IsSound w fresh) stock in
    (IsSound-IsSellable u.stock end, end.0.balanced)
