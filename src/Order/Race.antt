-- ===== src/Order/Race.antt =====
-- Two requests for one order.
use micro_go_lab.Base.{◌≡◌, refl}
use micro_go_lab.Errors.{Error, Result, ok, err}
use micro_go_lab.Event.{OrderStatus}
use micro_go_lab.Outbox.{Ambient}
use micro_go_lab.Order.{Order, Db, Service, IsService}
use micro_go_lab.Order.Update.{update_found}
use micro_go_lab.Order.Steps.{Advances, update_found-Advances}

-- Of two requests that have read the same order, to pay or to cancel it, one succeeds at most: when
-- the first has, the second is refused and writes nothing.
pub update_found-one_winner :
    (sc sc' : Service) (law : IsService sc) (law' : IsService sc') (a a' : Ambient)
    (to to' : OrderStatus) (o won : Order) (s s' s'' : Db) (r : Result Order)
    → update_found sc a to (ok o) s ≡ (ok won, s')
    → update_found sc' a' to' (ok o) s' ≡ (r, s'')
    → (s'' ≡ s') × ((e : Error) × (r ≡ err e))
update_found-one_winner sc sc' law law' a a' to to' o won s s' s'' r e e' =
    go r (rw e at (update_found-Advances sc law a to o s))
      (rw e' at (update_found-Advances sc' law' a' to' o s'))
  where
    go :
        (r : Result Order)
        → Advances o s (ok won, s')
        → Advances o s' (r, s'')
        → (s'' ≡ s') × ((e : Error) × (r ≡ err e))
    go (err x) first second = (second, (x, refl))
    go (ok also) (_, gone, _) (found, _, _) = absurd (found gone)
