-- ===== src/Saga/Backing.antt =====
-- What the inventory service holds, held against the orders of the order service.
use micro_go_lab.Base.{
  ℕ, ◌≡◌, inl, inr, List, Exists, All, arith, All-imply, All-append, All-update_where, Option,
}
use micro_go_lab.Errors.{Error, Result, ok, err}
use micro_go_lab.Sql.Keeps.{Keeps}
use micro_go_lab.Event.{OrderCreatedData}
use micro_go_lab.Outbox.{Ambient}
use micro_go_lab.Stream.{Message}
use micro_go_lab.Inventory.{Db, Reservation, reserved, released, Service, IsService}
use micro_go_lab.Inventory.Keys.{active_of, set_released}
use micro_go_lab.Inventory.Effects.{
  Reserves, Releases, reservation, reserve-Reserves, release-Releases,
}
use micro_go_lab.Inventory.Handling.{Kept, handle_order_event-Kept}
use micro_go_lab.Inventory.Consumer.{handle_order_event}
use micro_go_lab.Order.{Order}
use micro_go_lab.Order.Steps.{Evolves}
use micro_go_lab.Saga.Telling.{Asks, HasCancelled, Tells, Asks-Evolves, HasCancelled-Evolves}

-- The reservation is what some order asks for; if it is released, the order of its id is cancelled.
abbrev pub IsBacked : List Order → Reservation → Type 0
IsBacked os r =
    Exists (Asks r.order_id r.sku r.quantity) os
    × (r.status ≡ released → Exists (HasCancelled r.order_id) os)

pub All-IsBacked-Evolves :
    (os os' : List Order) (rs : List Reservation)
    → Evolves os os'
    → All (IsBacked os) rs
    → All (IsBacked os') rs
All-IsBacked-Evolves os os' rs e h =
    All-imply rs
      (λ r b. (
        Asks-Evolves os os' e r.order_id r.sku r.quantity b.0,
        λ gone. HasCancelled-Evolves os os' e r.order_id (b.1 gone),
      ))
      h

module _ (os : List Order) where
  Holds : Db → Type 0
  Holds s = All (IsBacked os) s.reservations

  Reserves-Holds :
      (d : OrderCreatedData) (s : Db) (r : Result (ℕ × Db))
      → Exists (Asks d.order_id d.sku d.quantity) os
      → Reserves d.order_id d.sku d.quantity s r
      → Holds s
      → Keeps Holds r
  unfolding Holds
  Reserves-Holds d s (err e) asked h b = tt
  Reserves-Holds d s (ok (n, s')) asked (inl (_, same)) b = rw same b
  Reserves-Holds d s (ok (n, s')) asked (inr (id, _, f, fresh, e)) b =
      let row = reservation id d.order_id d.sku d.quantity in
      rw e (
        All-append (IsBacked os) s.reservations row b
          (asked, λ gone. let other : reserved ≡ released = gone in absurd (cc)))

  Releases-Holds :
      (i : ℕ) (s : Db) (r : Result (ℕ × Db))
      → Exists (HasCancelled i) os
      → Releases i s r
      → Holds s
      → Keeps Holds r
  unfolding Holds
  Releases-Holds i s (err e) cancelled h b = tt
  Releases-Holds i s (ok (n, s')) cancelled (res, f, inl (_, _, same)) b = rw same b
  Releases-Holds i s (ok (n, s')) cancelled (res, f, inr (_, act, e)) b = rw e (
      All-update_where (IsBacked os) (active_of i) set_released s.reservations
        (λ r hit held.
          (held.0, λ gone. let same : r.order_id ≡ i = ground arith in rw same cancelled))
        b)

  Holds-Kept :
      Kept
        (λ d. Exists (Asks d.order_id d.sku d.quantity) os)
        (λ i. Exists (HasCancelled i) os)
        Holds
  unfolding Holds
  Holds-Kept = record {
    by_reserve = λ sc d s law asked b.
        Reserves-Holds d s _ asked (reserve-Reserves sc law d.order_id d.sku d.quantity s) b;
    by_release =
        λ sc i s law cancelled b. Releases-Holds i s _ cancelled (release-Releases sc law i s) b;
    by_outbox = λ s es b. b;
    by_processed = λ s es b. b;
  }

  -- The whole handler, on a message that tells the truth.
  pub handle_order_event-IsBacked :
      (sc : ℕ → Service) (law : (n : ℕ) → IsService (sc n)) (a : ℕ → Ambient)
      (done : ℕ → Option Error) (msg : Message) (s : Db)
      → Tells os msg.value
      → All (IsBacked os) s.reservations
      → All (IsBacked os) (handle_order_event sc a done msg s).1.reservations
  unfolding Holds
  handle_order_event-IsBacked sc law a done msg s told b =
      handle_order_event-Kept _ _ Holds Holds-Kept sc law a done msg s told b
