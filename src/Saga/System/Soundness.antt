-- ===== src/Saga/System/Soundness.antt =====
-- What holds between the two databases, whatever steps have led there.
use micro_go_lab.Base.{
  ℕ, ◌≡◌, refl, ap, sym, subst, inl, inr, Bool, true, false, Option, none, some, List, [], ◌∷◌,
  Exists, All, All-imply, All-Exists, All-append_list, All-update_where, find, arith, ◌==◌,
  Bool-cases,
}
use micro_go_lab.Errors.{Error}
use micro_go_lab.Outbox.{OutboxEvent}
use micro_go_lab.Outbox.Poller.{Format, to_message, tick}
use micro_go_lab.Outbox.Keeps.{KeepsMessage, tick-keeps}
use micro_go_lab.Stream.{Message}
use micro_go_lab.Inventory
use micro_go_lab.Inventory.{Reservation, released}
use micro_go_lab.Order
use micro_go_lab.Order.{Order}
use micro_go_lab.Event.{cancelled}
use micro_go_lab.Saga.{placed}
use micro_go_lab.Saga.Telling.{Asks, HasCancelled, Told, Tells, Tells-Evolves}
use micro_go_lab.Saga.Truthful.{IsTruthful, Continues, Continues-refl, DistinctIds}
use micro_go_lab.Saga.Ordering.{
  create_order-Continues, update_found-Continues, handle_inventory_event-Continues,
  handle_user_event-Continues,
}
use micro_go_lab.Saga.Backing.{IsBacked, All-IsBacked-Evolves, handle_order_event-IsBacked}
use micro_go_lab.Saga.System.{
  World, In, Query, Taken, Step, creates, updates, hears_of_stock, hears_of_users, polls, delivers,
  reports, Reach, here, next, IsFresh,
}

-- The outbox and the messages tell the truth, and the stock that is held is what was ordered.
pub record IsSound (w : World) : Type 0 where
  pub truthful : IsTruthful w.orders
  pub sent : All (λ m. Tells w.orders.orders m.value) w.published
  pub backed : All (IsBacked w.orders.orders) w.stock.reservations

-- The order service has gone on; the rest is as it was.
Continues-IsSound :
    (w : World) (s : Order.Db)
    → Continues w.orders s
    → IsSound w
    → IsSound (record w { orders = s })
Continues-IsSound w s (e, t) h = record {
  truthful = t;
  sent =
      All-imply w.published (λ m told. Tells-Evolves w.orders.orders s.orders e m.value told)
        h.sent;
  backed = All-IsBacked-Evolves w.orders.orders s.orders w.stock.reservations e h.backed;
}

-- The payload of a row is what its message carries.
Told-update :
    (os : List Order) (f : Format) (g : OutboxEvent → OutboxEvent) (e : OutboxEvent)
    → KeepsMessage g
    → Told os e
    → Told os (g e)
unfolding to_message
Told-update os f g e k h = subst (Tells os) (ap (λ m. m.value) (sym (k f e))) h

Taken-Tells :
    (os : List Order) (f : Format) (publish : Message → Option Error)
    (rows batch : List OutboxEvent) (m : Message)
    → All (Told os) rows
    → All (λ e. In e rows) batch
    → Taken f publish batch m
    → Tells os m.value
unfolding placed to_message
Taken-Tells os f publish rows batch m told query (e, there, _, (p, i, same)) =
    rw same (All-Exists (Told os) rows told (All-Exists (λ e. In e rows) batch query there))

polls-Continues :
    (sc : Order.Service) (law : Order.IsService sc) (pending : Query Order.Db) (f : Format)
    (publish : Message → Option Error) (now batch_size : ℕ) (s : Order.Db)
    → IsTruthful s
    → Continues s (tick sc.db sc.outbox pending f publish now batch_size s).1
polls-Continues sc law pending f publish now batch_size s t =
    tick-keeps Order.outbox_schema sc.db sc.outbox law.db law.outbox pending f publish now
      (Continues s)
      (λ p g s' k (e, t'). (
        e,
        record {
          distinct = t'.distinct;
          fits = t'.fits;
          told =
              All-update_where (Told s'.orders) p g s'.outbox
                (λ x _ h. Told-update s'.orders f g x k h) t'.told;
        },
      ))
      batch_size s (Continues-refl s t)

Step-IsSound : {w u : World} → Step w u → IsSound w → IsSound u
Step-IsSound (creates w sc law a validate user_id req fit) h =
    Continues-IsSound w _
      (create_order-Continues sc law a w.orders h.truthful validate user_id req fit) h
Step-IsSound (updates w sc law a to read) h =
    Continues-IsSound w _ (update_found-Continues sc law a w.orders h.truthful to read) h
Step-IsSound (hears_of_stock w sc law a msg) h =
    Continues-IsSound w _ (handle_inventory_event-Continues sc law a w.orders h.truthful msg) h
Step-IsSound (hears_of_users w sc law a msg) h =
    Continues-IsSound w _ (handle_user_event-Continues sc law a w.orders h.truthful msg) h
Step-IsSound (polls w sc law pending query f publish now n batch taken found took) h =
    let continues = polls-Continues sc law pending f publish now n w.orders h.truthful in
    let after = Continues-IsSound w _ continues h in
    let news : All (λ m. Tells w.orders.orders m.value) taken =
      All-imply taken
        (λ m t.
          Taken-Tells w.orders.orders f publish w.orders.outbox batch m h.truthful.told
            (query _ n w.orders batch found) t)
        took in
    record {
      truthful = after.truthful;
      sent =
          All-append_list
            (λ m. Tells (tick sc.db sc.outbox pending f publish now n w.orders).1.orders m.value)
            w.published taken after.sent
            (All-imply taken (λ m told. Tells-Evolves w.orders.orders _ continues.0 m.value told)
              news);
      backed = after.backed;
    }
Step-IsSound (delivers w sc law a done msg held) h = record {
  truthful = h.truthful;
  sent = h.sent;
  backed =
      handle_order_event-IsBacked w.orders.orders sc law a done msg w.stock
        (All-Exists (λ m. Tells w.orders.orders m.value) w.published h.sent held) h.backed;
}
Step-IsSound (reports w sc law pending f publish now n) h = record {
  truthful = h.truthful;
  sent = h.sent;
  backed =
      tick-keeps Inventory.outbox_schema sc.db sc.outbox law.db law.outbox pending f publish now
        (λ s. All (IsBacked w.orders.orders) s.reservations) (λ p g s k b. b) n w.stock h.backed;
}

pub IsFresh-IsSound : (w : World) → IsFresh w → IsSound w
IsFresh-IsSound w h = record {
  truthful = record { distinct = rw h.orders tt; fits = rw h.orders tt; told = rw h.outbox tt };
  sent = rw h.published tt;
  backed = rw h.reservations tt;
}

pub Reach-IsSound : {w u : World} → Reach w u → IsSound w → IsSound u
Reach-IsSound here h = h
Reach-IsSound (next r st) h = Step-IsSound st (Reach-IsSound r h)

not_among :
    (P : Order → Type 0) (p : Order → Bool) (os : List Order)
    → ((o : Order) → P o → p o ≡ true)
    → find p os ≡ none
    → Exists P os
    → true ≡ false
unfolding find
not_among P p [] h f e = e
not_among P p (o ∷ os) h f (inl p_o) = let hit = h o p_o in ground arith
not_among P p (o ∷ os) h f (inr later) = ground (arith, not_among P p os h _ later)

-- The look-up by the primary key finds the one order of the id.
find-Exists :
    (P : Order → Type 0) (i : ℕ) (os : List Order)
    → ((o : Order) → P o → o.id ≡ i)
    → DistinctIds os
    → Exists P os
    → (o : Order) × (find (λ q. q.id == i) os ≡ some o) × P o
unfolding find
find-Exists P i [] named d e = absurd (cc)
find-Exists P i (q ∷ os) named d e = elim (Bool-cases (q.id == i)) [
  | inl hit ↦ rw hit (q, refl, only e (ground arith))
  | inr miss ↦ rw miss (find-Exists P i os named d.1 (later e miss))
]
  where
    only : Exists P (q ∷ os) → q.id ≡ i → P q
    only (inl p) same = p
    only (inr there) same =
        let clash =
          not_among P (λ x. q.id == x.id) os (λ o p. let mine = named o p in ground arith) d.0
            there in
        absurd (cc)

    later : Exists P (q ∷ os) → (q.id == i) ≡ false → Exists P os
    later (inl p) miss = let same = named q p in absurd (ground arith)
    later (inr there) miss = there

-- The order of a reservation, by the look-up of its id.
abbrev pub Reflects : List Order → Reservation → Type 0
Reflects os r =
    (o : Order) × (find (λ q. q.id == r.order_id) os ≡ some o)
    × (o.sku ≡ r.sku)
    × (o.quantity ≡ r.quantity)
    × (r.status ≡ released → o.status ≡ cancelled)

IsBacked-Reflects :
    (os : List Order) (r : Reservation) → DistinctIds os → IsBacked os r → Reflects os r
IsBacked-Reflects os r d (asked, gone) =
    let (o, found, (_, sku, quantity)) =
      find-Exists (Asks r.order_id r.sku r.quantity) r.order_id os (λ q h. h.0) d asked in
    (
      o,
      found,
      sku,
      quantity,
      λ st.
          let (o', found', (_, cancels)) =
            find-Exists (HasCancelled r.order_id) r.order_id os (λ q h. h.0) d (gone st) in
          cc,
    )

-- From tables with no order, whatever requests, polls and deliveries follow one another, of services
-- whose statements may fail at any call, whatever is delivered late, twice, out of order or never:
-- each reservation of the inventory service is for the sku and the quantity of the order of its id,
-- and if it is released that order is cancelled. The requests that are answered with an order are
-- for a quantity that is not negative and below 2 ^ 53, and the order's id is below 2 ^ 53.
pub Reach-Reflects :
    (w u : World) → IsFresh w → Reach w u → All (Reflects u.orders.orders) u.stock.reservations
Reach-Reflects w u fresh r =
    let h = Reach-IsSound r (IsFresh-IsSound w fresh) in
    All-imply u.stock.reservations
      (λ x b. IsBacked-Reflects u.orders.orders x h.truthful.distinct b) h.backed
