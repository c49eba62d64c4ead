-- ===== src/Order/Consumer/Outcomes.antt =====
-- What the handler of reservation.failed leaves behind, and the tables that it keeps.
use micro_go_lab.Base.{
  ℕ, ◌≡◌, ◌≢◌, ◌⊎◌, refl, inl, inr, true, false, List, eq_iff, arith, Option, none, some, [], ◌∷◌,
  ◌++◌, find, update_where, ◌==◌, Bool-cases,
}
use micro_go_lab.Errors.{Result, ok, err, ◌>>=◌ as bind, is_record_not_found}
use micro_go_lab.Sql.{Created, Firsted}
use micro_go_lab.Sql.Keeps.{Keeps}
use micro_go_lab.Event.{
  EventType, OrderStatus, reservation_failed, pending, cancelled, out_of_stock,
  ReservationFailedData,
}
use micro_go_lab.Event.Json.{Object}
use micro_go_lab.Event.Codec.{status_text, unmarshal_failed}
use micro_go_lab.Outbox.{Ambient, OutboxEvent, insert}
use micro_go_lab.Stream.{Message}
use micro_go_lab.Order.{Order, Db, Service, IsService, outbox_schema, orders_schema}
use micro_go_lab.Order.Repository.{versioned, set_cancelled, same_status, cancel}
use micro_go_lab.Order.Update.{cancelled_event}
use micro_go_lab.Order.Update.Outcomes.{Cancels, cancel-Cancels}
use micro_go_lab.Order.Steps.{
  Evolves, Evolves-refl, update_where-Evolves, versioned-IsPending, is_cancelled,
}
use micro_go_lab.Order.Consumer.Keeps.{consume-keeps}
use micro_go_lab.Order.Consumer.{
  failed_written, failed_found, handle_reservation_failed, dispatch, handle_inventory_event,
}

module _ (a : Ambient) where
  -- One order that was pending is cancelled for want of stock, and the outbox says so; or there
  -- is no pending order of the id, and nothing is written.
  abbrev pub FailedOutcome : ℕ → Db → Result (Unit {0} × Db) → Type 0
  FailedOutcome i s (err e) = Unit
  FailedOutcome i s (ok (_, s')) =
      ((s' ≡ s)
        × ((find (λ q. q.id == i) s.orders ≡ none)
            ⊎ ((o : Order) × (find (λ q. q.id == i) s.orders ≡ some o)
                × (same_status o.status pending ≡ false))))
      ⊎ ((o o' : Order) × (k : ℕ) × (find (λ q. q.id == i) s.orders ≡ some o)
          × (find (versioned o.user_id o.id pending o.version) s.orders ≢ none)
          × (find (λ q. q.id == o.id) s'.orders ≡ some o')
          × (s' ≡ record s {
            orders =
                update_where (versioned o.user_id o.id pending o.version)
                  (set_cancelled out_of_stock) s.orders;
            outbox = s.outbox ++ record (cancelled_event a o' out_of_stock) { id = k } ∷ [];
          }))

  not_both : (t : OrderStatus) → same_status t cancelled ≡ true → same_status t pending ≡ false
  unfolding same_status status_text
  not_both t h =
      let same : status_text t ≡ "cancelled" = (eq_iff (status_text t) "cancelled").0 h in
      rw same refl

  no_match :
      (os : List Order) (o : Order) (i : ℕ)
      → find (λ q. q.id == i) os ≡ some o
      → find (versioned o.user_id o.id pending o.version) os ≡ none
      → same_status o.status pending ≡ false
  unfolding find versioned
  no_match [] o i f n = cc
  no_match (q ∷ os) o i f n = ground (arith, no_match os o i)

  FailedOutcome-Evolves :
      (i : ℕ) (s : Db) (r : Result (Unit {0} × Db))
      → FailedOutcome i s r
      → Keeps (λ s'. Evolves s.orders s'.orders) r
  FailedOutcome-Evolves i s (err e) k = tt
  FailedOutcome-Evolves i s (ok (_, s')) (inl (same, _)) = rw same (Evolves-refl s.orders)
  FailedOutcome-Evolves i s (ok (_, s')) (inr (o, o', k, here, found, read, e)) = rw e (
      update_where-Evolves (versioned o.user_id o.id pending o.version) (set_cancelled out_of_stock)
        s.orders
        (λ q h. is_cancelled out_of_stock (versioned-IsPending o.user_id o.id o.version q h) refl))

module _ (sc : Service) (law : IsService sc) (a : Ambient) where
  failed_written-FailedOutcome :
      (i : ℕ) (s : Db) (o : Order) (r : Result (Option Order × Db))
      → find (λ q. q.id == i) s.orders ≡ some o
      → Cancels o.user_id o.id o.version out_of_stock s r
      → FailedOutcome a i s (bind r (λ x. failed_written sc a x.0 x.1))
  unfolding failed_written insert
  failed_written-FailedOutcome i s o (err e) here k = tt
  failed_written-FailedOutcome i s o (ok (none, s')) here (same, unmatched) =
      inl (same, inr (o, here, no_match a s.orders o i here unmatched))
  failed_written-FailedOutcome i s o (ok (some o', s')) here (found, read, e) =
      go (sc.outbox.create (cancelled_event a o' out_of_stock) s')
        (law.outbox.create_law (cancelled_event a o' out_of_stock) s')
    where
      go :
          (r : Result (OutboxEvent × Db))
          → Created outbox_schema (cancelled_event a o' out_of_stock) s' r
          → FailedOutcome a i s (bind {B = Unit {0} × Db} r (λ x. ok (tt, x.1)))
      go (err x) c = tt
      go (ok (e', t)) (k, same, _, put) =
          inr (o, o', k, here, found, rw put read, rw (put, e, same) refl)

  failed_found-FailedOutcome :
      (i : ℕ) (s : Db) (r : Result Order)
      → Firsted orders_schema (λ q. q.id == i) s r
      → FailedOutcome a i s (failed_found sc a r s)
  unfolding failed_found
  failed_found-FailedOutcome i s (err x) f = elim (Bool-cases (is_record_not_found x)) [
    | inl absent ↦ rw absent (inl (refl, inl (f absent)))
    | inr failed ↦ rw failed tt
  ]
  failed_found-FailedOutcome i s (ok o) f = elim (Bool-cases (same_status o.status cancelled)) [
    | inl already ↦ rw already (inl (refl, inr (o, f, not_both a o.status already)))
    | inr live ↦ rw live (
        failed_written-FailedOutcome i s o (cancel sc o.user_id o.id o.version out_of_stock s) f
          (cancel-Cancels sc law o.user_id o.id o.version out_of_stock s))
  ]

  -- Where the handler of reservation.failed returns, it has cancelled a pending order, the one
  -- that the event names, and appended the order.cancelled event that makes the inventory release
  -- what it holds; or there is no pending order of that id, and it has written nothing.
  pub handle_reservation_failed-FailedOutcome :
      (body : Object) (d : ReservationFailedData) (s : Db)
      → unmarshal_failed body ≡ ok d
      → FailedOutcome a d.order_id s (handle_reservation_failed sc a body s)
  unfolding handle_reservation_failed
  handle_reservation_failed-FailedOutcome body d s e =
      rw (e, handle_reservation_failed)
        (failed_found-FailedOutcome d.order_id s (sc.orders.first (λ o. o.id == d.order_id) s)
          (law.orders.first_law (λ o. o.id == d.order_id) s))

  handle_reservation_failed-Evolves :
      (body : Object) (s : Db)
      → Keeps (λ s'. Evolves s.orders s'.orders) (handle_reservation_failed sc a body s)
  unfolding handle_reservation_failed
  handle_reservation_failed-Evolves body s = go (unmarshal_failed body) refl
    where
      go :
          (r : Result ReservationFailedData)
          → unmarshal_failed body ≡ r
          → Keeps (λ s'. Evolves s.orders s'.orders) (handle_reservation_failed sc a body s)
      go (err x) e = rw (e, handle_reservation_failed) tt
      go (ok d) e =
          FailedOutcome-Evolves a d.order_id s (handle_reservation_failed sc a body s)
            (handle_reservation_failed-FailedOutcome body d s e)

  dispatch-Evolves :
      (t : EventType) (body : Object) (s : Db)
      → Keeps (λ s'. Evolves s.orders s'.orders) (dispatch sc a t body s)
  unfolding dispatch
  dispatch-Evolves reservation_failed body s = handle_reservation_failed-Evolves body s
  dispatch-Evolves _ body s = Evolves-refl s.orders

  -- Whatever message arrives on inventory-events, and whatever statements fail: orders move by legal
  -- steps alone.
  pub handle_inventory_event-Evolves :
      (msg : Message) (s : Db) → Evolves s.orders (handle_inventory_event sc a msg s).1.orders
  unfolding handle_inventory_event
  handle_inventory_event-Evolves msg s =
      consume-keeps sc law a (λ s'. Evolves s.orders s'.orders) (λ s' es k. k)
        (λ e. dispatch sc a e.event e.body) msg s (Evolves-refl s.orders)
        (λ e. dispatch-Evolves e.event e.body s)
