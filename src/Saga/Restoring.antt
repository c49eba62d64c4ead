-- ===== src/Saga/Restoring.antt =====
-- From a cancellation in the order service to the stock.
use micro_go_lab.Base.{
  ℕ, ◌≡◌, ◌⊎◌, ◌<◌, ◌∙◌, Bool-cases, inl, inr, false, Option, none, some, List, find, str_eq,
  update_where,
}
use micro_go_lab.Errors.{Error, Result, ok, err, err_ne_ok, is_record_not_found}
use micro_go_lab.Event.Json.{Object, significands}
use micro_go_lab.Event.{OrderCancelledData, Reason}
use micro_go_lab.Event.Codec.{unmarshal_cancelled}
use micro_go_lab.Event.Delivery.{Fits, IsKnownReason, unmarshal-marshal_cancelled}
use micro_go_lab.Idempotent.Once.{with_id}
use micro_go_lab.Outbox.{Ambient}
use micro_go_lab.Outbox.Poller.{Format}
use micro_go_lab.Retry.{Label}
use micro_go_lab.Stream.{header}
use micro_go_lab.Inventory.{Db, Service, IsService, Reservation, reserved, released}
use micro_go_lab.Inventory.Keys.{of_order, active_of, set_released, increment}
use micro_go_lab.Inventory.Repository.{release}
use micro_go_lab.Inventory.Effects.{Releases, release-Releases}
use micro_go_lab.Inventory.Consumer.{
  dispatch, handle_order_event, handle_order_cancelled, released_or_absent,
}
use micro_go_lab.Order.{Order}
use micro_go_lab.Saga.{placed, cancelled_data}
use micro_go_lab.Saga.Delivered.{handle_order_event-ProcessedAt}
use micro_go_lab.Saga.Reserving.{
  Marks, cancelled_row, cancelled_envelope, header-placed, placed-cancelled, uuid-cancelled,
}

-- The order held no stock and the tables are as they were, or its active reservation is released
-- and the quantity is back in the stock.
abbrev pub Restores : ℕ → Db → Db → Type 0
Restores i s mid =
    ((mid ≡ s)
      × ((find (of_order i) s.reservations ≡ none)
          ⊎ ((q : Reservation) × (find (of_order i) s.reservations ≡ some q)
              × (q.status ≡ released))))
    ⊎ ((q : Reservation) × (find (of_order i) s.reservations ≡ some q)
        × (q.status ≡ reserved)
        × (mid ≡ record s {
          products = update_where (λ x. str_eq x.sku q.sku) (increment q.quantity) s.products;
          reservations = update_where (active_of i) set_released s.reservations;
        }))

-- The handler of order.cancelled, where it returns.
handle_order_cancelled-Restores :
    (sc : Service) (law : IsService sc) (a : Ambient) (body : Object) (c : OrderCancelledData)
    (s s' : Db)
    → unmarshal_cancelled body ≡ ok c
    → handle_order_cancelled sc a body s ≡ ok (tt, s')
    → Restores c.order_id s s'
unfolding handle_order_cancelled
handle_order_cancelled-Restores sc law a body c s s' e h =
    go (release sc c.order_id s) (release-Releases sc law c.order_id s)
      (rw (e, handle_order_cancelled) at h)
  where
    go :
        (r : Result (ℕ × Db))
        → Releases c.order_id s r
        → released_or_absent sc a s r ≡ ok (tt, s')
        → Restores c.order_id s s'
    go (ok (n, t)) (res, g, inl (_, st, same)) h =
        let last : s' ≡ t = cc in inl (last ∙ same, inr (res, g, st))
    go (ok (n, t)) (res, g, inr (_, st, put)) h =
        let last : s' ≡ t = cc in inr (res, g, st, last ∙ put)
    go (err x) g h = elim (Bool-cases (is_record_not_found x)) [
      | inl absent ↦
          let k : ◌≡◌ {A = Result (Unit {0} × Db)} (ok (tt, s)) (ok (tt, s')) = rw absent at h in
          inl ((cc), inl (g absent))
      | inr failed ↦ err_ne_ok x (tt, s') (rw failed at h)
    ]

module _ (sc : ℕ → Service) (law : (n : ℕ) → IsService (sc n)) (a : ℕ → Ambient)
    (done : ℕ → Option Error) (f : Format) (b : Ambient) (o : Order) (why : Reason)
    (k p i : ℕ) where
  -- The outbox row of an order.cancelled event, as cancelOrder and handleReservationFailed build
  -- it, of an order whose id and quantity are within 53 bits, with one of the reasons or none, is
  -- published and placed anywhere. If its event id is not empty and not among the processed ones
  -- and the inventory service handles the message without an error, then the order held no
  -- active reservation and nothing but the mark of the event is written; or its active reservation
  -- is released, its quantity is given back to its sku, and the event id is marked.
  pub cancelled_message-Restores :
      (s s' : Db) (ls : List Label)
      → o.id < significands
      → Fits o.quantity
      → IsKnownReason why
      → str_eq b.uuid "" ≡ false
      → find (with_id b.uuid) s.processed ≡ none
      → handle_order_event sc a done (placed f (cancelled_row b o why k) p i) s ≡ (ok tt, s', ls)
      → (mid : Db) × Restores o.id s mid × Marks b.uuid mid s'
  unfolding dispatch
  cancelled_message-Restores s s' ls fits_id fits known named fresh h =
      let here : header "event_id" (placed f (cancelled_row b o why k) p i).headers ≡ b.uuid =
        rw (header-placed f (cancelled_row b o why k) p i) (uuid-cancelled b o why k) in
      let (n, (mid, row, ran, marked, put)) =
        handle_order_event-ProcessedAt sc law a done (placed f (cancelled_row b o why k) p i)
          (cancelled_envelope b o why) s s' ls (rw here named) (placed-cancelled f b o why k p i)
          (rw here fresh) h in
      let arrives : unmarshal_cancelled (cancelled_envelope b o why).body
          ≡ ok (cancelled_data o why) =
        unmarshal-marshal_cancelled (cancelled_data o why) fits_id fits known in
      (
        mid,
        handle_order_cancelled-Restores (sc n) (law n) (a n) (cancelled_envelope b o why).body
            (cancelled_data o why) s mid arrives ran,
        (row, rw here at marked, put),
      )
