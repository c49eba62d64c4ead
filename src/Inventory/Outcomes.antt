-- ===== src/Inventory/Outcomes.antt =====
-- What the handler of order.created leaves behind, on each way that it ends.
use micro_go_lab.Base.{
  ℕ, ℤ, String, Bool-cases, ◌≡◌, ◌≢◌, ◌⊎◌, inl, inr, true, none, [], ◌∷◌, ◌++◌, find, update_where,
}
use micro_go_lab.Errors.{Error, Result, ok, err, ◌>>=◌ as bind, is_record_not_found}
use micro_go_lab.Sql.{Created}
use micro_go_lab.Event.{
  EventType, OrderCreatedData, inventory_reserved, reservation_failed, out_of_stock,
  inventory_events,
}
use micro_go_lab.Event.Json.{Object}
use micro_go_lab.Event.Codec.{Payload, marshal, reserved, failed, unmarshal_created}
use micro_go_lab.Outbox.{Ambient, OutboxEvent, new_event, insert}
use micro_go_lab.Inventory.{Db, Reservation, Service, IsService, outbox_schema}
use micro_go_lab.Inventory.Keys.{stocked, decrement, of_order}
use micro_go_lab.Inventory.Repository.{
  reserve, reserve_ordered, reserve_reversed, reserve_locked, reserve_decremented,
  decrement_available, decrement_err,
}
use micro_go_lab.Inventory.Effects.{Reserves, reservation, reserve-Reserves}
use micro_go_lab.Inventory.Consumer.{write_outbox, report, handle_order_created}

-- A locking read of the reservation that finds a row or finds none, and does not fail.
abbrev pub GoesOn : Result Reservation → Type 0
GoesOn (ok existing) = Unit
GoesOn (err e) = is_record_not_found e ≡ true

module _ (a : Ambient) (d : OrderCreatedData) where
  -- The pending event that reports an outcome, as it stands in the outbox under an id.
  abbrev pub reports : EventType → Payload → ℕ → OutboxEvent
  reports t p id =
      let e : OutboxEvent =
        new_event a inventory_events d.order_id
          (record { event = t; version = 1; occurred_at = a.now; body = marshal p }) in
      record e { id = id }

  abbrev pub reserved_event : ℕ → OutboxEvent
  reserved_event = reports inventory_reserved (reserved (record { order_id = d.order_id }))

  abbrev pub failed_event : ℕ → OutboxEvent
  failed_event =
      reports reservation_failed (failed (record { order_id = d.order_id; reason = out_of_stock }))

  -- The quantity is taken, an active reservation stands for it, and the outbox says so; or no
  -- stock is touched, and the outbox says that the reservation failed.
  abbrev pub Outcome : Db → Result (Unit {0} × Db) → Type 0
  Outcome s (err e) = Unit
  Outcome s (ok (_, s')) =
      ((id : ℕ) × (k : ℕ) × (find (stocked d.sku d.quantity) s.products ≢ none)
        × (find (of_order d.order_id) s.reservations ≡ none)
        × (s' ≡ record s {
          products = update_where (stocked d.sku d.quantity) (decrement d.quantity) s.products;
          reservations = s.reservations ++ reservation id d.order_id d.sku d.quantity ∷ [];
          outbox = s.outbox ++ reserved_event k ∷ [];
        }))
      ⊎ ((k : ℕ) × (s' ≡ record s { outbox = s.outbox ++ failed_event k ∷ [] }))

module _ (sc : Service) (law : IsService sc) (a : Ambient) where
  -- One event is appended to the outbox, and nothing else is written.
  abbrev Appends : OutboxEvent → Db → Result (Unit {0} × Db) → Type 0
  Appends e s (err x) = Unit
  Appends e s (ok (_, s')) =
      (k : ℕ) × (s' ≡ record s { outbox = s.outbox ++ record e { id = k } ∷ [] })

  insert-Appends : (e : OutboxEvent) (s : Db) → Appends e s (insert sc.outbox e s)
  unfolding insert
  insert-Appends e s = go (sc.outbox.create e s) (law.outbox.create_law e s)
    where
      go :
          (r : Result (OutboxEvent × Db))
          → Created outbox_schema e s r
          → Appends e s (bind {B = Unit {0} × Db} r (λ x. ok (tt, x.1)))
      go (ok (e', t)) (k, same, _, put) = (k, rw (put, same))
      go (err x) c = tt

  taken-Outcome :
      (d : OrderCreatedData) (s s' : Db) (id : ℕ) (r : Result (Unit {0} × Db))
      → find (stocked d.sku d.quantity) s.products ≢ none
      → find (of_order d.order_id) s.reservations ≡ none
      → s' ≡ record s {
        products = update_where (stocked d.sku d.quantity) (decrement d.quantity) s.products;
        reservations = s.reservations ++ reservation id d.order_id d.sku d.quantity ∷ [];
      }
      → Appends (reserved_event a d 0) s' r
      → Outcome a d s r
  taken-Outcome d s s' id (err x) f fresh e h = tt
  taken-Outcome d s s' id (ok (_, t)) f fresh e (k, put) = inl (id, k, f, fresh, rw (put, e))

  untouched-Outcome :
      (d : OrderCreatedData) (s s' : Db) (r : Result (Unit {0} × Db))
      → s' ≡ s
      → Appends (failed_event a d 0) s' r
      → Outcome a d s r
  untouched-Outcome d s s' (err x) e h = tt
  untouched-Outcome d s s' (ok (_, t)) e (k, put) = inr (k, rw (put, e))

  report-Outcome :
      (d : OrderCreatedData) (s : Db) (r : Result (ℕ × Db))
      → Reserves d.order_id d.sku d.quantity s r
      → Outcome a d s (bind {B = Unit {0} × Db} r (λ y. report sc a d.order_id y.0 y.1))
  unfolding report write_outbox new_event
  report-Outcome d s (err x) h = tt
  report-Outcome d s (ok (n, s')) (inl (zero_affected, same)) =
      rw zero_affected (untouched-Outcome d s s' _ same (insert-Appends (failed_event a d 0) s'))
  report-Outcome d s (ok (n, s')) (inr (id, one, f, fresh, e)) =
      rw one (taken-Outcome d s s' id _ f fresh e (insert-Appends (reserved_event a d 0) s'))

  -- Where the handler of order.created returns, it has taken the stock, stored an active
  -- reservation and appended the event that says so; or it has touched no stock and appended the
  -- event that the reservation failed.
  pub handle_order_created-Outcome :
      (body : Object) (d : OrderCreatedData) (s : Db)
      → unmarshal_created body ≡ ok d
      → Outcome a d s (handle_order_created sc a body s)
  unfolding handle_order_created
  handle_order_created-Outcome body d s e =
      rw (e, handle_order_created)
        (report-Outcome d s _ (reserve-Reserves sc law d.order_id d.sku d.quantity s))

  reserve-decrement_error :
      (order_id : ℕ) (sku : String) (qty : ℤ) (s : Db) (x : Error)
      → GoesOn (sc.reservations.first (of_order order_id) s)
      → sc.products.update (stocked sku qty) (decrement qty) s ≡ err x
      → reserve sc order_id sku qty s ≡ ok (0, s)
  unfolding reserve reserve_ordered reserve_reversed reserve_locked reserve_decremented
      decrement_available decrement_err
  reserve-decrement_error order_id sku qty s x goes_on failure =
      elim (Bool-cases sc.bug_db_deadlock) [
        | inl reversed ↦ simp (reversed, failure, law.db.tx_error_law)
        | inr ordered ↦ rw ordered (read (sc.reservations.first (of_order order_id) s) goes_on)
      ]
    where
      read :
          (r : Result Reservation) → GoesOn r → reserve_locked sc order_id sku qty r s ≡ ok (0, s)
      read (ok existing) k = simp (failure, law.db.tx_error_law)
      read (err e) k = simp (k, failure, law.db.tx_error_law)

  -- An UPDATE of the stock that fails, by a deadlock too, and with BUG_DB_DEADLOCK set or not, where
  -- the locking read of the reservation does not fail: the handler goes on as for an order out of
  -- stock and inserts that event, since the error stands in the result of the statement and
  -- decrementErr asks the handle of the transaction.
  pub handle_order_created-decrement_error :
      (body : Object) (d : OrderCreatedData) (s : Db) (x : Error)
      → unmarshal_created body ≡ ok d
      → GoesOn (sc.reservations.first (of_order d.order_id) s)
      → sc.products.update (stocked d.sku d.quantity) (decrement d.quantity) s ≡ err x
      → handle_order_created sc a body s ≡ insert sc.outbox (failed_event a d 0) s
  unfolding handle_order_created report write_outbox new_event
  handle_order_created-decrement_error body d s x e goes_on failure =
      simp (e, reserve-decrement_error d.order_id d.sku d.quantity s x goes_on failure)
