-- ===== src/Saga/Refusing.antt =====
-- From a want of stock back to the order: the event that a reservation failed, as the order service
-- handles it.
use micro_go_lab.Base.{
  ℕ, ◌<◌, ◌≡◌, refl, inl, inr, Bool, Bool-cases, true, false, none, some, List, [], ◌∷◌, ◌++◌, find,
  update_where, str_eq, ◌==◌, ==_iff, find-holds, arith,
}
use micro_go_lab.Errors.{Result, ok, err}
use micro_go_lab.Sql.{Tx}
use micro_go_lab.Event.{
  pending, out_of_stock, reservation_failed, OrderCreatedData, ReservationFailedData,
}
use micro_go_lab.Event.Json.{any_object, significands}
use micro_go_lab.Event.Codec.{Envelope, marshal, failed, unmarshal_envelope}
use micro_go_lab.Event.Delivery.{unmarshal-marshal_failed}
use micro_go_lab.Idempotent.{process}
use micro_go_lab.Idempotent.Once.{IsProcessedTable, with_id}
use micro_go_lab.Idempotent.First.{Processes, process-Processes}
use micro_go_lab.Outbox.{Ambient, new_event}
use micro_go_lab.Outbox.Poller.{Format, to_message}
use micro_go_lab.Stream.{Message, header}
use micro_go_lab.Inventory.Outcomes.{failed_event}
use micro_go_lab.Order.{Order, Db, Service, IsService, processed_schema}
use micro_go_lab.Order.Repository.{same_status, versioned, set_cancelled}
use micro_go_lab.Order.Update.{cancelled_event}
use micro_go_lab.Order.Consumer.{dispatch, settle, handle_inventory_event}
use micro_go_lab.Order.Consumer.Outcomes.{FailedOutcome, handle_reservation_failed-FailedOutcome}
use micro_go_lab.Saga.{placed}
use micro_go_lab.Saga.Reserving.{header-placed}

processed : IsProcessedTable processed_schema
processed = record { rows-put = λ rs s. refl; assign_id = λ i e. refl }

-- What the event says, and what json.Unmarshal makes of its envelope.
abbrev failed_data : ℕ → ReservationFailedData
failed_data i = record { order_id = i; reason = out_of_stock }

abbrev failed_envelope : Ambient → ℕ → Envelope
failed_envelope b i = record {
  event = reservation_failed;
  version = 1;
  occurred_at = b.now;
  body = any_object (marshal (failed (failed_data i)));
}

placed-failed :
    (f : Format) (b : Ambient) (d : OrderCreatedData) (k p i : ℕ)
    → unmarshal_envelope (placed f (failed_event b d k) p i).value
      ≡ ok (failed_envelope b d.order_id)
unfolding placed to_message new_event unmarshal_envelope
placed-failed f b d k p i = refl

uuid-failed : (b : Ambient) (d : OrderCreatedData) (k : ℕ) → (failed_event b d k).event_id ≡ b.uuid
unfolding new_event
uuid-failed b d k = refl

settle-ok :
    (sc : Service) (a : Ambient) (r : Result Bool × Db) (s : Db)
    → settle sc a r ≡ (ok tt, s)
    → (b : Bool) × (r ≡ (ok b, s))
settle-ok sc a (ok b, s') s h = (b, cc)
settle-ok sc a (err x, s') s h = absurd (cc)

module _ (sc : Service) (law : IsService sc) (a : Ambient) where
  -- The block of an event, in the transaction of Process.
  abbrev block : Envelope → Tx Db (Unit {0})
  block e = dispatch sc a e.event e.body

  handle_inventory_event-Processes :
      (msg : Message) (e : Envelope) (s s' : Db)
      → str_eq (header "event_id" msg.headers) "" ≡ false
      → unmarshal_envelope msg.value ≡ ok e
      → find (with_id (header "event_id" msg.headers)) s.processed ≡ none
      → handle_inventory_event sc a msg s ≡ (ok tt, s')
      → Processes processed_schema processed sc.db sc.processed law.db law.processed
          (header "event_id" msg.headers)
          (block e)
          s
          s'
  unfolding handle_inventory_event
  handle_inventory_event-Processes msg e s s' named reads fresh h =
      let id = header "event_id" msg.headers in
      let (b, done) =
        settle-ok sc a (process sc.db sc.processed id (block e) s) s'
          (rw (named, reads, handle_inventory_event) at h) in
      process-Processes processed_schema processed sc.db sc.processed law.db law.processed id
        (block e) s s' b fresh done

versioned_self :
    (o : Order)
    → same_status o.status pending ≡ true
    → versioned o.user_id o.id pending o.version o ≡ true
unfolding versioned
versioned_self o p = rw p (ground arith)

stays : (o : Order) (i : ℕ) → o.id ≡ i → ((set_cancelled out_of_stock o).id == i) ≡ true
unfolding set_cancelled
stays o i same = ground arith

another :
    (o q : Order) (i : ℕ)
    → o.id ≡ i
    → (q.id == i) ≡ false
    → versioned o.user_id o.id pending o.version q ≡ false
unfolding versioned
another o q i same miss = ground arith

-- The row of a pending order is the one that the guarded UPDATE cancels.
find-cancelled :
    (os : List Order) (o : Order) (i : ℕ)
    → find (λ q. q.id == i) os ≡ some o
    → o.id ≡ i
    → same_status o.status pending ≡ true
    → find
        (λ q. q.id == i)
        (update_where (versioned o.user_id o.id pending o.version) (set_cancelled out_of_stock) os)
      ≡ some (set_cancelled out_of_stock o)
unfolding find update_where
find-cancelled [] o i f same p = cc
find-cancelled (q ∷ os) o i f same p = elim (Bool-cases (q.id == i)) [
  | inl hit ↦
      let first : some q ≡ some o = rw hit at f in
      let it : q ≡ o = cc in rw (it, versioned_self o p) (rw (stays o i same) refl)
  | inr miss ↦ rw (another o q i same miss) (rw miss (find-cancelled os o i (rw miss at f) same p))
]

module _ (sc : Service) (law : IsService sc) (a : Ambient) (f : Format) (b : Ambient)
    (d : OrderCreatedData) (k p i : ℕ) where
  -- The outbox row that reports an order out of stock, as the inventory service builds it, of an
  -- order id within 53 bits, is published and placed anywhere. If its event id is not empty and not
  -- among the processed ones, the order is pending, and the order service handles the message
  -- without an error, then that order is cancelled with the reason out of stock, and the
  -- order.cancelled row of it, as it then reads, is appended to the outbox.
  pub failed_message-cancels :
      (o : Order) (s s' : Db)
      → d.order_id < significands
      → str_eq b.uuid "" ≡ false
      → find (with_id b.uuid) s.processed ≡ none
      → find (λ q. q.id == d.order_id) s.orders ≡ some o
      → same_status o.status pending ≡ true
      → handle_inventory_event sc a (placed f (failed_event b d k) p i) s ≡ (ok tt, s')
      → (n : ℕ) × (find (λ q. q.id == d.order_id) s'.orders ≡ some (set_cancelled out_of_stock o))
        × (s'.outbox
            ≡ s.outbox
              ++ record (cancelled_event a (set_cancelled out_of_stock o) out_of_stock) { id = n }
                ∷ [])
  unfolding dispatch
  failed_message-cancels o s s' fits named fresh here live h =
      let msg = placed f (failed_event b d k) p i in
      let id : header "event_id" msg.headers ≡ b.uuid =
        rw (header-placed f (failed_event b d k) p i) (uuid-failed b d k) in
      let (mid, row, ran, _, put) =
        handle_inventory_event-Processes sc law a msg (failed_envelope b d.order_id) s s'
          (rw id named) (placed-failed f b d k p i) (rw id fresh) h in
      let outcome : FailedOutcome a d.order_id s (ok (tt, mid)) = rw ran at (
        handle_reservation_failed-FailedOutcome sc law a (failed_envelope b d.order_id).body
          (failed_data d.order_id) s
          (unmarshal-marshal_failed (failed_data d.order_id) fits (λ t e. cc))) in
      rw put (go mid outcome)
    where
      go :
          (mid : Db)
          → FailedOutcome a d.order_id s (ok (tt, mid))
          → (n : ℕ) × (find (λ q. q.id == d.order_id) mid.orders
              ≡ some (set_cancelled out_of_stock o))
            × (mid.outbox
                ≡ s.outbox
                  ++ record (cancelled_event a (set_cancelled out_of_stock o) out_of_stock) {
                    id = n;
                  }
                    ∷ [])
      go mid (inl (_, inl absent)) = absurd (cc)
      go mid (inl (_, inr (q, there, settled))) = let it : q ≡ o = cc in absurd (cc)
      go mid (inr (q, q', n, there, _, read, e)) =
          let it : q ≡ o = cc in
          let held : (o.id == d.order_id) ≡ true =
            find-holds (λ q. q.id == d.order_id) s.orders o here in
          let same : o.id ≡ d.order_id = (==_iff o.id d.order_id).0 held in
          let found : find (λ q. q.id == d.order_id) mid.orders
              ≡ some (set_cancelled out_of_stock o) =
            rw (e, it) (find-cancelled s.orders o d.order_id here same live) in
          let back : find (λ q. q.id == d.order_id) mid.orders ≡ some q' = rw (it, same) at read in
          let final : q' ≡ set_cancelled out_of_stock o = cc in (n, found, rw (e, final) refl)
