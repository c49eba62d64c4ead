-- ===== src/Saga/Ordering.antt =====
-- What the order service has written into its outbox stays true of its orders, whatever it does.
use micro_go_lab.Base.{ℕ, ◌≡◌, refl, inl, inr, Bool, List, Bool-cases}
use micro_go_lab.Errors.{Result, ok, err}
use micro_go_lab.Sql.Keeps.{Keeps}
use micro_go_lab.Event.{
  EventType, reservation_failed, out_of_stock, ReservationFailedData, UserRegisteredData,
  OrderStatus, user_cancelled, pending, cancelled,
}
use micro_go_lab.Event.Json.{Object}
use micro_go_lab.Event.Codec.{unmarshal_failed, unmarshal_registered}
use micro_go_lab.Outbox.{Ambient}
use micro_go_lab.Order.{Order, KnownUser, Db, Service, IsService, Saved}
use micro_go_lab.Order.Repository.{same_status, is_valid_transition}
use micro_go_lab.Order.Create.{CreateOrderRequest, create_order, new_order}
use micro_go_lab.Order.Create.Outcomes.{CreateOutcome, stored, create_order-CreateOutcome}
use micro_go_lab.Order.Update.{update_found, cancel_order, paid_order}
use micro_go_lab.Order.Update.Outcomes.{
  CancelOutcome, PaidOutcome, cancel_order-CancelOutcome, paid_order-PaidOutcome,
}
use micro_go_lab.Order.Steps.{Evolves-refl, from_pending}
use micro_go_lab.Order.Consumer.{
  handle_reservation_failed, dispatch, register, upsert_known_user, handle_inventory_event,
  handle_user_event,
}
use micro_go_lab.Order.Consumer.Keeps.{consume-keeps}
use micro_go_lab.Order.Consumer.Outcomes.{FailedOutcome, handle_reservation_failed-FailedOutcome}
use micro_go_lab.Idempotent.{ProcessedEvent}
use micro_go_lab.Stream.{Message}
use micro_go_lab.Saga.Telling.{IsFit}
use micro_go_lab.Saga.Truthful.{
  IsTruthful, Continues, Continues-refl, stored-Continues, cancelled-Continues, paid-Continues,
}

module _ (sc : Service) (law : IsService sc) (a : Ambient) (s : Db) (t : IsTruthful s) where
  -- createOrder, if the order that it answers has numbers within 53 bits.
  pub create_order-Continues :
      (validate : ℕ → Result Bool) (user_id : ℕ) (req : CreateOrderRequest)
      → ((o : Order) → (create_order sc a validate user_id req s).0 ≡ ok o → IsFit o)
      → Continues s (create_order sc a validate user_id req s).1
  unfolding new_order
  create_order-Continues validate user_id req fit =
      go (create_order sc a validate user_id req s) fit
        (create_order-CreateOutcome a user_id req sc law s validate)
    where
      go :
          (r : Result Order × Db)
          → ((o : Order) → r.0 ≡ ok o → IsFit o)
          → CreateOutcome a user_id req s r
          → Continues s r.1
      go (err x, s') fit same = rw same (Continues-refl s t)
      go (ok o, s') fit (id, k, same, fresh, e) =
          stored-Continues a (stored a user_id req id) k s s' t (rw same at (fit o refl)) fresh refl
            refl e

  -- What UpdateStatus does with an order that it has read at whatever time.
  pub update_found-Continues :
      (to : OrderStatus) (r : Result Order) → Continues s (update_found sc a to r s).1
  unfolding update_found
  update_found-Continues to (err x) = Continues-refl s t
  update_found-Continues to (ok o) = elim (Bool-cases (is_valid_transition o.status to)) [
    | inr illegal ↦ rw illegal (Continues-refl s t)
    | inl legal ↦ rw legal (elim (Bool-cases (same_status to cancelled)) [
      | inl cancels ↦ rw cancels (
          by_cancel (cancel_order sc a o user_cancelled s)
            (cancel_order-CancelOutcome sc law a o user_cancelled s))
      | inr pays ↦ rw pays (
          by_pay (from_pending sc law a o.status to legal) (paid_order sc o s)
            (paid_order-PaidOutcome sc law a o user_cancelled s))
    ])
  ]
    where
      by_cancel :
          (r : Result Order × Db) → CancelOutcome sc law a o user_cancelled s r → Continues s r.1
      by_cancel (err x, s') same = rw same (Continues-refl s t)
      by_cancel (ok o', s') (k, found, here, e) =
          cancelled-Continues a o.user_id o.id o.version k o' user_cancelled s s' t found here e

      by_pay :
          o.status ≡ pending
          → (r : Result Order × Db) → PaidOutcome sc law a o user_cancelled s r
          → Continues s r.1
      by_pay p (err x, s') same = rw same (Continues-refl s t)
      by_pay p (ok o', s') (found, here, e) =
          paid-Continues o.user_id o.id o.version s s' t (rw p at e)

  handle_reservation_failed-Continues :
      (body : Object) → Keeps (Continues s) (handle_reservation_failed sc a body s)
  unfolding handle_reservation_failed
  handle_reservation_failed-Continues body = go (unmarshal_failed body) refl
    where
      by_outcome :
          (i : ℕ) (r : Result (Unit {0} × Db)) → FailedOutcome a i s r → Keeps (Continues s) r
      by_outcome i (err x) k = tt
      by_outcome i (ok (_, s')) (inl (same, _)) = rw same (Continues-refl s t)
      by_outcome i (ok (_, s')) (inr (o, o', k, here, found, read, e)) =
          cancelled-Continues a o.user_id o.id o.version k o' out_of_stock s s' t found read e

      go :
          (r : Result ReservationFailedData)
          → unmarshal_failed body ≡ r
          → Keeps (Continues s) (handle_reservation_failed sc a body s)
      go (err x) e = rw (e, handle_reservation_failed) tt
      go (ok d) e =
          by_outcome d.order_id (handle_reservation_failed sc a body s)
            (handle_reservation_failed-FailedOutcome sc law a body d s e)

  dispatch-Continues :
      (type : EventType) (body : Object) → Keeps (Continues s) (dispatch sc a type body s)
  unfolding dispatch
  dispatch-Continues reservation_failed body = handle_reservation_failed-Continues body
  dispatch-Continues _ body = Continues-refl s t

  register-Continues : (body : Object) → Keeps (Continues s) (register sc a body s)
  unfolding register upsert_known_user
  register-Continues body = go (unmarshal_registered body) refl
    where
      saved : (r : Result (Unit {0} × Db)) → Saved s r → Keeps (Continues s) r
      saved (err x) k = tt
      saved (ok (_, s')) (us, e) =
          rw e
            (Evolves-refl s.orders, record { distinct = t.distinct; fits = t.fits; told = t.told })

      go :
          (r : Result UserRegisteredData)
          → unmarshal_registered body ≡ r
          → Keeps (Continues s) (register sc a body s)
      go (err x) e = rw (e, register) tt
      go (ok d) e =
          let user : KnownUser = record { user_id = d.user_id; username = d.username } in
          rw (e, register) (saved (sc.save user s) (law.save_law user s))

  by_processed :
      (s' : Db) (es : List ProcessedEvent)
      → Continues s s'
      → Continues s (record s' { processed = es })
  by_processed s' es (e, k) = (e, record { distinct = k.distinct; fits = k.fits; told = k.told })

  -- Whatever message arrives on inventory-events.
  pub handle_inventory_event-Continues :
      (msg : Message) → Continues s (handle_inventory_event sc a msg s).1
  unfolding handle_inventory_event
  handle_inventory_event-Continues msg =
      consume-keeps sc law a (Continues s) by_processed (λ e. dispatch sc a e.event e.body) msg s
        (Continues-refl s t) (λ e. dispatch-Continues e.event e.body)

  -- Whatever message arrives on user-events.
  pub handle_user_event-Continues : (msg : Message) → Continues s (handle_user_event sc a msg s).1
  unfolding handle_user_event
  handle_user_event-Continues msg =
      consume-keeps sc law a (Continues s) by_processed (λ e. register sc a e.body) msg s
        (Continues-refl s t) (λ e. register-Continues e.body)
