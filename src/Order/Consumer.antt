-- ===== src/Order/Consumer.antt =====
-- service/order/api/internal/svc: inventory_event_consumer.go and user_event_consumer.go, and
-- UpsertKnownUser of internal/model/known_user.go.
pub mod Keeps
pub mod Outcomes
use micro_go_lab.Base.{
  ℕ, Bool, true, false, Option, none, some, String, List, [], ◌==◌, str_eq, if◌then◌else◌,
}
use micro_go_lab.Errors.{Error, Result, ok, err, is_record_not_found}
use micro_go_lab.Sql.{Tx, ◌>>=◌, ◌>>◌, return, fail, lift, attempt}
use micro_go_lab.Event.{
  EventType, reservation_failed, inventory_reserved, unknown, user_registered, order_created,
  order_cancelled, cancelled, out_of_stock,
}
use micro_go_lab.Event.Json.{Object}
use micro_go_lab.Event.Codec.{Envelope, unmarshal_envelope, unmarshal_failed, unmarshal_registered}
use micro_go_lab.Outbox.{Ambient, insert}
use micro_go_lab.Idempotent.{process}
use micro_go_lab.Stream.{Message, header}
use micro_go_lab.Order.{Order, KnownUser, Db, Service}
use micro_go_lab.Order.Repository.{same_status, cancel}
use micro_go_lab.Order.Update.{cancelled_event}

module _ (sc : Service) (a : Ambient) where
  -- What follows Cancel: a conflict is taken as handled.
  unfoldable pub failed_written : Option Order → Tx Db (Unit {0})
  unfolding cancelled_event
  failed_written none = return tt
  failed_written (some o) = insert sc.outbox (cancelled_event a o out_of_stock)

  -- What follows the look-up of the order.
  unfoldable pub failed_found : Result Order → Tx Db (Unit {0})
  unfolding same_status failed_written
  failed_found (err e) = if is_record_not_found e then return tt else fail e
  failed_found (ok o) =
      if same_status o.status cancelled
      then return tt
      else (do ord ← cancel sc o.user_id o.id o.version out_of_stock; failed_written ord)

  -- handleReservationFailed
  unfoldable pub handle_reservation_failed : Object → Tx Db (Unit {0})
  unfolding failed_found
  handle_reservation_failed body = do
    d ← lift (unmarshal_failed body)
    found ← attempt (sc.orders.first (λ o. o.id == d.order_id))
    failed_found found

  -- The switch of handleInventoryEvent.
  unfoldable pub dispatch : EventType → Object → Tx Db (Unit {0})
  unfolding handle_reservation_failed
  dispatch reservation_failed body = handle_reservation_failed body
  dispatch inventory_reserved body = return tt
  dispatch _ body = return tt

  -- UpsertKnownUser
  unfoldable pub upsert_known_user : KnownUser → Tx Db (Unit {0})
  upsert_known_user u = sc.save u

  -- The block of handleUserEvent, whatever the type of the event.
  unfoldable pub register : Object → Tx Db (Unit {0})
  unfolding upsert_known_user
  register body = do
    d ← lift (unmarshal_registered body)
    upsert_known_user (record { user_id = d.user_id; username = d.username })

  abbrev pub settle : Result Bool × Db → Result (Unit {0}) × Db
  settle (ok processed, s) = (ok tt, s)
  settle (err e, s) = (err e, s)

  -- What both handlers do with a message, once it has an event id.
  abbrev pub consume : (Envelope → Tx Db (Unit {0})) → Message → Db → Result (Unit {0}) × Db
  consume block msg s =
      let id = header "event_id" msg.headers in
      if str_eq id "" then (ok tt, s) else elim (unmarshal_envelope msg.value) [
        | err e ↦ (err e, s)
        | ok e ↦ settle (process sc.db sc.processed id (block e) s)
      ]

  -- handleInventoryEvent
  unfoldable pub handle_inventory_event : Message → Db → Result (Unit {0}) × Db
  unfolding dispatch
  handle_inventory_event msg s = consume (λ e. dispatch e.event e.body) msg s

  -- handleUserEvent
  unfoldable pub handle_user_event : Message → Db → Result (Unit {0}) × Db
  unfolding register
  handle_user_event msg s = consume (λ e. register e.body) msg s
