-- ===== src/Order/Update.antt =====
-- service/order/api/internal/logic/order: updateOrderStatusLogic.go, getOrderLogic.go,
-- listOrderLogic.go, and common/page/page.go.
pub mod Outcomes
use micro_go_lab.Base.{
  ℕ, ◌+◌, Bool, true, false, Option, none, some, String, List, [], ◌∷◌, ℤ, pos, negsuc, ◌==◌,
  if◌then◌else◌,
}
use micro_go_lab.Errors.{
  Result, ok, err, is_record_not_found, err_order_not_found, err_invalid_status_transition,
  err_optimistic_conflict,
}
use micro_go_lab.Sql.{Tx, ◌>>=◌, ◌>>◌, return, fail}
use micro_go_lab.Event.{
  OrderStatus, paid, cancelled, Reason, user_cancelled, order_cancelled, order_events,
}
use micro_go_lab.Event.Codec.{Payload, Envelope, marshal, cancels}
use micro_go_lab.Outbox.{Ambient, OutboxEvent, new_event, insert}
use micro_go_lab.Order.{Order, Db, Service}
use micro_go_lab.Order.Repository.{
  same_status, is_valid_transition, find_by_id_and_user_id, update_status, cancel,
}

-- The outbox row of order.cancelled, which cancelOrder and handleReservationFailed build.
unfoldable pub cancelled_event : Ambient → Order → Reason → OutboxEvent
unfolding new_event marshal
cancelled_event a o why = new_event a order_events o.id (record {
  event = order_cancelled;
  version = 1;
  occurred_at = a.now;
  body =
      marshal
        (cancels (record { order_id = o.id; sku = o.sku; quantity = o.quantity; reason = why }));
})

module _ (sc : Service) where
  -- GetByID
  unfoldable pub get_by_id : ℕ → ℕ → Db → Result Order
  unfolding find_by_id_and_user_id
  get_by_id user_id id s = elim (find_by_id_and_user_id sc id user_id s) [
    | ok order ↦ ok order
    | err e ↦ if is_record_not_found e then err err_order_not_found else err e
  ]

  module _ (a : Ambient) where
    -- What follows Cancel in the transaction of cancelOrder.
    unfoldable pub cancel_written : Reason → Option Order → Tx Db Order
    unfolding cancelled_event
    cancel_written why none = fail err_optimistic_conflict
    cancel_written why (some o) = do insert sc.outbox (cancelled_event a o why); return o

    unfoldable pub cancel_tx : Order → Reason → Tx Db Order
    unfolding cancel_written
    cancel_tx o why = do ord ← cancel sc o.user_id o.id o.version why; cancel_written why ord

    -- cancelOrder
    unfoldable pub cancel_order : Order → Reason → Db → Result Order × Db
    unfolding cancel_tx
    cancel_order o why = sc.db.transaction (cancel_tx o why)

  -- paidOrder
  unfoldable pub paid_order : Order → Db → Result Order × Db
  unfolding update_status
  paid_order o s = elim (update_status sc o.user_id o.id o.status paid o.version s) [
    | err e ↦ (err e, s)
    | ok (affected, s') ↦
        if affected == 0
        then (err err_optimistic_conflict, s')
        else (ok (record o { status = paid }), s')
  ]

  -- What follows the look-up in UpdateStatus.
  unfoldable pub update_found : Ambient → OrderStatus → Result Order → Db → Result Order × Db
  unfolding same_status is_valid_transition cancel_order paid_order
  update_found a to (err e) s =
      (if is_record_not_found e then err err_order_not_found else err e, s)
  update_found a to (ok o) s =
      if is_valid_transition o.status to
      then (if same_status to cancelled then cancel_order a o user_cancelled s else paid_order o s)
      else (err err_invalid_status_transition, s)

  -- UpdateStatus. The order is read outside of a transaction: `meanwhile` is what other sessions
  -- do to the database after the read.
  unfoldable pub update_order_status :
      Ambient → (Db → Db) → ℕ → ℕ → OrderStatus → Db → Result Order × Db
  unfolding update_found
  update_order_status a meanwhile user_id id to s =
      update_found a to (find_by_id_and_user_id sc id user_id s) (meanwhile s)
