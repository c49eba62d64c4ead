-- ===== src/Order/Repository.antt =====
-- service/order/api/internal/repository/order.go and the transitions of createOrderLogic.go.
use micro_go_lab.Base.{
  ℕ, ◌+◌, Bool, true, false, ◌&&◌, Option, none, some, List, ℤ, ◌==◌, str_eq, if◌then◌else◌,
}
use micro_go_lab.Errors.{Result, ok, err}
use micro_go_lab.Sql.{Tx, ◌>>=◌, return, lift}
use micro_go_lab.Event.{OrderStatus, pending, paid, cancelled, other, Reason}
use micro_go_lab.Event.Codec.{status_text}
use micro_go_lab.Order.{Order, Db, Service}

-- A comparison of two texts of the status column.
unfoldable pub same_status : OrderStatus → OrderStatus → Bool
unfolding status_text
same_status a b = str_eq (status_text a) (status_text b)

-- validTransitions and isValidTransition
unfoldable pub is_valid_transition : OrderStatus → OrderStatus → Bool
is_valid_transition pending paid = true
is_valid_transition pending cancelled = true
is_valid_transition pending _ = false
is_valid_transition paid _ = false
is_valid_transition cancelled _ = false
is_valid_transition (other s) _ = false

-- The condition of both UPDATEs.
unfoldable pub versioned : ℕ → ℕ → OrderStatus → ℕ → Order → Bool
unfolding same_status
versioned user_id id from version o =
    o.id == id && o.user_id == user_id && same_status o.status from && o.version == version

unfoldable pub set_status : OrderStatus → Order → Order
set_status to o = record o { status = to; version = o.version + 1 }

unfoldable pub set_cancelled : Reason → Order → Order
set_cancelled why o = record o { status = cancelled; version = o.version + 1; cancel_reason = why }

module _ (sc : Service) where
  -- Create
  unfoldable pub create : Order → Tx Db Order
  create o = sc.orders.create o

  -- FindByIDAndUserID
  unfoldable pub find_by_id_and_user_id : ℕ → ℕ → Db → Result Order
  find_by_id_and_user_id id user_id = sc.orders.first (λ o. o.id == id && o.user_id == user_id)

  -- FindByUserIDWithPage
  unfoldable pub find_by_user_id_with_page : ℕ → ℤ → ℤ → Db → Result (List Order × ℕ)
  find_by_user_id_with_page user_id offset limit s =
      elim (sc.listing.count (λ o. o.user_id == user_id) s) [
        | err e ↦ err e
        | ok total ↦ elim (sc.listing.page (λ o. o.user_id == user_id) offset limit s) [
          | err e ↦ err e
          | ok orders ↦ ok (orders, total)
        ]
      ]

  -- UpdateStatus
  unfoldable pub update_status : ℕ → ℕ → OrderStatus → OrderStatus → ℕ → Tx Db ℕ
  unfolding versioned set_status
  update_status user_id id from to version =
      sc.orders.update (versioned user_id id from version) (set_status to)

  -- What Cancel reads back: nil where no row was affected.
  unfoldable pub cancel_affected : ℕ → ℕ → Tx Db (Option Order)
  cancel_affected id affected =
      if affected == 0
      then return none
      else (do order ← λ s. lift (sc.orders.first (λ o. o.id == id) s) s; return (some order))

  -- Cancel. The count that it returns is 0 where the order is nil, and not 0 elsewhere.
  unfoldable pub cancel : ℕ → ℕ → ℕ → Reason → Tx Db (Option Order)
  unfolding versioned set_cancelled cancel_affected
  cancel user_id id version why = do
    affected ← sc.orders.update (versioned user_id id pending version) (set_cancelled why)
    cancel_affected id affected
