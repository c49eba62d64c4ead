-- ===== src/Order/Api.antt =====
-- service/order/api/internal: handler/order, listOrderLogic.go, and common/page/page.go.
pub mod Replies
use micro_go_lab.Base.{
  ℕ, int64, ◌^◌, zero, suc, ◌+◌, ◌-◌, ◌*◌, ◌/◌, Bool, true, false, Option, none, some, String, List,
  ℤ, pos, negsuc, ltb, if◌then◌else◌,
}
use micro_go_lab.Errors.{Error, Result, ok, err, is_coded}
use micro_go_lab.Event.{OrderStatus}
use micro_go_lab.Outbox.{Ambient}
use micro_go_lab.Http.{
  Reply, ok_json, created_json, error_json, bad_request, not_found, internal_error,
}
use micro_go_lab.Order.{Order, Db, Service}
use micro_go_lab.Order.Repository.{find_by_user_id_with_page}
use micro_go_lab.Order.Update.{get_by_id, update_order_status}
use micro_go_lab.Order.Create.{Redis, CreateOrderRequest, Outcome, create_idempotent}

-- page.Result
pub record Page : Type 0 where
  pub items : List Order
  pub total : ℕ
  pub page : ℕ
  pub page_size : ℕ
  pub pages : ℕ

-- NewResult. math.Ceil of the quotient of two float64 is this below 2 ^ 53 items.
unfoldable pub new_result : List Order → ℕ → ℕ → ℕ → Page
new_result items total page page_size = record {
  items = items;
  total = total;
  page = page;
  page_size = page_size;
  pages = if ltb 0 page_size then (total + (page_size - 1)) / page_size else 0;
}

-- Request.Offset, and the offset that ListByUserID computes, (page - 1) * page_size in 64 bits, where
-- -1 is 2 ^ 64 - 1.
unfoldable pub offset : ℕ → ℕ → ℤ
unfolding int64
offset page page_size = int64 ((page + (2 ^ 64 - 1)) * page_size)

-- ListByUserID
unfoldable pub list_by_user_id : Service → ℕ → ℕ → ℕ → Db → Result Page
unfolding find_by_user_id_with_page new_result offset
list_by_user_id sc user_id page page_size s =
    elim (find_by_user_id_with_page sc user_id (offset page page_size) (pos page_size) s) [
      | err e ↦ err e
      | ok (orders, total) ↦ ok (new_result orders total page page_size)
    ]

-- Each handler is given what httpx.Parse makes of the request.
unfoldable pub list_order_handler : Service → ℕ → Result (ℕ × ℕ) → Db → Reply Page
unfolding list_by_user_id bad_request internal_error ok_json
list_order_handler sc user_id (err e) s = bad_request
list_order_handler sc user_id (ok (page, page_size)) s =
    elim (list_by_user_id sc user_id page page_size s) [
      | err e ↦ internal_error
      | ok result ↦ ok_json result
    ]

unfoldable pub get_order_handler : Service → ℕ → Result ℕ → Db → Reply Order
unfolding get_by_id bad_request not_found internal_error ok_json
get_order_handler sc user_id (err e) s = bad_request
get_order_handler sc user_id (ok id) s = elim (get_by_id sc user_id id s) [
  | err e ↦ if is_coded 400001 e then not_found else internal_error
  | ok order ↦ ok_json order
]

-- What CreateOrderHandler answers to what Create returns.
unfoldable pub create_reply : Result Order → Reply Order
unfolding error_json bad_request internal_error created_json
create_reply (ok order) = created_json order
create_reply (err e) =
    if is_coded 400003 e
    then error_json 409
    else if is_coded 200003 e
    then bad_request
    else internal_error

unfoldable pub create_order_handler :
    {C : Type 0}
    → Redis C
    → Service
    → Ambient
    → (ℕ → Result Bool)
    → (ℕ → String → String)
    → ℕ
    → Result CreateOrderRequest
    → String
    → C
    → Db
    → Reply Order × C × Db
unfolding create_idempotent create_reply bad_request
create_order_handler redis sc a validate digest user_id (err e) key c s = (bad_request, c, s)
create_order_handler redis sc a validate digest user_id (ok req) key c s =
    let (r, c', s', l) = create_idempotent redis sc a validate digest user_id req key c s in
    (create_reply r, c', s')

-- What UpdateOrderStatusHandler answers to what UpdateStatus returns.
unfoldable pub update_reply : Result Order → Reply Order
unfolding not_found bad_request internal_error ok_json
update_reply (ok order) = ok_json order
update_reply (err e) =
    if is_coded 400001 e
    then not_found
    else if is_coded 400002 e
    then bad_request
    else internal_error

unfoldable pub update_order_status_handler :
    Service → Ambient → (Db → Db) → ℕ → Result ℕ → Result OrderStatus → Db → Reply Order × Db
unfolding update_order_status update_reply bad_request
update_order_status_handler sc a meanwhile user_id (err e) req s = (bad_request, meanwhile s)
update_order_status_handler sc a meanwhile user_id (ok id) (err e) s = (bad_request, meanwhile s)
update_order_status_handler sc a meanwhile user_id (ok id) (ok to) s =
    let (r, s') = update_order_status sc a meanwhile user_id id to s in (update_reply r, s')
