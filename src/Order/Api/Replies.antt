-- ===== src/Order/Api/Replies.antt =====
-- What a reply says of the tables.
use micro_go_lab.Base.{ℕ, ◌≡◌, ◌≢◌, refl}
use micro_go_lab.Errors.{Result, ok, err}
use micro_go_lab.Event.{OrderStatus}
use micro_go_lab.Outbox.{Ambient}
use micro_go_lab.Http.{ok_json}
use micro_go_lab.Order.{Order, Db, Service, IsService}
use micro_go_lab.Order.Repository.{find_by_id_and_user_id}
use micro_go_lab.Order.Update.{update_order_status, update_found}
use micro_go_lab.Order.Steps.{Advances, update_found-Advances}
use micro_go_lab.Order.Api.{update_order_status_handler, update_reply}

module _ (sc : Service) (law : IsService sc) (a : Ambient) (meanwhile : Db → Db) where
  -- Every reply of UpdateOrderStatusHandler but 200 leaves the tables as other sessions left
  -- them.
  pub update_order_status_handler-refused :
      (user_id : ℕ) (path : Result ℕ) (req : Result OrderStatus) (s : Db)
      → (update_order_status_handler sc a meanwhile user_id path req s).0.http_status ≢ 200
      → (update_order_status_handler sc a meanwhile user_id path req s).1 ≡ meanwhile s
  unfolding update_order_status_handler update_order_status update_reply ok_json update_found
  update_order_status_handler-refused user_id (err e) req s h = refl
  update_order_status_handler-refused user_id (ok id) (err e) s h = refl
  update_order_status_handler-refused user_id (ok id) (ok to) s h =
      go (find_by_id_and_user_id sc id user_id s) h
    where
      advanced :
          (o : Order) (r : Result Order × Db)
          → Advances o (meanwhile s) r
          → (update_reply r.0).http_status ≢ 200
          → r.1 ≡ meanwhile s
      advanced o (err e, s') k h = k
      advanced o (ok o', s') k h = absurd (h refl)

      go :
          (r : Result Order)
          → (update_reply (update_found sc a to r (meanwhile s)).0).http_status ≢ 200
          → (update_found sc a to r (meanwhile s)).1 ≡ meanwhile s
      go (err e) h = refl
      go (ok o) h =
          advanced o (update_found sc a to (ok o) (meanwhile s))
            (update_found-Advances sc law a to o (meanwhile s)) h
