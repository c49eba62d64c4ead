-- ===== src/Inventory/Rpc.antt =====
-- service/inventory/rpc/internal/logic/getstocklogic.go
use micro_go_lab.Base.{String, if◌then◌else◌}
use micro_go_lab.Errors.{Result, ok, err, status, is_record_not_found}
use micro_go_lab.Inventory.{Product, Db, Service}
use micro_go_lab.Inventory.Repository.{get_product}

-- GetStock: the response has the product's three fields.
unfoldable pub get_stock : Service → String → Db → Result Product
unfolding get_product
get_stock sc sku s = elim (get_product sc sku s) [
  | err e ↦ if is_record_not_found e then err (status 5) else err (status 13)
  | ok product ↦ ok product
]
