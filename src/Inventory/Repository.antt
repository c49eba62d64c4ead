-- ===== src/Inventory/Repository.antt =====
-- service/inventory/rpc/internal/repository/inventory.go
use micro_go_lab.Base.{
  ℕ, zero, suc, ◌&&◌, Option, none, some, String, ℤ, pos, negsuc, ◌+ℤ◌, ◌-ℤ◌, leb_ℤ, str_eq, ◌==◌,
  if◌then◌else◌,
}
use micro_go_lab.Errors.{Error, Result, ok, err, is_record_not_found}
use micro_go_lab.Sql.{Tx, ◌>>=◌, ◌>>◌, return, fail, attempt}
use micro_go_lab.Inventory.{Product, Reservation, reserved, released, Db, Service, is_active}

module _ (sc : Service) where
  -- GetProduct
  unfoldable pub get_product : String → Db → Result Product
  get_product sku = sc.products.first (λ p. str_eq p.sku sku)

  -- FindReservationByOrderID
  unfoldable pub find_reservation_by_order_id : ℕ → Db → Result Reservation
  find_reservation_by_order_id order_id = sc.reservations.first (λ r. r.order_id == order_id)

  -- RowsAffected of the guarded UPDATE, or -1 on an error.
  abbrev pub affected_or_error : Result (ℕ × Db) → Db → ℤ × Db
  affected_or_error (ok (n, s')) s = (pos n, s')
  affected_or_error (err e) s = (negsuc 0, s)

  unfoldable pub decrement_available : String → ℤ → Db → ℤ × Db
  decrement_available sku qty s =
      affected_or_error
        (sc.products.update (λ p. str_eq p.sku sku && leb_ℤ qty p.available)
          (λ p. record p { available = p.available -ℤ qty }) s)
        s

  -- decrementErr: the error that stands in the handle of the transaction
  unfoldable pub decrement_err : Db → Option Error
  decrement_err = sc.db.tx_error

  -- `return 0, decrementErr(tx)`
  abbrev pub zero_or_error : Option Error → Tx Db ℕ
  zero_or_error none = return 0
  zero_or_error (some e) = fail e

  -- The insertion of the reservation that ends both forms of Reserve.
  unfoldable pub create_reservation : ℕ → String → ℤ → Tx Db ℕ
  create_reservation order_id sku qty = do
    sc.reservations.create
        (record { id = 0; order_id = order_id; sku = sku; quantity = qty; status = reserved })
    return 1

  -- What follows decrementAvailable.
  unfoldable pub reserve_decremented : ℕ → String → ℤ → ℤ × Db → Result (ℕ × Db)
  unfolding create_reservation decrement_err
  reserve_decremented order_id sku qty (pos zero, s) = ok (0, s)
  reserve_decremented order_id sku qty (pos (suc n), s) = create_reservation order_id sku qty s
  reserve_decremented order_id sku qty (negsuc n, s) = zero_or_error (decrement_err s) s

  -- What follows the locking read of the reservation.
  unfoldable pub reserve_locked : ℕ → String → ℤ → Result Reservation → Tx Db ℕ
  unfolding reserve_decremented decrement_available
  reserve_locked order_id sku qty (ok existing) s =
      reserve_decremented order_id sku qty (decrement_available sku qty s)
  reserve_locked order_id sku qty (err e) s =
      if is_record_not_found e
      then reserve_decremented order_id sku qty (decrement_available sku qty s)
      else err e

  unfoldable pub reserve_ordered : ℕ → String → ℤ → Tx Db ℕ
  unfolding reserve_locked
  reserve_ordered order_id sku qty = do
    existing ← attempt (sc.reservations.first (λ r. r.order_id == order_id))
    reserve_locked order_id sku qty existing

  -- The sleep between its two writes holds the locks longer and changes no row.
  unfoldable pub reserve_reversed : ℕ → String → ℤ → Tx Db ℕ
  unfolding reserve_decremented decrement_available
  reserve_reversed order_id sku qty s =
      reserve_decremented order_id sku qty (decrement_available sku qty s)

  -- Reserve
  unfoldable pub reserve : ℕ → String → ℤ → Tx Db ℕ
  unfolding reserve_ordered reserve_reversed
  reserve order_id sku qty =
      if sc.bug_db_deadlock
      then reserve_reversed order_id sku qty
      else reserve_ordered order_id sku qty

  -- What follows the locking read of the reservation. The sleep of BUG_DB_DEADLOCK between the two
  -- writes holds the locks longer and changes no row.
  unfoldable pub release_found : ℕ → Reservation → Tx Db ℕ
  unfolding is_active
  release_found order_id res = elim res.status [
    | released ↦ return 0
    | reserved ↦ (do
      sc.reservations.update (λ r. r.order_id == order_id && is_active r.status)
          (λ r. record r { status = released })
      sc.products.update (λ p. str_eq p.sku res.sku)
          (λ p. record p { available = p.available +ℤ res.quantity })
      return 1)
  ]

  -- Release
  unfoldable pub release : ℕ → Tx Db ℕ
  unfolding release_found
  release order_id s = elim (sc.reservations.first (λ r. r.order_id == order_id) s) [
    | ok res ↦ release_found order_id res s
    | err e ↦ err e
  ]
