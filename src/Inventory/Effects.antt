-- ===== src/Inventory/Effects.antt =====
-- What Reserve and Release do to the tables, on each way that they end.
use micro_go_lab.Base.{
  ℕ, zero, suc, ◌≡◌, ◌≢◌, ◌⊎◌, refl, ap, ◌∙◌, find-implies, inl, inr, true, none, some, String, [],
  ◌∷◌, ◌++◌, ℤ, pos, negsuc, find, update_where, arith, Bool-cases, str_eq,
}
use micro_go_lab.Errors.{Result, ok, err, ◌>>=◌ as bind, is_record_not_found}
use micro_go_lab.Sql.{Firsted, Updated, Created, update_where-Affected_zero, find-Affected_pos}
use micro_go_lab.Inventory.{
  Db, Reservation, ReservationStatus, reserved, released, Service, IsService, products_schema,
  reservations_schema,
}
use micro_go_lab.Inventory.Keys.{stocked, decrement, of_order, active_of, set_released, increment}
use micro_go_lab.Inventory.Repository.{
  affected_or_error, decrement_available, reserve_decremented, reserve_locked, reserve,
  create_reservation, decrement_err, release, release_found,
}

-- The row that Reserve inserts.
abbrev pub reservation : ℕ → ℕ → String → ℤ → Reservation
reservation id i sku qty = record {
  id = id;
  order_id = i;
  sku = sku;
  quantity = qty;
  status = reserved;
}

-- The contents after Reserve has taken the quantity.
abbrev pub taken : ℕ → String → ℤ → Db → Db
taken i sku qty s = record s {
  products = update_where (stocked sku qty) (decrement qty) s.products;
}

-- Reserve affects nothing and says 0, or takes the quantity from a sufficient stock for an order
-- that had no reservation, and says 1.
abbrev pub Reserves : ℕ → String → ℤ → Db → Result (ℕ × Db) → Type 0
Reserves i sku qty s (err e) = Unit
Reserves i sku qty s (ok (n, s')) =
    ((n ≡ 0) × (s' ≡ s))
    ⊎ ((id : ℕ) × (n ≡ 1)
        × (find (stocked sku qty) s.products ≢ none)
        × (find (of_order i) s.reservations ≡ none)
        × (s' ≡ record s {
          products = update_where (stocked sku qty) (decrement qty) s.products;
          reservations = s.reservations ++ reservation id i sku qty ∷ [];
        }))

-- Release affects nothing, and the reservation was released before, or gives its quantity back.
abbrev pub Releases : ℕ → Db → Result (ℕ × Db) → Type 0
Releases i s (err e) = is_record_not_found e ≡ true → find (of_order i) s.reservations ≡ none
Releases i s (ok (n, s')) =
    (res : Reservation) × (find (of_order i) s.reservations ≡ some res)
    × (((n ≡ 0) × (res.status ≡ released) × (s' ≡ s))
        ⊎ ((n ≡ 1)
            × (res.status ≡ reserved)
            × (s' ≡ record s {
              products =
                  update_where (λ p. str_eq p.sku res.sku) (increment res.quantity) s.products;
              reservations = update_where (active_of i) set_released s.reservations;
            })))

-- What decrementAvailable has done, by the number that it returns.
abbrev Decremented : String → ℤ → Db → ℤ × Db → Type 0
Decremented sku qty s (pos zero, s') = s' ≡ s
Decremented sku qty s (pos (suc n), s') =
    (s' ≡ taken 0 sku qty s) × (find (stocked sku qty) s.products ≢ none)
Decremented sku qty s (negsuc n, s') = s' ≡ s

module _ (sc : Service) (law : IsService sc) where
  decrement_available-Decremented :
      (sku : String) (qty : ℤ) (s : Db) → Decremented sku qty s (decrement_available sc sku qty s)
  unfolding decrement_available
  decrement_available-Decremented sku qty s =
      go (sc.products.update (stocked sku qty) (decrement qty) s)
        (law.products.update_law (stocked sku qty) (decrement qty) s)
    where
      go :
          (r : Result (ℕ × Db))
          → Updated products_schema (stocked sku qty) (decrement qty) s r
          → Decremented sku qty s (affected_or_error sc r s)
      go (err e) u = refl
      go (ok (zero, s')) (a, e) =
          e
          ∙ ap (λ ps. record s { products = ps })
              (update_where-Affected_zero (stocked sku qty) (decrement qty) s.products a refl)
      go (ok (suc n, s')) (a, e) =
          (e, find-Affected_pos (stocked sku qty) (decrement qty) s.products a (omega arith))

  create_reservation-Reserves :
      (i : ℕ) (sku : String) (qty : ℤ) (s : Db)
      → find (stocked sku qty) s.products ≢ none
      → Reserves i sku qty s (create_reservation sc i sku qty (taken i sku qty s))
  unfolding create_reservation
  create_reservation-Reserves i sku qty s f =
      go (sc.reservations.create (reservation 0 i sku qty) (taken i sku qty s))
        (law.reservations.create_law (reservation 0 i sku qty) (taken i sku qty s))
    where
      go :
          (r : Result (Reservation × Db))
          → Created reservations_schema (reservation 0 i sku qty) (taken i sku qty s) r
          → Reserves i sku qty s (bind r (λ x. ok (1, x.1)))
      go (err e) h = tt
      go (ok (r', s')) (id, e, fresh, e') = inr (
        id,
        refl,
        f,
        find-implies (of_order i) (reservations_schema.clash (reservation id i sku qty))
            s.reservations (λ q h. ground arith) (rw e at fresh),
        rw (e', e),
      )

  reserve_decremented-Reserves :
      (i : ℕ) (sku : String) (qty : ℤ) (s : Db) (r : ℤ × Db)
      → Decremented sku qty s r
      → Reserves i sku qty s (reserve_decremented sc i sku qty r)
  unfolding reserve_decremented decrement_err
  reserve_decremented-Reserves i sku qty s (pos zero, s') e = inl (refl, e)
  reserve_decremented-Reserves i sku qty s (pos (suc n), s') (e, f) =
      rw e (create_reservation-Reserves i sku qty s f)
  reserve_decremented-Reserves i sku qty s (negsuc n, s') e =
      rw (law.db.tx_error_law s') (inl (refl, e))

  reserve_locked-Reserves :
      (i : ℕ) (sku : String) (qty : ℤ) (existing : Result Reservation) (s : Db)
      → Reserves i sku qty s (reserve_locked sc i sku qty existing s)
  unfolding reserve_locked
  reserve_locked-Reserves i sku qty (ok r) s =
      reserve_decremented-Reserves i sku qty s _ (decrement_available-Decremented sku qty s)
  reserve_locked-Reserves i sku qty (err e) s = elim (Bool-cases (is_record_not_found e)) [
    | inl absent ↦
        rw absent
          (reserve_decremented-Reserves i sku qty s _ (decrement_available-Decremented sku qty s))
    | inr failed ↦ rw failed tt
  ]

  -- Reserve, in either of its lock orders, if it returns: it affects nothing and changes nothing, or
  -- it affects one, the stock was enough, the order had no reservation, and the quantity is taken
  -- off the stock and held by an active reservation.
  pub reserve-Reserves :
      (i : ℕ) (sku : String) (qty : ℤ) (s : Db) → Reserves i sku qty s (reserve sc i sku qty s)
  unfolding reserve
  reserve-Reserves i sku qty s = elim (Bool-cases sc.bug_db_deadlock) [
    | inl reversed ↦
        rw reversed
          (reserve_decremented-Reserves i sku qty s _ (decrement_available-Decremented sku qty s))
    | inr ordered ↦
        rw ordered (reserve_locked-Reserves i sku qty (sc.reservations.first (of_order i) s) s)
  ]

  -- The second write of Release, from the contents after the first.
  restock-Releases :
      (i : ℕ) (res : Reservation) (s s' : Db)
      → find (of_order i) s.reservations ≡ some res
      → res.status ≡ reserved
      → s' ≡ record s { reservations = update_where (active_of i) set_released s.reservations }
      → Releases i s (
          bind
            (sc.products.update (λ p. str_eq p.sku res.sku) (increment res.quantity) s')
            (λ x. ok (1, x.1)))
  restock-Releases i res s s' f act e =
      go (sc.products.update (λ p. str_eq p.sku res.sku) (increment res.quantity) s')
        (law.products.update_law _ _ s')
    where
      go :
          (r : Result (ℕ × Db))
          → Updated products_schema (λ p. str_eq p.sku res.sku) (increment res.quantity) s' r
          → Releases i s (bind r (λ x. ok (1, x.1)))
      go (err x) u = λ absent. cc
      go (ok (m, s'')) (affected, e') = (res, f, inr (refl, act, rw (e', e)))

  release_found-Releases :
      (i : ℕ) (res : Reservation) (s : Db)
      → find (of_order i) s.reservations ≡ some res
      → Releases i s (release_found sc i res s)
  unfolding release_found
  release_found-Releases i res s f = by_status res.status refl
    where
      go :
          (r : Result (ℕ × Db))
          → res.status ≡ reserved
          → Updated reservations_schema (active_of i) set_released s r
          → Releases i s (
              bind r (λ x.
                bind
                  (sc.products.update (λ p. str_eq p.sku res.sku) (increment res.quantity) x.1)
                  (λ y. ok (1, y.1))))
      go (err x) act u = λ absent. cc
      go (ok (n, s')) act (affected, e) = restock-Releases i res s s' f act e

      by_status :
          (st : ReservationStatus) → res.status ≡ st → Releases i s (release_found sc i res s)
      by_status released e = rw (e, release_found) (res, f, inl (refl, e, refl))
      by_status reserved e =
          rw (e, release_found)
            (go (sc.reservations.update (active_of i) set_released s) e
              (law.reservations.update_law (active_of i) set_released s))

  -- Release, on each way that it ends.
  pub release-Releases : (i : ℕ) (s : Db) → Releases i s (release sc i s)
  unfolding release
  release-Releases i s =
      go (sc.reservations.first (of_order i) s) (law.reservations.first_law (of_order i) s)
    where
      go :
          (r : Result Reservation)
          → Firsted reservations_schema (of_order i) s r
          → Releases i s (elim r [ ok res ↦ release_found sc i res s | err e ↦ err e ])
      go (ok res) f = release_found-Releases i res s f
      go (err e) f = f
