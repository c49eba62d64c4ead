-- ===== src/Inventory/Keys.antt =====
-- The keys of the tables products and inventory_reservations, and the WHERE and SET clauses of the
-- statements of Reserve and Release, which keep the keys distinct.
use micro_go_lab.Base.{
  ℕ, ◌≡◌, refl, ap, ◌∙◌, Bool, ◌&&◌, none, String, List, [], ◌∷◌, ◌++◌, ℤ, ◌+ℤ◌, ◌-ℤ◌, leb_ℤ,
  str_eq, ◌==◌, find, update_where, arith, find-append_none, find-update_where,
}
use micro_go_lab.Inventory.{Product, Reservation, released, is_active}

-- The guarded UPDATE of decrementAvailable.
abbrev pub stocked : String → ℤ → Product → Bool
stocked sku qty p = str_eq p.sku sku && leb_ℤ qty p.available

abbrev pub decrement : ℤ → Product → Product
decrement qty p = record p { available = p.available -ℤ qty }

-- The writes of Release.
abbrev pub of_order : ℕ → Reservation → Bool
of_order i r = r.order_id == i

abbrev pub active_of : ℕ → Reservation → Bool
active_of i r = r.order_id == i && is_active r.status

abbrev pub set_released : Reservation → Reservation
set_released r = record r { status = released }

abbrev pub increment : ℤ → Product → Product
increment qty p = record p { available = p.available +ℤ qty }

-- The primary key of products, and the unique index on order_id.
abbrev pub DistinctSkus : List Product → Type 0
DistinctSkus [] = Unit
DistinctSkus (p ∷ ps) = (find (λ q. str_eq q.sku p.sku) ps ≡ none) × DistinctSkus ps

abbrev pub DistinctOrders : List Reservation → Type 0
DistinctOrders [] = Unit
DistinctOrders (r ∷ rs) = (find (of_order r.order_id) rs ≡ none) × DistinctOrders rs

pub append-DistinctOrders :
    (rs : List Reservation) (r : Reservation)
    → find (of_order r.order_id) rs ≡ none
    → DistinctOrders rs
    → DistinctOrders (rs ++ r ∷ [])
unfolding find
append-DistinctOrders [] r f d = (refl, tt)
append-DistinctOrders (q ∷ rs) r f d =
    let other : find (of_order q.order_id) (r ∷ []) ≡ none = ground arith in
    (
      find-append_none (of_order q.order_id) rs (r ∷ []) d.0 ∙ other,
      append-DistinctOrders rs r (ground arith) d.1,
    )

pub release-DistinctOrders :
    (i : ℕ) (rs : List Reservation)
    → DistinctOrders rs
    → DistinctOrders (update_where (active_of i) set_released rs)
unfolding update_where
release-DistinctOrders i [] d = tt
release-DistinctOrders i (r ∷ rs) d =
    let kept : (j : ℕ)
        → find (of_order j) rs ≡ none
        → find (of_order j) (update_where (active_of i) set_released rs) ≡ none =
      λ j. find-update_where (of_order j) (active_of i) set_released rs (λ _. refl) in
    ground (arith, kept r.order_id, release-DistinctOrders i rs d.1)

-- No statement writes a sku.
pub update_where-DistinctSkus :
    (p : Product → Bool) (f : Product → Product) (ps : List Product)
    → ((q : Product) → (f q).sku ≡ q.sku)
    → DistinctSkus ps
    → DistinctSkus (update_where p f ps)
unfolding update_where
update_where-DistinctSkus p f [] same d = tt
update_where-DistinctSkus p f (q ∷ ps) same d =
    let kept =
      find-update_where (λ x. str_eq x.sku q.sku) p f ps (λ x. ap (λ t. str_eq t q.sku) (same x))
        d.0 in
    ground (arith, same q, kept, update_where-DistinctSkus p f ps same d.1)
