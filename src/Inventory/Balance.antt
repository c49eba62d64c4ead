-- ===== src/Inventory/Balance.antt =====
-- The stock stays balanced through Reserve and Release: available + SUM(active reservations) = total,
-- for every product.
use micro_go_lab.Base.{ℕ, refl, inl, inr, String, List, ℤ, All}
use micro_go_lab.Errors.{Result, ok, err}
use micro_go_lab.Sql.Keeps.{Keeps}
use micro_go_lab.Inventory.{Db, Product, Reservation, Service, IsService}
use micro_go_lab.Inventory.Keys.{
  DistinctSkus, DistinctOrders, decrement, increment, append-DistinctOrders, release-DistinctOrders,
  update_where-DistinctSkus,
}
use micro_go_lab.Inventory.Stock.{IsBalanced, reserve-IsBalanced, release-IsBalanced}
use micro_go_lab.Inventory.Repository.{reserve, release}
use micro_go_lab.Inventory.Effects.{
  Reserves, Releases, reservation, reserve-Reserves, release-Releases,
}

pub record Consistent (ps : List Product) (rs : List Reservation) : Type 0 where
  pub skus : DistinctSkus ps
  pub orders : DistinctOrders rs
  pub balanced : All (IsBalanced rs) ps

abbrev pub IsConsistent : Db → Type 0
IsConsistent s = Consistent s.products s.reservations

Reserves-Keeps :
    (i : ℕ) (sku : String) (qty : ℤ) (s : Db) (r : Result (ℕ × Db))
    → Reserves i sku qty s r
    → IsConsistent s
    → Keeps IsConsistent r
Reserves-Keeps i sku qty s (err e) h c = tt
Reserves-Keeps i sku qty s (ok (n, s')) (inl (_, same)) c = rw same c
Reserves-Keeps i sku qty s (ok (n, s')) (inr (id, _, f, fresh, e)) c = rw e (record {
  skus = update_where-DistinctSkus _ (decrement qty) s.products (λ q. refl) c.skus;
  orders = append-DistinctOrders s.reservations (reservation id i sku qty) fresh c.orders;
  balanced =
      reserve-IsBalanced sku qty (reservation id i sku qty) s.products s.reservations
        (refl, refl, refl) c.skus c.balanced f;
})

Releases-Keeps :
    (i : ℕ) (s : Db) (r : Result (ℕ × Db)) → Releases i s r → IsConsistent s → Keeps IsConsistent r
Releases-Keeps i s (err e) h c = tt
Releases-Keeps i s (ok (n, s')) (res, f, inl (_, _, same)) c = rw same c
Releases-Keeps i s (ok (n, s')) (res, f, inr (_, act, e)) c = rw e (record {
  skus = update_where-DistinctSkus _ (increment res.quantity) s.products (λ q. refl) c.skus;
  orders = release-DistinctOrders i s.reservations c.orders;
  balanced = release-IsBalanced i s.products s.reservations res c.orders f act c.balanced;
})

module _ (sc : Service) (law : IsService sc) where
  pub reserve-Keeps :
      (i : ℕ) (sku : String) (qty : ℤ) (s : Db)
      → IsConsistent s
      → Keeps IsConsistent (reserve sc i sku qty s)
  reserve-Keeps i sku qty s c = Reserves-Keeps i sku qty s _ (reserve-Reserves sc law i sku qty s) c

  pub release-Keeps : (i : ℕ) (s : Db) → IsConsistent s → Keeps IsConsistent (release sc i s)
  release-Keeps i s c = Releases-Keeps i s _ (release-Releases sc law i s) c
