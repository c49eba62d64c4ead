-- ===== src/Inventory/Bounds.antt =====
-- No stock is oversold: 0 ≤ available ≤ total, as long as no order asks for a negative quantity.
use micro_go_lab.Base.{
  ℕ, ◌≡◌, inl, inr, true, Option, String, List, [], ◌∷◌, ℤ, pos, ◌≤ℤ◌, int_laws, leb_ℤ→le,
  le_of_sum, Bool-cases, arith, All, All-append, All-find, All-update_where, str_eq, ◌&&◌,
}
use micro_go_lab.Errors.{Error, Result, ok, err}
use micro_go_lab.Sql.Keeps.{Keeps, Keeps-both}
use micro_go_lab.Event.{OrderCreatedData}
use micro_go_lab.Event.Codec.{Envelope, unmarshal_envelope}
use micro_go_lab.Outbox.{Ambient}
use micro_go_lab.Stream.{Message}
use micro_go_lab.Inventory.{Db, Product, Reservation, Service, IsService, is_active}
use micro_go_lab.Inventory.Keys.{stocked, decrement, active_of, set_released, increment, of_order}
use micro_go_lab.Inventory.Stock.{held, IsBalanced}
use micro_go_lab.Inventory.Effects.{
  Reserves, Releases, reservation, reserve-Reserves, release-Releases,
}
use micro_go_lab.Inventory.Balance.{IsConsistent, reserve-Keeps, release-Keeps}
use micro_go_lab.Inventory.Handling.{Kept, Delivers, AnyId, handle_order_event-Kept}
use micro_go_lab.Inventory.Consumer.{handle_order_event}

abbrev NotNegative : ℤ → Type 0
NotNegative z = pos 0 ≤ℤ z

abbrev InStock : List Product → Type 0
InStock = All (λ p. NotNegative p.available)

abbrev Quantified : List Reservation → Type 0
Quantified = All (λ r. NotNegative r.quantity)

-- No available quantity and no reservation is negative.
pub record Bounded (ps : List Product) (rs : List Reservation) : Type 0 where
  pub stock : InStock ps
  pub quantities : Quantified rs

abbrev pub IsBounded : Db → Type 0
IsBounded s = Bounded s.products s.reservations

-- An order that asks for no negative quantity.
abbrev pub Asks : OrderCreatedData → Type 0
Asks d = pos 0 ≤ℤ d.quantity

decrement_nonneg :
    (sku : String) (qty : ℤ) (p : Product)
    → stocked sku qty p ≡ true
    → NotNegative p.available
    → NotNegative (decrement qty p).available
decrement_nonneg sku qty p h n =
    let enough : qty ≤ℤ p.available = leb_ℤ→le qty p.available (ground arith) in omega int_laws

Reserves-bounds :
    (i : ℕ) (sku : String) (qty : ℤ) (s : Db) (r : Result (ℕ × Db))
    → NotNegative qty
    → Reserves i sku qty s r
    → IsBounded s
    → Keeps IsBounded r
Reserves-bounds i sku qty s (err e) q h b = tt
Reserves-bounds i sku qty s (ok (n, s')) q (inl (_, same)) b = rw same b
Reserves-bounds i sku qty s (ok (n, s')) q (inr (id, _, f, fresh, e)) b = rw e (record {
  stock =
      All-update_where (λ p. NotNegative p.available) (stocked sku qty) (decrement qty) s.products
        (decrement_nonneg sku qty) b.stock;
  quantities =
      All-append (λ r. NotNegative r.quantity) s.reservations (reservation id i sku qty)
        b.quantities q;
})

Releases-bounds :
    (i : ℕ) (s : Db) (r : Result (ℕ × Db)) → Releases i s r → IsBounded s → Keeps IsBounded r
Releases-bounds i s (err e) h b = tt
Releases-bounds i s (ok (n, s')) (res, f, inl (_, _, same)) b = rw same b
Releases-bounds i s (ok (n, s')) (res, f, inr (_, act, e)) b =
    let q : NotNegative res.quantity =
      All-find (λ r. NotNegative r.quantity) (of_order i) s.reservations res b.quantities f in
    rw e (record {
      stock =
          All-update_where (λ p. NotNegative p.available) _ (increment res.quantity) s.products
            (λ p _ n. omega int_laws) b.stock;
      quantities =
          All-update_where (λ r. NotNegative r.quantity) (active_of i) set_released s.reservations
            (λ r _ n. n) b.quantities;
    })

abbrev pub IsSound : Db → Type 0
IsSound s = IsConsistent s × IsBounded s

IsSound-Kept : Kept Asks AnyId IsSound
IsSound-Kept = record {
  by_reserve = λ sc d s law q c.
      Keeps-both IsConsistent IsBounded _ (reserve-Keeps sc law d.order_id d.sku d.quantity s c.0) (
        Reserves-bounds d.order_id d.sku d.quantity s _ q
          (reserve-Reserves sc law d.order_id d.sku d.quantity s) c.1);
  by_release = λ sc i s law _ c.
      Keeps-both IsConsistent IsBounded _ (release-Keeps sc law i s c.0)
        (Releases-bounds i s _ (release-Releases sc law i s) c.1);
  by_outbox = λ s es c. c;
  by_processed = λ s es c. c;
}

held_nonneg : (x : String) (rs : List Reservation) → Quantified rs → NotNegative (held x rs)
unfolding held
held_nonneg x [] q = omega arith
held_nonneg x (r ∷ rs) q =
    let rest = held_nonneg x rs q.1 in
    elim (Bool-cases (is_active r.status && str_eq x r.sku)) [
      | inl counts ↦ rw counts (omega int_laws)
      | inr not_counted ↦ rw not_counted rest
    ]

-- What is left of a stock, and what there is of it.
abbrev pub IsSellable : Product → Type 0
IsSellable p = (pos 0 ≤ℤ p.available) × (p.available ≤ℤ p.total)

sellable :
    (ps : List Product) (rs : List Reservation)
    → All (IsBalanced rs) ps
    → InStock ps
    → Quantified rs
    → All IsSellable ps
sellable [] rs b n q = tt
sellable (p ∷ ps) rs b n q = (
  (n.0, le_of_sum p.available (held p.sku rs) p.total b.0 (held_nonneg p.sku rs q)),
  sellable ps rs b.1 n.1 q,
)

-- The handler keeps the tables consistent and free of negative numbers.
pub handle_order_event-IsSound :
    (sc : ℕ → Service) (law : (n : ℕ) → IsService (sc n)) (a : ℕ → Ambient)
    (done : ℕ → Option Error) (msg : Message) (s : Db)
    → ((e : Envelope) → unmarshal_envelope msg.value ≡ ok e → Delivers Asks e)
    → IsSound s
    → IsSound (handle_order_event sc a done msg s).1
handle_order_event-IsSound sc law a done msg s asks h =
    handle_order_event-Kept Asks AnyId IsSound IsSound-Kept sc law a done msg s
      (λ e r. (asks e r, λ d _ _. tt)) h

-- Tables that are consistent and free of negative numbers.
pub IsSound-IsSellable : (s : Db) → IsSound s → All IsSellable s.products
IsSound-IsSellable s (c, b) = sellable s.products s.reservations c.balanced b.stock b.quantities

-- Whatever message arrives, if it asks for no negative quantity: from tables that are consistent
-- and hold no negative number, the handler leaves every product with 0 ≤ available ≤ total.
pub handle_order_event-IsSellable :
    (sc : ℕ → Service) (law : (n : ℕ) → IsService (sc n)) (a : ℕ → Ambient)
    (done : ℕ → Option Error) (msg : Message) (s : Db)
    → ((e : Envelope) → unmarshal_envelope msg.value ≡ ok e → Delivers Asks e)
    → IsConsistent s
    → IsBounded s
    → All IsSellable (handle_order_event sc a done msg s).1.products
handle_order_event-IsSellable sc law a done msg s asks c b =
    IsSound-IsSellable (handle_order_event sc a done msg s).1
      (handle_order_event-IsSound sc law a done msg s asks (c, b))
