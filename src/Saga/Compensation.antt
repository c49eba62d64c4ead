-- ===== src/Saga/Compensation.antt =====
-- An order that is created and then cancelled leaves the stock as it was.
use micro_go_lab.Base.{
  ℕ, ◌≡◌, ◌≢◌, refl, ap, ◌∙◌, inl, inr, false, Option, none, some, String, List, [], ◌∷◌, ℤ, ◌+ℤ◌,
  ◌-ℤ◌, find, find-append_none, find-implies, str_eq, update_where, arith, int_laws, Bool-cases,
  eq_iff,
}
use micro_go_lab.Errors.{Error, ok}
use micro_go_lab.Event.{Reason}
use micro_go_lab.Event.Delivery.{IsKnownReason}
use micro_go_lab.Idempotent.Once.{with_id}
use micro_go_lab.Outbox.{Ambient}
use micro_go_lab.Outbox.Poller.{Format}
use micro_go_lab.Retry.{Label}
use micro_go_lab.Inventory.{
  Db, Product, Reservation, reserved, released, Service, IsService, is_active,
}
use micro_go_lab.Inventory.Keys.{
  of_order, active_of, set_released, increment, stocked, decrement, DistinctSkus,
}
use micro_go_lab.Inventory.Effects.{reservation}
use micro_go_lab.Inventory.Races.{find_here}
use micro_go_lab.Inventory.Outcomes.{Outcome}
use micro_go_lab.Inventory.Consumer.{handle_order_event}
use micro_go_lab.Order.{Order}
use micro_go_lab.Saga.{placed, created_data, IsSendable}
use micro_go_lab.Saga.Reserving.{created_row, cancelled_row, created_message-Outcome}
use micro_go_lab.Saga.Restoring.{Restores, cancelled_message-Restores}

sub_add_back : (a q : ℤ) → a -ℤ q +ℤ q ≡ a
sub_add_back a q = omega int_laws

-- No product of the sku: the UPDATEs of the sku change nothing.
untouched :
    (sku : String) (q : ℤ) (ps : List Product)
    → find (λ p. str_eq p.sku sku) ps ≡ none
    → update_where
        (λ p. str_eq p.sku sku)
        (increment q)
        (update_where (stocked sku q) (decrement q) ps)
      ≡ ps
unfolding find update_where
untouched sku q [] f = refl
untouched sku q (p ∷ ps) f = ground (arith, untouched sku q ps)

find-stocked :
    (sku : String) (q : ℤ) (ps : List Product)
    → find (λ p. str_eq p.sku sku) ps ≡ none
    → find (stocked sku q) ps ≡ none
find-stocked sku q ps f =
    find-implies (stocked sku q) (λ p. str_eq p.sku sku) ps (λ p h. ground arith) f

-- What the guarded UPDATE of Reserve takes, the UPDATE of Release gives back.
increment-decrement :
    (sku : String) (q : ℤ) (ps : List Product)
    → DistinctSkus ps
    → find (stocked sku q) ps ≢ none
    → update_where
        (λ p. str_eq p.sku sku)
        (increment q)
        (update_where (stocked sku q) (decrement q) ps)
      ≡ ps
unfolding find update_where
increment-decrement sku q [] d f = refl
increment-decrement sku q (p ∷ ps) d f = elim (Bool-cases (str_eq p.sku sku)) [
  | inl hit ↦
      let same : p.sku ≡ sku = (eq_iff p.sku sku).0 hit in
      let alone : find (λ x. str_eq x.sku sku) ps ≡ none = rw same at d.0 in
      ground
        (arith, untouched sku q ps alone, find-stocked sku q ps alone, sub_add_back p.available q)
  | inr miss ↦ ground (arith, increment-decrement sku q ps d.1)
]

none_active :
    (i : ℕ) (rs : List Reservation) → find (of_order i) rs ≡ none → find (active_of i) rs ≡ none
none_active i rs f = find-implies (active_of i) (of_order i) rs (λ r h. ground arith) f

all_released :
    (i : ℕ) (rs : List Reservation)
    → find (active_of i) (update_where (active_of i) set_released rs) ≡ none
unfolding find update_where is_active
all_released i [] = refl
all_released i (r ∷ rs) = ground (arith, all_released i rs)

-- The stock is that of `s`, and nothing of it is held for the order.
abbrev pub IsCompensated : ℕ → Db → Db → Type 0
IsCompensated i s s' = (s'.products ≡ s.products) × (find (active_of i) s'.reservations ≡ none)

-- An order that held nothing before, and for which Reserve has taken stock or has not.
Restores-Outcome :
    (a : Ambient) (o : Order) (s mid s1 mid' : Db)
    → DistinctSkus s.products
    → find (of_order o.id) s.reservations ≡ none
    → Outcome a (created_data o) s (ok (tt, mid))
    → s1.products ≡ mid.products
    → s1.reservations ≡ mid.reservations
    → Restores o.id s1 mid'
    → IsCompensated o.id s mid'
Restores-Outcome a o s mid s1 mid' d fresh (inl (id, k, stock, _, e)) ps rs h = go h
  where
    row : Reservation
    row = reservation id o.id o.sku o.quantity

    held : find (of_order o.id) s1.reservations ≡ some row
    held =
        rw (rs, e)
          (find-append_none (of_order o.id) s.reservations (row ∷ []) fresh ∙ find_here row)

    go : Restores o.id s1 mid' → IsCompensated o.id s mid'
    go (inl (_, inl gone)) = let there = held in absurd (cc)
    go (inl (_, inr (q, found, st))) =
        let there = held in
        let same : row ≡ q = cc in
        let st' : reserved ≡ released = ap (λ r. r.status) same ∙ st in absurd (cc)
    go (inr (q, found, _, put)) =
        let there = held in
        let same : q ≡ row = cc in
        (
          rw (put, same, ps, e) (increment-decrement o.sku o.quantity s.products d stock),
          rw put (all_released o.id s1.reservations),
        )
Restores-Outcome a o s mid s1 mid' d fresh (inr (k, e)) ps rs h = go h
  where
    absent : find (of_order o.id) s1.reservations ≡ none
    absent = rw (rs, e) fresh

    go : Restores o.id s1 mid' → IsCompensated o.id s mid'
    go (inl (same, _)) = (rw (same, ps, e) refl, rw same (none_active o.id s1.reservations absent))
    go (inr (q, found, _, _)) = let missing = absent in absurd (cc)

module _ (sc : ℕ → Service) (law : (n : ℕ) → IsService (sc n)) (a : ℕ → Ambient)
    (done : ℕ → Option Error) (f : Format) (b b' : Ambient) (o : Order) (why : Reason)
    (k k' p p' i i' : ℕ) where
  -- The order.created row of an order and the order.cancelled row of it, each with a known
  -- status or reason and numbers within 53 bits, are published under two event ids that are
  -- not empty and not yet processed. If the inventory service, its skus distinct and nothing
  -- reserved for the order, handles the first message and then the second, both without an error,
  -- then every product is as it was and no active reservation of the order is left, whether the
  -- stock sufficed or not.
  pub cancelled_message-IsCompensated :
      (s s1 s2 : Db) (ls ls' : List Label)
      → IsSendable o
      → IsKnownReason why
      → DistinctSkus s.products
      → find (of_order o.id) s.reservations ≡ none
      → str_eq b.uuid "" ≡ false
      → str_eq b'.uuid "" ≡ false
      → find (with_id b.uuid) s.processed ≡ none
      → find (with_id b'.uuid) s1.processed ≡ none
      → handle_order_event sc a done (placed f (created_row b o k) p i) s ≡ (ok tt, s1, ls)
      → handle_order_event sc a done (placed f (cancelled_row b' o why k') p' i') s1
        ≡ (ok tt, s2, ls')
      → IsCompensated o.id s s2
  cancelled_message-IsCompensated s s1 s2 ls ls' fits known d fresh named named' new new' h h' =
      let (n, mid, outcome, (row, _, put)) =
        created_message-Outcome sc law a done f b o k p i s s1 ls fits named new h in
      let (mid', restores, (row', _, put')) =
        cancelled_message-Restores sc law a done f b' o why k' p' i' s1 s2 ls' fits.id fits.quantity
          known named' new' h' in
      let end =
        Restores-Outcome (a n) o s mid s1 mid' d fresh outcome (ap (λ x. x.products) put)
          (ap (λ x. x.reservations) put) restores in
      (rw put' end.0, rw put' end.1)
