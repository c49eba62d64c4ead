-- ===== src/Saga/Telling.antt =====
-- What the events of the order service tell, held against its table of orders.
use micro_go_lab.Base.{
  ℕ, ◌≤ℤ◌, ◌≡◌, ◌<◌, refl, inl, inr, List, [], ◌∷◌, String, ℤ, Exists, some, pos, arith,
}
use micro_go_lab.Errors.{ok, >>=-eq-ok}
use micro_go_lab.Event.{
  order_created, order_cancelled, cancelled, OrderCreatedData, OrderCancelledData, Reason,
}
use micro_go_lab.Event.Json.{
  significands, value, any_object, any_scalar, as_string, as_uint, as_int, num, float_ℤ,
}
use micro_go_lab.Event.Codec.{
  Document, Envelope, envelope, marshal, created, cancels, unmarshal_envelope, unmarshal_created,
  unmarshal_cancelled, status_text,
}
use micro_go_lab.Event.Delivery.{Fits, as_uint-float, as_int-float}
use micro_go_lab.Inventory.Handling.{Delivers, Cancelling}
use micro_go_lab.Outbox.{Ambient, OutboxEvent, new_event}
use micro_go_lab.Order.{Order}
use micro_go_lab.Order.Create.{created_event}
use micro_go_lab.Order.Update.{cancelled_event}
use micro_go_lab.Order.Repository.{set_status, set_cancelled}
use micro_go_lab.Saga.{created_data, cancelled_data}
use micro_go_lab.Order.Steps.{Step, stays, is_paid, is_cancelled, Evolves}

-- The order asks for the quantity of the sku, under the id.
abbrev pub Asks : ℕ → String → ℤ → Order → Type 0
Asks i sku q o = (o.id ≡ i) × (o.sku ≡ sku) × (o.quantity ≡ q)

abbrev pub HasCancelled : ℕ → Order → Type 0
HasCancelled i o = (o.id ≡ i) × (o.status ≡ cancelled)

-- The numbers that travel in both events are within 53 bits, and the quantity is not negative.
abbrev pub IsFit : Order → Type 0
IsFit o = (o.id < significands) × Fits o.quantity × (pos 0 ≤ℤ o.quantity)

-- Whoever reads an order.created event finds its order, and whoever reads an order.cancelled event
-- finds its order cancelled.
abbrev pub Tells : List Order → Document → Type 0
Tells os m =
    (e : Envelope)
    → unmarshal_envelope m ≡ ok e
    → Delivers (λ d. Exists (Asks d.order_id d.sku d.quantity) os) e
      × Cancelling (λ i. Exists (HasCancelled i) os) e

Step-Asks :
    (i : ℕ) (sku : String) (q : ℤ) (o o' : Order) → Step o o' → Asks i sku q o → Asks i sku q o'
unfolding set_status set_cancelled
Step-Asks i sku q o o' (stays e) h = rw e h
Step-Asks i sku q o o' (is_paid p e) h = rw e h
Step-Asks i sku q o o' (is_cancelled why p e) h = rw e h

Step-HasCancelled : (i : ℕ) (o o' : Order) → Step o o' → HasCancelled i o → HasCancelled i o'
unfolding set_status set_cancelled status_text
Step-HasCancelled i o o' (stays e) h = rw e h
Step-HasCancelled i o o' (is_paid p e) h =
    let t : ◌≡◌ {A = String} "cancelled" "pending" = rw h.1 at p in absurd (cc)
Step-HasCancelled i o o' (is_cancelled why p e) h = rw e (h.0, refl)

Exists-Evolves :
    (P : Order → Type 0) (os os' : List Order)
    → ((o o' : Order) → Step o o' → P o → P o')
    → Evolves os os'
    → Exists P os
    → Exists P os'
Exists-Evolves P [] os' keep e h = absurd (cc)
Exists-Evolves P (o ∷ os) [] keep e h = absurd (cc)
Exists-Evolves P (o ∷ os) (o' ∷ os') keep (s, e) (inl h) = inl (keep o o' s h)
Exists-Evolves P (o ∷ os) (o' ∷ os') keep (s, e) (inr h) = inr (Exists-Evolves P os os' keep e h)

module _ (os os' : List Order) (e : Evolves os os') where
  pub Asks-Evolves :
      (i : ℕ) (sku : String) (q : ℤ) → Exists (Asks i sku q) os → Exists (Asks i sku q) os'
  Asks-Evolves i sku q = Exists-Evolves (Asks i sku q) os os' (Step-Asks i sku q) e

  pub HasCancelled-Evolves : (i : ℕ) → Exists (HasCancelled i) os → Exists (HasCancelled i) os'
  HasCancelled-Evolves i = Exists-Evolves (HasCancelled i) os os' (Step-HasCancelled i) e

  -- What an event tells stays true while orders move by legal steps.
  pub Tells-Evolves : (m : Document) → Tells os m → Tells os' m
  Tells-Evolves m t x r =
      let told = t x r in
      (
        λ d h u. Asks-Evolves d.order_id d.sku d.quantity (told.0 d h u),
        λ c h u. HasCancelled-Evolves c.order_id (told.1 c h u),
      )

pub unmarshal_created-reads :
    (d d' : OrderCreatedData)
    → d.order_id < significands
    → Fits d.quantity
    → unmarshal_created (any_object (marshal (created d))) ≡ ok d'
    → (d.order_id ≡ d'.order_id) × (d.sku ≡ d'.sku) × (d.quantity ≡ d'.quantity)
unfolding unmarshal_created any_object marshal value any_scalar as_string
unmarshal_created-reads d d' i q h =
    let (u, read, after) =
      >>=-eq-ok (as_uint (some (num (float_ℤ (pos d.user_id))))) _
        (rw (as_uint-float d.order_id i, as_int-float d.quantity q) at h) in
    let (a, read', last) = >>=-eq-ok (as_int (some (num (float_ℤ d.amount)))) _ after in
    ground arith

pub unmarshal_cancelled-reads :
    (d d' : OrderCancelledData)
    → d.order_id < significands
    → unmarshal_cancelled (any_object (marshal (cancels d))) ≡ ok d'
    → d.order_id ≡ d'.order_id
unfolding unmarshal_cancelled any_object marshal value any_scalar as_string
unmarshal_cancelled-reads d d' i h =
    let (q, read, last) =
      >>=-eq-ok (as_int (some (num (float_ℤ d.quantity)))) _
        (rw (as_uint-float d.order_id i) at h) in
    ground arith

-- An outbox row, by what it tells.
abbrev pub Told : List Order → OutboxEvent → Type 0
Told os e = Tells os (envelope e.payload)

-- The order.created row of an order tells of it.
pub created_event-Told :
    (os : List Order) (a : Ambient) (o : Order) (k : ℕ)
    → IsFit o
    → Exists (Asks o.id o.sku o.quantity) os
    → Told os (record (created_event a o) { id = k })
unfolding created_event new_event unmarshal_envelope
created_event-Told os a o k fit there e r = (
  λ d h u.
      let same = unmarshal_created-reads (created_data o) d fit.0 fit.1 (reads d u) in
      rw (← same.0, ← same.1, ← same.2) there,
  λ c h u. let other : order_created ≡ order_cancelled = cc in absurd (cc),
)
  where
    reads :
        (d : OrderCreatedData)
        → unmarshal_created e.body ≡ ok d
        → unmarshal_created (any_object (marshal (created (created_data o)))) ≡ ok d
    reads d u = cc

-- The order.cancelled row of a cancelled order tells of it.
pub cancelled_event-Told :
    (os : List Order) (a : Ambient) (o : Order) (why : Reason) (k : ℕ)
    → o.id < significands
    → Exists (HasCancelled o.id) os
    → Told os (record (cancelled_event a o why) { id = k })
unfolding cancelled_event new_event unmarshal_envelope
cancelled_event-Told os a o why k i there e r = (
  λ d h u. let other : order_cancelled ≡ order_created = cc in absurd (cc),
  λ c h u. rw (← unmarshal_cancelled-reads (cancelled_data o why) c i (reads c u)) there,
)
  where
    reads :
        (c : OrderCancelledData)
        → unmarshal_cancelled e.body ≡ ok c
        → unmarshal_cancelled (any_object (marshal (cancels (cancelled_data o why)))) ≡ ok c
    reads c u = cc
