-- ===== src/Event/Delivery.antt =====
-- What a consumer unmarshals, against what the producer put into the event.
use micro_go_lab.Base.{
  some, ℕ, ◌+◌, ◌*◌, ◌%◌, ◌<◌, ◌≤◌, ◌≡◌, ◌≢◌, refl, String, ℤ, pos, negsuc, pos_part, neg_part,
  arith,
}
use micro_go_lab.Errors.{ok, >>=-eq-ok}
use micro_go_lab.Event.{
  OrderStatus, pending, paid, cancelled, other, Reason, no_reason, user_cancelled, out_of_stock,
  other_reason, OrderCreatedData, OrderCancelledData, ReservationFailedData,
}
use micro_go_lab.Event.Json.{
  num, significands, value, any_object, any_scalar, as_uint, as_int, as_string, float_ℤ,
  to_float64_exact, to_float64_even,
}
use micro_go_lab.Event.Codec.{
  marshal, created, cancels, failed, unmarshal_failed, status_of, status_text, reason_text,
  reason_of, unmarshal_created, unmarshal_cancelled,
}

-- An integer that a float64 holds.
abbrev pub Fits : ℤ → Type 0
Fits z = (pos_part z < significands) × (neg_part z < significands)

abbrev pub IsKnownStatus : OrderStatus → Type 0
IsKnownStatus s = (t : String) → s ≢ other t

abbrev pub IsKnownReason : Reason → Type 0
IsKnownReason r = (t : String) → r ≢ other_reason t

float_ℤ_exact : (z : ℤ) → Fits z → float_ℤ z ≡ z
unfolding float_ℤ
float_ℤ_exact (pos n) h = ground (arith, to_float64_exact n, to_float64_exact 0)
float_ℤ_exact (negsuc n) h = ground (arith, to_float64_exact (n + 1), to_float64_exact 0)

status_of-status_text : (s : OrderStatus) → IsKnownStatus s → status_of (status_text s) ≡ s
unfolding status_of status_text
status_of-status_text pending h = refl
status_of-status_text paid h = refl
status_of-status_text cancelled h = refl
status_of-status_text (other t) h = absurd (h t refl)

reason_of-reason_text : (r : Reason) → IsKnownReason r → reason_of (reason_text r) ≡ r
unfolding reason_of reason_text
reason_of-reason_text no_reason h = refl
reason_of-reason_text user_cancelled h = refl
reason_of-reason_text out_of_stock h = refl
reason_of-reason_text (other_reason t) h = absurd (h t refl)

pub as_uint-float : (n : ℕ) → n < significands → as_uint (some (num (float_ℤ (pos n)))) ≡ ok n
unfolding as_uint
as_uint-float n h = rw (float_ℤ_exact (pos n) (omega arith)) (ground arith)

pub as_int-float : (z : ℤ) → Fits z → as_int (some (num (float_ℤ z))) ≡ ok z
unfolding as_int
as_int-float (pos n) h = rw (float_ℤ_exact (pos n) h) (ground arith)
as_int-float (negsuc n) h = rw (float_ℤ_exact (negsuc n) h) (ground arith)

-- An order.created event whose numbers stay within 53 bits, and whose status is one of the three
-- constants, reaches the handler as it was sent.
pub unmarshal-marshal_created :
    (d : OrderCreatedData)
    → d.order_id < significands
    → d.user_id < significands
    → Fits d.quantity
    → Fits d.amount
    → IsKnownStatus d.order_status
    → unmarshal_created (any_object (marshal (created d))) ≡ ok d
unfolding unmarshal_created any_object marshal value any_scalar as_string
unmarshal-marshal_created d i u q a s = rw (
  as_uint-float d.order_id i,
  as_uint-float d.user_id u,
  as_int-float d.quantity q,
  as_int-float d.amount a,
  status_of-status_text d.order_status s,
)

-- An order.cancelled event whose numbers stay within 53 bits, and whose reason is one of the
-- constants or none, reaches the handler as it was sent.
pub unmarshal-marshal_cancelled :
    (d : OrderCancelledData)
    → d.order_id < significands
    → Fits d.quantity
    → IsKnownReason d.reason
    → unmarshal_cancelled (any_object (marshal (cancels d))) ≡ ok d
unfolding unmarshal_cancelled any_object marshal value any_scalar as_string
unmarshal-marshal_cancelled d i q r =
    rw (as_uint-float d.order_id i, as_int-float d.quantity q, reason_of-reason_text d.reason r)

as_uint-float_even :
    (n m : ℕ)
    → significands ≤ n
    → n < significands * 2
    → as_uint (some (num (float_ℤ (pos n)))) ≡ ok m
    → m % 2 ≡ 0
unfolding as_uint float_ℤ
as_uint-float_even n m h k e = ground (arith, to_float64_even n h k, to_float64_exact 0)

-- An odd order id from 2 ^ 53 up to 2 ^ 54 never arrives: if the handler of its order.cancelled
-- event can read the data, it is given the id of another order.
pub unmarshal-marshal_cancelled_odd :
    (d d' : OrderCancelledData)
    → significands ≤ d.order_id
    → d.order_id < significands * 2
    → d.order_id % 2 ≡ 1
    → unmarshal_cancelled (any_object (marshal (cancels d))) ≡ ok d'
    → d'.order_id ≢ d.order_id
unfolding unmarshal_cancelled any_object marshal value any_scalar as_string
unmarshal-marshal_cancelled_odd d d' h k odd e =
    let (n, at, rest) = >>=-eq-ok (as_uint (some (num (float_ℤ (pos d.order_id))))) _ e in
    ground (arith, as_uint-float_even d.order_id n h k at)

-- A reservation.failed event whose order id is within 53 bits, and whose reason is one of the
-- constants or none, reaches the handler as it was sent.
pub unmarshal-marshal_failed :
    (d : ReservationFailedData)
    → d.order_id < significands
    → IsKnownReason d.reason
    → unmarshal_failed (any_object (marshal (failed d))) ≡ ok d
unfolding unmarshal_failed any_object marshal value any_scalar as_string
unmarshal-marshal_failed d i r =
    rw (as_uint-float d.order_id i, reason_of-reason_text d.reason r) refl
