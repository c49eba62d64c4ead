-- ===== src/Event/Codec.antt =====
-- How the data of each event is marshalled and unmarshalled: the json tags of xevent/event.go, and
-- the Envelope, whose `Data any` a consumer unmarshals, marshals again and unmarshals once more.
use micro_go_lab.Base.{ℕ, String, [], ◌∷◌, pos, str_eq, if◌then◌else◌}
use micro_go_lab.Errors.{Result, ok, err, json_error, ◌>>=◌}
use micro_go_lab.Event.{
  EventType, OrderStatus, pending, paid, cancelled, other, Reason, no_reason, user_cancelled,
  out_of_stock, other_reason, UserRegisteredData, OrderCreatedData, OrderCancelledData,
  InventoryReservedData, ReservationFailedData,
}
use micro_go_lab.Event.Json.{num, text, Object, value, any_object, as_uint, as_int, as_string}

unfoldable pub status_text : OrderStatus → String
status_text pending = "pending"
status_text paid = "paid"
status_text cancelled = "cancelled"
status_text (other s) = s

unfoldable pub status_of : String → OrderStatus
status_of s =
    if str_eq s "pending"
    then pending
    else if str_eq s "paid"
    then paid
    else if str_eq s "cancelled"
    then cancelled
    else other s

unfoldable pub reason_text : Reason → String
reason_text no_reason = ""
reason_text user_cancelled = "USER_CANCELLED"
reason_text out_of_stock = "OUT_OF_STOCK"
reason_text (other_reason s) = s

unfoldable pub reason_of : String → Reason
reason_of s =
    if str_eq s ""
    then no_reason
    else if str_eq s "USER_CANCELLED"
    then user_cancelled
    else if str_eq s "OUT_OF_STOCK"
    then out_of_stock
    else other_reason s

-- The Data of an Envelope, by the struct that the producer puts there.
pub data Payload : Type 0 where
  registered : UserRegisteredData → Payload
  created : OrderCreatedData → Payload
  cancels : OrderCancelledData → Payload
  reserved : InventoryReservedData → Payload
  failed : ReservationFailedData → Payload

-- json.Marshal of Data
unfoldable pub marshal : Payload → Object
unfolding status_text reason_text
marshal (registered d) = ("user_id", num (pos d.user_id)) ∷ ("username", text d.username) ∷ []
marshal (created d) =
    ("order_id", num (pos d.order_id))
    ∷ ("user_id", num (pos d.user_id))
    ∷ ("sku", text d.sku)
    ∷ ("quantity", num d.quantity)
    ∷ ("product_name", text d.product_name)
    ∷ ("amount", num d.amount)
    ∷ ("status", text (status_text d.order_status))
    ∷ []
marshal (cancels d) =
    ("order_id", num (pos d.order_id))
    ∷ ("sku", text d.sku)
    ∷ ("quantity", num d.quantity)
    ∷ ("reason", text (reason_text d.reason))
    ∷ []
marshal (reserved d) = ("order_id", num (pos d.order_id)) ∷ []
marshal (failed d) =
    ("order_id", num (pos d.order_id)) ∷ ("reason", text (reason_text d.reason)) ∷ []

-- Envelope, as it stands in an outbox payload and in a Kafka message.
pub record Envelope : Type 0 where
  pub event : EventType
  pub version : ℕ
  pub occurred_at : ℕ
  pub body : Object

-- What a message's value is to json.Unmarshal.
pub data Document : Type 0 where
  malformed : Document
  envelope : Envelope → Document

-- json.Unmarshal(msg.Value, &envelope): numbers in Data become float64.
unfoldable pub unmarshal_envelope : Document → Result Envelope
unmarshal_envelope malformed = err json_error
unmarshal_envelope (envelope e) = ok (record e { body = any_object e.body })

-- json.Unmarshal of the data, marshalled again, into each struct
unfoldable pub unmarshal_registered : Object → Result UserRegisteredData
unmarshal_registered o = do
  u ← as_uint (value "user_id" o)
  n ← as_string (value "username" o)
  ok (record { user_id = u; username = n })

unfoldable pub unmarshal_created : Object → Result OrderCreatedData
unfolding status_of
unmarshal_created o = do
  i ← as_uint (value "order_id" o)
  u ← as_uint (value "user_id" o)
  s ← as_string (value "sku" o)
  q ← as_int (value "quantity" o)
  p ← as_string (value "product_name" o)
  a ← as_int (value "amount" o)
  t ← as_string (value "status" o)
  ok (record {
    order_id = i;
    user_id = u;
    sku = s;
    quantity = q;
    product_name = p;
    amount = a;
    order_status = status_of t;
  })

unfoldable pub unmarshal_cancelled : Object → Result OrderCancelledData
unfolding reason_of
unmarshal_cancelled o = do
  i ← as_uint (value "order_id" o)
  s ← as_string (value "sku" o)
  q ← as_int (value "quantity" o)
  r ← as_string (value "reason" o)
  ok (record { order_id = i; sku = s; quantity = q; reason = reason_of r })

unfoldable pub unmarshal_reserved : Object → Result InventoryReservedData
unmarshal_reserved o = do i ← as_uint (value "order_id" o); ok (record { order_id = i })

unfoldable pub unmarshal_failed : Object → Result ReservationFailedData
unfolding reason_of
unmarshal_failed o = do
  i ← as_uint (value "order_id" o)
  r ← as_string (value "reason" o)
  ok (record { order_id = i; reason = reason_of r })
