-- ===== src/Order/Create.antt =====
-- service/order/api/internal/logic/order/createOrderLogic.go, less the switches BUG_CPU and
-- BUG_MEMLEAK, with which Order/Faults/Creating begins. Redis, the user service and the digest of
-- the idempotency key are parameters.
pub mod Gate
pub mod Outcomes
use micro_go_lab.Base.{
  ℕ, Bool, true, false, Option, none, some, String, List, [], ◌∷◌, ◌++◌, ℤ, str_eq, not, ◌&&◌,
  if◌then◌else◌,
}
use micro_go_lab.Errors.{
  Error, Result, ok, err, err_user_not_found, err_idempotency_conflict, ◌>>=◌ as bind,
}
use micro_go_lab.Sql.{Tx, ◌>>=◌, ◌>>◌, return}
use micro_go_lab.Event.{pending, no_reason, order_created, order_events}
use micro_go_lab.Event.Codec.{Payload, marshal, created}
use micro_go_lab.Outbox.{Ambient, OutboxEvent, new_event, insert}
use micro_go_lab.Order.{Order, Db, Service}
use micro_go_lab.Order.Repository.{create}

pub record CreateOrderRequest : Type 0 where
  pub product_name : String
  pub sku : String
  pub quantity : ℤ
  pub amount : ℤ

-- The outbox row of order.created
unfoldable pub created_event : Ambient → Order → OutboxEvent
unfolding new_event marshal
created_event a o = new_event a order_events o.user_id (record {
  event = order_created;
  version = 1;
  occurred_at = a.now;
  body = marshal (
      created (record {
        order_id = o.id;
        user_id = o.user_id;
        sku = o.sku;
        quantity = o.quantity;
        product_name = o.product_name;
        amount = o.amount;
        order_status = o.status;
      }));
})

-- `&model.Order{…}`
unfoldable pub new_order : ℕ → CreateOrderRequest → Order
new_order user_id req = record {
  id = 0;
  user_id = user_id;
  product_name = req.product_name;
  amount = req.amount;
  status = pending;
  version = 0;
  sku = req.sku;
  quantity = req.quantity;
  cancel_reason = no_reason;
}

module _ (sc : Service) (a : Ambient) where
  unfoldable pub create_tx : Order → Tx Db Order
  unfolding create created_event
  create_tx order = do o ← create sc order; insert sc.outbox (created_event a o); return o

  -- createOrder. `validate` is what ValidateUser answers: whether the user exists.
  unfoldable pub create_order : (ℕ → Result Bool) → ℕ → CreateOrderRequest → Db → Result Order × Db
  unfolding create_tx new_order
  create_order validate user_id req s = elim (validate user_id) [
    | err e ↦ (err e, s)
    | ok exists ↦
        if exists
        then sc.db.transaction (create_tx (new_order user_id req)) s
        else (err err_user_not_found, s)
  ]

-- What the gate uses of Redis: SetNX of the empty value, Get, Set of a marshalled order, Del. A
-- value is the text that stands there: `none` is the empty text.
pub record Redis (C : Type 0) : Type 0 where
  pub set_nx : String → C → Result Bool × C
  pub get : String → C → Result (Option Order)
  pub set : String → Order → C → C
  pub del : String → C → C

-- orderIDempotencyKey: `digest` is "order:idem:" and the hex of the sha256 of the number, a colon and
-- the key.
unfoldable pub order_idempotency_key : (ℕ → String → String) → ℕ → String → String
order_idempotency_key digest user_id key = digest user_id key

-- The outcome label of orders_created_total.
pub data Outcome : Type 0 where
  conflict failed success : Outcome

module _ {C : Type 0} (redis : Redis C) where
  -- replayOrder
  unfoldable pub replay_order : String → C → Result Order
  replay_order gate_key c = elim (redis.get gate_key c) [
    | ok (some cached) ↦ ok cached
    | ok none ↦ err err_idempotency_conflict
    | err e ↦ err err_idempotency_conflict
  ]

  -- What Create writes to Redis when createOrder has returned; an empty gate key is no gate.
  unfoldable pub settle_gate : String → Result Order → C → C
  settle_gate gate_key (err e) c = if str_eq gate_key "" then c else redis.del gate_key c
  settle_gate gate_key (ok o) c = if str_eq gate_key "" then c else redis.set gate_key o c

  abbrev pub label : Result Order → Outcome
  label (ok o) = success
  label (err e) = failed

  module _ (sc : Service) (a : Ambient) (validate : ℕ → Result Bool) where
    -- createOrder and what follows it in Create.
    unfoldable pub create_gated :
        String → ℕ → CreateOrderRequest → C → Db → Result Order × C × Db × Outcome
    unfolding create_order settle_gate
    create_gated gate_key user_id req c s =
        let (r, s') = create_order sc a validate user_id req s in
        (r, settle_gate gate_key r c, s', label r)

    -- What follows SetNX.
    unfoldable pub create_acquired :
        String → ℕ → CreateOrderRequest → Result Bool × C → Db → Result Order × C × Db × Outcome
    unfolding create_gated replay_order
    create_acquired gate_key user_id req (err e, c) s = create_gated "" user_id req c s
    create_acquired gate_key user_id req (ok true, c) s = create_gated gate_key user_id req c s
    create_acquired gate_key user_id req (ok false, c) s = (replay_order gate_key c, c, s, conflict)

    -- Create, of a context that has a Redis.
    unfoldable pub create_idempotent :
        (ℕ → String → String)
        → ℕ
        → CreateOrderRequest
        → String
        → C
        → Db
        → Result Order × C × Db × Outcome
    unfolding create_acquired order_idempotency_key
    create_idempotent digest user_id req key c s =
        if str_eq key ""
        then create_gated "" user_id req c s
        else (let gate_key = order_idempotency_key digest user_id key in
            create_acquired gate_key user_id req (redis.set_nx gate_key c) s)
