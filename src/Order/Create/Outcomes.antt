-- ===== src/Order/Create/Outcomes.antt =====
-- What createOrder leaves behind, on each way that it ends.
use micro_go_lab.Base.{
  ℕ, ◌≡◌, refl, Bool, true, false, [], ◌∷◌, ◌++◌, none, find, ◌==◌, subst, if◌then◌else◌,
}
use micro_go_lab.Errors.{Result, ok, err, ◌>>=◌ as bind, err_user_not_found}
use micro_go_lab.Sql.{Tx, Created, Ran}
use micro_go_lab.Outbox.{Ambient, OutboxEvent, insert}
use micro_go_lab.Order.{
  Order, Db, Service, IsService, orders_schema, outbox_schema, default_quantity,
}
use micro_go_lab.Order.Repository.{create}
use micro_go_lab.Order.Create.{
  CreateOrderRequest, created_event, new_order, create_tx, create_order,
}

module _ (a : Ambient) (user_id : ℕ) (req : CreateOrderRequest) where
  -- The order as it stands in the table, under an id.
  abbrev pub stored : ℕ → Order
  stored id = record (new_order user_id req) { id = id; quantity = default_quantity req.quantity }

  -- One order, under an id that no other order has, and one event in the outbox that tells of it; or nothing.
  abbrev pub CreateOutcome : Db → Result Order × Db → Type 0
  CreateOutcome s (err e, s') = s' ≡ s
  CreateOutcome s (ok o, s') =
      (id : ℕ) × (k : ℕ) × (o ≡ stored id)
      × (find (λ q. id == q.id) s.orders ≡ none)
      × (s' ≡ record s {
        orders = s.orders ++ stored id ∷ [];
        outbox = s.outbox ++ record (created_event a (stored id)) { id = k } ∷ [];
      })

  module _ (sc : Service) (law : IsService sc) (s : Db) where
    Stores : Result (Order × Db) → Type 0
    Stores (err e) = Unit
    Stores (ok (o, s')) = CreateOutcome s (ok o, s')

    create_tx-Stores : Stores (create_tx sc a (new_order user_id req) s)
    unfolding create_tx create insert Stores new_order created_event
    create_tx-Stores =
        go (sc.orders.create (new_order user_id req) s)
          (law.orders.create_law (new_order user_id req) s)
      where
        sent :
            (o : Order) (id : ℕ) (s' : Db) (r : Result (OutboxEvent × Db))
            → o ≡ stored id
            → find (λ q. id == q.id) s.orders ≡ none
            → s' ≡ record s { orders = s.orders ++ stored id ∷ [] }
            → Created outbox_schema (created_event a o) s' r
            → Stores (
                bind {B = Order × Db}
                  (bind {B = Unit {0} × Db} r (λ x. ok (tt, x.1)))
                  (λ x. ok (o, x.1)))
        sent o id s' (err x) same fresh e k = tt
        sent o id s' (ok (e', t)) same fresh e (k, row, _, put) =
            (id, k, same, fresh, rw (put, row, e, same) refl)

        go :
            (r : Result (Order × Db))
            → Created orders_schema (new_order user_id req) s r
            → Stores (
                bind {B = Order × Db} r (λ x.
                  bind {B = Order × Db}
                    (insert sc.outbox (created_event a x.0) x.1)
                    (λ y. ok (x.0, y.1))))
        go (err x) k = tt
        go (ok (o, s')) (id, same, fresh, put) =
            sent o id s' (sc.outbox.create (created_event a o) s') same (rw same at fresh)
              (rw (put, same) refl) (law.outbox.create_law (created_event a o) s')

    -- Where createOrder answers an order, it is the pending order that was asked for, at version
    -- 0 and under an id that no order had, and it and its order.created event have been appended to
    -- their tables and nothing else; where it answers an error, nothing is written.
    pub create_order-CreateOutcome :
        (validate : ℕ → Result Bool) → CreateOutcome s (create_order sc a validate user_id req s)
    unfolding create_order Stores
    create_order-CreateOutcome validate = go (validate user_id)
      where
        ran :
            (r : Result Order × Db)
            → Ran (create_tx sc a (new_order user_id req)) s r
            → CreateOutcome s r
        ran (err x, s') e = e
        ran (ok o, s') e = subst Stores e create_tx-Stores

        block : Tx Db Order
        block = create_tx sc a (new_order user_id req)

        go :
            (r : Result Bool)
            → CreateOutcome s (elim r as (λ _. Result Order × Db) [
              | err e ↦ (err e, s)
              | ok exists ↦
                  if exists then sc.db.transaction block s else (err err_user_not_found, s)
            ])
        go (err e) = refl
        go (ok false) = refl
        go (ok true) = ran (sc.db.transaction block s) (law.db.transaction_law Order block s)
