-- ===== src/Order/Update/Outcomes.antt =====
-- What Cancel, cancelOrder and paidOrder leave behind, on each way that they end.
use micro_go_lab.Base.{
  ℕ, ◌≡◌, ◌≢◌, refl, ap, ◌+◌, subst, inl, inr, Bool, Option, none, some, [], ◌∷◌, ◌++◌, find,
  update_where, arith, ◌==◌, Bool-cases, if◌then◌else◌,
}
use micro_go_lab.Errors.{Result, ok, err, ◌>>=◌ as bind, err_optimistic_conflict}
use micro_go_lab.Sql.{
  Created, Updated, Firsted, Ran, update_where-Affected_zero, find-Affected_pos, find-Affected_zero,
}
use micro_go_lab.Event.{pending, paid, Reason}
use micro_go_lab.Outbox.{Ambient, OutboxEvent, insert}
use micro_go_lab.Order.{Order, Db, Service, IsService, orders_schema, outbox_schema}
use micro_go_lab.Order.Repository.{
  versioned, set_status, set_cancelled, update_status, cancel, cancel_affected,
}
use micro_go_lab.Order.Update.{cancelled_event, cancel_written, cancel_tx, cancel_order, paid_order}

-- No row was matched and nothing is written; or the row that was looked for was there, its group of rows is cancelled, and
-- the row handed back is the first of that id in the new table.
abbrev pub Cancels : ℕ → ℕ → ℕ → Reason → Db → Result (Option Order × Db) → Type 0
Cancels user_id id version why s (err e) = Unit
Cancels user_id id version why s (ok (none, s')) =
    (s' ≡ s) × (find (versioned user_id id pending version) s.orders ≡ none)
Cancels user_id id version why s (ok (some o, s')) =
    (find (versioned user_id id pending version) s.orders ≢ none)
    × (find (λ q. q.id == id) s'.orders ≡ some o)
    × (s' ≡ record s {
      orders = update_where (versioned user_id id pending version) (set_cancelled why) s.orders;
    })

module _ (sc : Service) (law : IsService sc) where
  pub cancel-Cancels :
      (user_id id version : ℕ) (why : Reason) (s : Db)
      → Cancels user_id id version why s (cancel sc user_id id version why s)
  unfolding cancel cancel_affected
  cancel-Cancels user_id id version why s =
      updated (sc.orders.update p f s) (law.orders.update_law p f s)
    where
      p : Order → Bool
      p = versioned user_id id pending version

      f : Order → Order
      f = set_cancelled why

      changes : (o : Order) → f o ≢ o
      changes o same =
          let count : o.version + 1 ≡ o.version = ap (λ q. q.version) same in omega arith

      read :
          (s' : Db) (r : Result Order)
          → find p s.orders ≢ none
          → s' ≡ record s { orders = update_where p f s.orders }
          → Firsted orders_schema (λ q. q.id == id) s' r
          → Cancels user_id id version why s (
              bind {B = Option Order × Db}
                (bind {B = Order × Db} r (λ o. ok (o, s')))
                (λ x. ok (some x.0, x.1)))
      read s' (ok o) found e k = (found, k, e)
      read s' (err x) found e k = tt

      updated :
          (r : Result (ℕ × Db))
          → Updated orders_schema p f s r
          → Cancels user_id id version why s
              (bind {B = Option Order × Db} r (λ x. cancel_affected sc id x.0 x.1))
      updated (err x) k = tt
      updated (ok (n, s')) (k, e) = elim (Bool-cases (n == 0)) [
        | inl zero_rows ↦ rw zero_rows (
          rw (e, update_where-Affected_zero p f s.orders k (ground arith)) refl,
          find-Affected_zero p f s.orders changes k (ground arith),
        )
        | inr rows ↦ rw rows (
            read s' (sc.orders.first (λ q. q.id == id) s')
              (find-Affected_pos p f s.orders k (ground arith)) e
              (law.orders.first_law (λ q. q.id == id) s'))
      ]

  -- One cancelled order, and one event in the outbox that says so; or nothing.
  abbrev pub CancelOutcome : Ambient → Order → Reason → Db → Result Order × Db → Type 0
  CancelOutcome a o why s (err e, s') = s' ≡ s
  CancelOutcome a o why s (ok o', s') =
      (k : ℕ) × (find (versioned o.user_id o.id pending o.version) s.orders ≢ none)
      × (find (λ q. q.id == o.id) s'.orders ≡ some o')
      × (s' ≡ record s {
        orders =
            update_where (versioned o.user_id o.id pending o.version) (set_cancelled why) s.orders;
        outbox = s.outbox ++ record (cancelled_event a o' why) { id = k } ∷ [];
      })

  module _ (a : Ambient) (o : Order) (why : Reason) (s : Db) where
    Written : Result (Order × Db) → Type 0
    Written (err e) = Unit
    Written (ok (o', s')) = CancelOutcome a o why s (ok o', s')

    cancel_written-Written :
        (r : Result (Option Order × Db))
        → Cancels o.user_id o.id o.version why s r
        → Written (bind r (λ x. cancel_written sc a why x.0 x.1))
    unfolding Written cancel_written insert
    cancel_written-Written (err e) k = tt
    cancel_written-Written (ok (none, s')) k = tt
    cancel_written-Written (ok (some o', s')) (found, here, e) =
        go (sc.outbox.create (cancelled_event a o' why) s')
          (law.outbox.create_law (cancelled_event a o' why) s')
      where
        go :
            (r : Result (OutboxEvent × Db))
            → Created outbox_schema (cancelled_event a o' why) s' r
            → Written (
                bind {B = Order × Db}
                  (bind {B = Unit {0} × Db} r (λ x. ok (tt, x.1)))
                  (λ x. ok (o', x.1)))
        go (err x) c = tt
        go (ok (e', t)) (k, same, _, put) = (k, found, rw put here, rw (put, e, same) refl)

    -- Where cancelOrder answers an order, a pending row of that id, user and version was there,
    -- it is cancelled with the reason, and the order.cancelled event of the order is appended to
    -- the outbox; where it answers an error, nothing is written.
    pub cancel_order-CancelOutcome : CancelOutcome a o why s (cancel_order sc a o why s)
    unfolding cancel_order cancel_tx Written
    cancel_order-CancelOutcome =
        go (sc.db.transaction (cancel_tx sc a o why) s)
          (law.db.transaction_law Order (cancel_tx sc a o why) s)
      where
        go : (r : Result Order × Db) → Ran (cancel_tx sc a o why) s r → CancelOutcome a o why s r
        go (err x, s') e = e
        go (ok o', s') e = subst Written e (
            cancel_written-Written (cancel sc o.user_id o.id o.version why s)
              (cancel-Cancels o.user_id o.id o.version why s))

    -- Some row was there and its status is paid now; or nothing is written.
    abbrev pub PaidOutcome : Result Order × Db → Type 0
    PaidOutcome (err e, s') = s' ≡ s
    PaidOutcome (ok o', s') =
        (find (versioned o.user_id o.id o.status o.version) s.orders ≢ none)
        × (o' ≡ record o { status = paid })
        × (s' ≡ record s {
          orders =
              update_where (versioned o.user_id o.id o.status o.version) (set_status paid) s.orders;
        })

    pub paid_order-PaidOutcome : PaidOutcome (paid_order sc o s)
    unfolding paid_order update_status
    paid_order-PaidOutcome = go (sc.orders.update p f s) (law.orders.update_law p f s)
      where
        p : Order → Bool
        p = versioned o.user_id o.id o.status o.version

        f : Order → Order
        f = set_status paid

        go :
            (r : Result (ℕ × Db))
            → Updated orders_schema p f s r
            → PaidOutcome (elim r as (λ _. Result Order × Db) [
              | err e ↦ (err e, s)
              | ok (n, s') ↦
                  if n == 0
                  then (err err_optimistic_conflict, s')
                  else (ok (record o { status = paid }), s')
            ])
        go (err x) k = refl
        go (ok (n, s')) (k, e) = elim (Bool-cases (n == 0)) [
          | inl zero_rows ↦
              rw zero_rows (rw (e, update_where-Affected_zero p f s.orders k (ground arith)) refl)
          | inr rows ↦ rw rows (find-Affected_pos p f s.orders k (ground arith), refl, e)
        ]
