-- ===== src/Inventory/Handling.antt =====
-- The whole handler of order events keeps the tables consistent.
use micro_go_lab.Base.{
  ℕ, ◌≡◌, refl, inl, inr, Bool, false, Option, String, List, [], ◌∷◌, ◌++◌, str_eq, ◌==◌,
  Bool-cases,
}
use micro_go_lab.Errors.{Error, Result, ok, err, ◌>>=◌ as bind, is_record_not_found}
use micro_go_lab.Sql.{Created}
use micro_go_lab.Sql.Keeps.{Keeps, Keeps->>=}
use micro_go_lab.Event.{
  EventType, order_created, order_cancelled, OrderCreatedData, OrderCancelledData,
}
use micro_go_lab.Event.Json.{Object}
use micro_go_lab.Event.Codec.{Envelope, unmarshal_envelope, unmarshal_created, unmarshal_cancelled}
use micro_go_lab.Outbox.{Ambient, OutboxEvent, insert}
use micro_go_lab.Idempotent.{ProcessedEvent}
use micro_go_lab.Idempotent.Keeps.{process-keeps}
use micro_go_lab.Retry.{Label, default_retry_options, with_retry}
use micro_go_lab.Retry.Keeps.{with_retry-keeps}
use micro_go_lab.Stream.{Message, header}
use micro_go_lab.Inventory.{Db, Service, IsService, outbox_schema, processed_schema}
use micro_go_lab.Inventory.Repository.{reserve, release}
use micro_go_lab.Inventory.Consumer.{
  write_outbox, report, handle_order_created, handle_order_cancelled, dispatch, released_or_absent,
  process_order_event, settle, handle_order_event,
}
use micro_go_lab.Inventory.Balance.{IsConsistent, reserve-Keeps, release-Keeps}

-- What is wanted of the order of an order.created message.
abbrev pub Delivers : (OrderCreatedData → Type 0) → Envelope → Type 0
Delivers Good e =
    (d : OrderCreatedData) → e.event ≡ order_created → unmarshal_created e.body ≡ ok d → Good d

-- What is wanted of the order that an order.cancelled message names.
abbrev pub Cancelling : (ℕ → Type 0) → Envelope → Type 0
Cancelling Free e =
    (c : OrderCancelledData)
    → e.event ≡ order_cancelled
    → unmarshal_cancelled e.body ≡ ok c
    → Free c.order_id

-- A predicate that Reserve keeps on wanted orders, that Release keeps on orders that may be
-- released, and that does not read the tables of events.
pub record Kept (Good : OrderCreatedData → Type 0) (Free : ℕ → Type 0) (P : Db → Type 0)
    : Type 1 where
  pub by_reserve :
      (sc : Service) (d : OrderCreatedData) (s : Db)
      → IsService sc
      → Good d
      → P s
      → Keeps P (reserve sc d.order_id d.sku d.quantity s)
  pub by_release :
      (sc : Service) (i : ℕ) (s : Db) → IsService sc → Free i → P s → Keeps P (release sc i s)
  pub by_outbox : (s : Db) (es : List OutboxEvent) → P s → P (record s { outbox = es })
  pub by_processed : (s : Db) (es : List ProcessedEvent) → P s → P (record s { processed = es })

module _ (Good : OrderCreatedData → Type 0) (Free : ℕ → Type 0) (P : Db → Type 0)
    (kept : Kept Good Free P) where
  module _ (sc : Service) (law : IsService sc) (a : Ambient) where
    insert-Keeps : (e : OutboxEvent) (s : Db) → P s → Keeps P (insert sc.outbox e s)
    unfolding insert
    insert-Keeps e s c = go (sc.outbox.create e s) (law.outbox.create_law e s)
      where
        go :
            (r : Result (OutboxEvent × Db))
            → Created outbox_schema e s r
            → Keeps {A = Unit {0}} P (bind r (λ x. ok (tt, x.1)))
        go (ok (e', s')) (id, _, _, put) = rw put (kept.by_outbox s (s.outbox ++ e' ∷ []) c)
        go (err x) h = tt

    report-Keeps : (i n : ℕ) (s : Db) → P s → Keeps P (report sc a i n s)
    unfolding report write_outbox
    report-Keeps i n s c = elim (Bool-cases (n == 1)) [
      | inl one ↦ rw one (insert-Keeps _ s c)
      | inr none ↦ rw none (insert-Keeps _ s c)
    ]

    handle_order_created-Keeps :
        (body : Object) (s : Db)
        → ((d : OrderCreatedData) → unmarshal_created body ≡ ok d → Good d)
        → P s
        → Keeps P (handle_order_created sc a body s)
    unfolding handle_order_created
    handle_order_created-Keeps body s good c = go (unmarshal_created body) refl
      where
        go :
            (r : Result OrderCreatedData)
            → unmarshal_created body ≡ r
            → Keeps {A = Unit {0}} P (
                bind {A = OrderCreatedData × Db} (bind r (λ d. ok (d, s))) (λ x.
                  bind
                    (reserve sc x.0.order_id x.0.sku x.0.quantity x.1)
                    (λ y. report sc a x.0.order_id y.0 y.1)))
        go (err x) e = tt
        go (ok d) e =
            Keeps->>= P (reserve sc d.order_id d.sku d.quantity) (report sc a d.order_id) s
              (kept.by_reserve sc d s law (good d e) c) (λ n s'. report-Keeps d.order_id n s')

    handle_order_cancelled-Keeps :
        (body : Object) (s : Db)
        → ((c : OrderCancelledData) → unmarshal_cancelled body ≡ ok c → Free c.order_id)
        → P s
        → Keeps P (handle_order_cancelled sc a body s)
    unfolding handle_order_cancelled
    handle_order_cancelled-Keeps body s free c = go (unmarshal_cancelled body) refl
      where
        after : (r : Result (ℕ × Db)) → Keeps P r → Keeps P (released_or_absent sc a s r)
        after (ok (n, s')) k = k
        after (err x) k = elim (Bool-cases (is_record_not_found x)) [
          | inl absent ↦ rw absent c
          | inr failed ↦ rw failed tt
        ]

        go :
            (r : Result OrderCancelledData)
            → unmarshal_cancelled body ≡ r
            → Keeps {A = Unit {0}} P (
                bind {A = OrderCancelledData × Db}
                  (bind r (λ d. ok (d, s)))
                  (λ x. released_or_absent sc a x.1 (release sc x.0.order_id x.1)))
        go (err x) e = tt
        go (ok d) e =
            after (release sc d.order_id s) (kept.by_release sc d.order_id s law (free d e) c)

    dispatch-Keeps :
        (e : Envelope) (t : EventType) (s : Db)
        → e.event ≡ t
        → Delivers Good e
        → Cancelling Free e
        → P s
        → Keeps P (dispatch sc a t e.body s)
    unfolding dispatch
    dispatch-Keeps e order_created s h g l c = handle_order_created-Keeps e.body s (λ d. g d h) c
    dispatch-Keeps e order_cancelled s h g l c =
        handle_order_cancelled-Keeps e.body s (λ d. l d h) c
    dispatch-Keeps e _ s h g l c = c

    process_order_event-keeps :
        (id : String) (e : Envelope) (s : Db)
        → Delivers Good e
        → Cancelling Free e
        → P s
        → P (process_order_event sc a id e s).1
    unfolding process_order_event
    process_order_event-keeps id e s g l c =
        process-keeps processed_schema sc.db sc.processed law.db law.processed P kept.by_processed
          id (dispatch sc a e.event e.body) s c (dispatch-Keeps e e.event s refl g l c)

  -- The whole handler keeps such a predicate, whatever statements fail at whichever attempt.
  pub handle_order_event-Kept :
      (sc : ℕ → Service) (law : (n : ℕ) → IsService (sc n)) (a : ℕ → Ambient)
      (done : ℕ → Option Error) (msg : Message) (s : Db)
      → ((e : Envelope) → unmarshal_envelope msg.value ≡ ok e → Delivers Good e × Cancelling Free e)
      → P s
      → P (handle_order_event sc a done msg s).1
  unfolding handle_order_event
  handle_order_event-Kept sc law a done msg s good c =
      elim (Bool-cases (str_eq (header "event_id" msg.headers) "")) [
        | inl missing ↦ rw missing c
        | inr id ↦ rw id (go (unmarshal_envelope msg.value) good)
      ]
    where
      fn : Envelope → ℕ → Db → Result Bool × Db
      fn e n = process_order_event (sc n) (a n) (header "event_id" msg.headers) e

      after : (r : Result Bool × Db × List Label) → P r.1 → P (settle r).1
      after (ok x, s', ls) c' = c'
      after (err x, s', ls) c' = c'

      go :
          (r : Result Envelope)
          → ((e : Envelope) → r ≡ ok e → Delivers Good e × Cancelling Free e)
          → P
              (elim r as (λ _. Result (Unit {0}) × Db × List Label) [
                | err x ↦ (err x, s, [])
                | ok e ↦ settle (with_retry default_retry_options (fn e) done false s)
              ]).1
      go (err x) g = c
      go (ok e) g = after (with_retry default_retry_options (fn e) done false s) (
          with_retry-keeps P default_retry_options (fn e) done false
            (λ n s' c'.
              process_order_event-keeps (sc n) (law n) (a n) _ e s' (g e refl).0 (g e refl).1 c')
            s c)

abbrev Any : OrderCreatedData → Type 0
Any d = Unit

-- No wish about the orders that are released.
abbrev pub AnyId : ℕ → Type 0
AnyId i = Unit

IsConsistent-Kept : Kept Any AnyId IsConsistent
IsConsistent-Kept = record {
  by_reserve = λ sc d s law _ c. reserve-Keeps sc law d.order_id d.sku d.quantity s c;
  by_release = λ sc i s law _ c. release-Keeps sc law i s c;
  by_outbox = λ s es c. c;
  by_processed = λ s es c. c;
}

-- From consistent tables, whatever message arrives, whatever statements fail at whichever
-- attempt, and however often the block is retried: skus and order ids stay distinct, and of every
-- product the available quantity and the active reservations add up to the total.
pub handle_order_event-IsConsistent :
    (sc : ℕ → Service) (law : (n : ℕ) → IsService (sc n)) (a : ℕ → Ambient)
    (done : ℕ → Option Error) (msg : Message) (s : Db)
    → IsConsistent s
    → IsConsistent (handle_order_event sc a done msg s).1
handle_order_event-IsConsistent sc law a done msg s c =
    handle_order_event-Kept Any AnyId IsConsistent IsConsistent-Kept sc law a done msg s
      (λ e _. (λ d _ _. tt, λ d _ _. tt)) c
