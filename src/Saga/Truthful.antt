-- ===== src/Saga/Truthful.antt =====
-- Writes to the orders and the outbox of the order service that leave its outbox truthful.
use micro_go_lab.Base.{
  ℕ, ◌≡◌, ◌≢◌, refl, ap, sym, ◌∙◌, inl, inr, Bool, List, [], ◌∷◌, ◌++◌, All, some, none, arith,
  find, update_where, find-holds, find-append_none, find-update_where, All-imply, All-append,
  All-find, All-update_where, Exists-append_last, Exists-update_where, Bool-cases, ◌==◌,
}
use micro_go_lab.Event.{Reason, pending, paid}
use micro_go_lab.Event.Codec.{envelope}
use micro_go_lab.Outbox.{Ambient, OutboxEvent}
use micro_go_lab.Order.{Order, Db}
use micro_go_lab.Order.Repository.{versioned, set_cancelled, set_status}
use micro_go_lab.Order.Create.{created_event}
use micro_go_lab.Order.Update.{cancelled_event}
use micro_go_lab.Order.Steps.{
  Evolves, Evolves-refl, Evolves-append, update_where-Evolves, versioned-IsPending, is_cancelled,
  is_paid,
}
use micro_go_lab.Saga.Telling.{
  Asks, HasCancelled, IsFit, Told, Tells-Evolves, created_event-Told, cancelled_event-Told,
}

-- The primary key of orders.
abbrev pub DistinctIds : List Order → Type 0
DistinctIds [] = Unit
DistinctIds (o ∷ os) = (find (λ q. o.id == q.id) os ≡ none) × DistinctIds os

-- No two orders have one id, their numbers travel as they are, and every row of the outbox tells the
-- truth about them.
pub record IsTruthful (s : Db) : Type 0 where
  pub distinct : DistinctIds s.orders
  pub fits : All IsFit s.orders
  pub told : All (Told s.orders) s.outbox

-- The orders move by legal steps, and the outbox stays truthful.
abbrev pub Continues : Db → Db → Type 0
Continues s s' = Evolves s.orders s'.orders × IsTruthful s'

pub Continues-refl : (s : Db) → IsTruthful s → Continues s s
Continues-refl s t = (Evolves-refl s.orders, t)

Told-Evolves :
    (os os' : List Order) (es : List OutboxEvent)
    → Evolves os os'
    → All (Told os) es
    → All (Told os') es
Told-Evolves os os' es e h =
    All-imply es (λ x told. Tells-Evolves os os' e (envelope x.payload) told) h

append-DistinctIds :
    (os : List Order) (o : Order)
    → find (λ q. o.id == q.id) os ≡ none
    → DistinctIds os
    → DistinctIds (os ++ o ∷ [])
unfolding find
append-DistinctIds [] o f d = (refl, tt)
append-DistinctIds (q ∷ os) o f d =
    let other : find (λ x. q.id == x.id) (o ∷ []) ≡ none = ground arith in
    (
      find-append_none (λ x. q.id == x.id) os (o ∷ []) d.0 ∙ other,
      append-DistinctIds os o (ground arith) d.1,
    )

update_where-DistinctIds :
    (p : Order → Bool) (f : Order → Order) (os : List Order)
    → ((o : Order) → (f o).id ≡ o.id)
    → DistinctIds os
    → DistinctIds (update_where p f os)
unfolding update_where
update_where-DistinctIds p f [] same d = tt
update_where-DistinctIds p f (o ∷ os) same d =
    let rest = update_where-DistinctIds p f os same d.1 in
    let alone : find (λ q. o.id == q.id) (update_where p f os) ≡ none =
      find-update_where (λ q. o.id == q.id) p f os (λ q. rw (same q) refl) d.0 in
    elim (Bool-cases (p o)) [
      | inl hit ↦ rw (hit, same o) (alone, rest)
      | inr miss ↦ rw miss (alone, rest)
    ]

-- A created order and its row.
pub stored-Continues :
    (a : Ambient) (o : Order) (k : ℕ) (s s' : Db)
    → IsTruthful s
    → IsFit o
    → find (λ q. o.id == q.id) s.orders ≡ none
    → o.status ≡ pending
    → o.version ≡ 0
    → s' ≡ record s {
      orders = s.orders ++ o ∷ [];
      outbox = s.outbox ++ record (created_event a o) { id = k } ∷ [];
    }
    → Continues s s'
stored-Continues a o k s s' t fit fresh p v e =
    let os' = s.orders ++ o ∷ [] in
    let evolves : Evolves s.orders os' = Evolves-append s.orders o p v in
    rw e (
      evolves,
      record {
        distinct = append-DistinctIds s.orders o fresh t.distinct;
        fits = All-append IsFit s.orders o t.fits fit;
        told =
            All-append (Told os') s.outbox (record (created_event a o) { id = k })
              (Told-Evolves s.orders os' s.outbox evolves t.told)
              (created_event-Told os' a o k fit
                (Exists-append_last (Asks o.id o.sku o.quantity) s.orders (refl, refl, refl)));
      },
    )

-- A pending order that is cancelled, and its row.
pub cancelled-Continues :
    (a : Ambient) (user_id i v k : ℕ) (o' : Order) (why : Reason) (s s' : Db)
    → IsTruthful s
    → find (versioned user_id i pending v) s.orders ≢ none
    → find (λ q. q.id == i) s'.orders ≡ some o'
    → s' ≡ record s {
      orders = update_where (versioned user_id i pending v) (set_cancelled why) s.orders;
      outbox = s.outbox ++ record (cancelled_event a o' why) { id = k } ∷ [];
    }
    → Continues s s'
unfolding versioned set_cancelled
cancelled-Continues a user_id i v k o' why s s' t found read e =
    let p = versioned user_id i pending v in
    let os' = update_where p (set_cancelled why) s.orders in
    let evolves : Evolves s.orders os' =
      update_where-Evolves p (set_cancelled why) s.orders
        (λ q h. is_cancelled why (versioned-IsPending user_id i v q h) refl) in
    let fits' : All IsFit os' =
      All-update_where IsFit p (set_cancelled why) s.orders (λ q _ h. h) t.fits in
    let named : o'.id ≡ i =
      let hit = find-holds (λ q. q.id == i) s'.orders o' read in ground arith in
    let fit' : IsFit o' =
      All-find IsFit (λ q. q.id == i) os' o' fits'
        (ap (λ x. find (λ q. q.id == i) x.orders) (sym e) ∙ read) in
    rw e (
      evolves,
      record {
        distinct = update_where-DistinctIds p (set_cancelled why) s.orders (λ q. refl) t.distinct;
        fits = fits';
        told =
            All-append (Told os') s.outbox (record (cancelled_event a o' why) { id = k })
              (Told-Evolves s.orders os' s.outbox evolves t.told)
              (cancelled_event-Told os' a o' why k fit'.0 (
                Exists-update_where (HasCancelled o'.id) p (set_cancelled why) s.orders
                  (λ q h. (ground arith, refl)) found));
      },
    )

-- An order that was pending and is paid; no row tells of it.
pub paid-Continues :
    (user_id i v : ℕ) (s s' : Db)
    → IsTruthful s
    → s' ≡ record s {
      orders = update_where (versioned user_id i pending v) (set_status paid) s.orders;
    }
    → Continues s s'
unfolding set_status
paid-Continues user_id i v s s' t e =
    let p = versioned user_id i pending v in
    let os' = update_where p (set_status paid) s.orders in
    let evolves : Evolves s.orders os' =
      update_where-Evolves p (set_status paid) s.orders
        (λ q h. is_paid (versioned-IsPending user_id i v q h) refl) in
    rw e (
      evolves,
      record {
        distinct = update_where-DistinctIds p (set_status paid) s.orders (λ q. refl) t.distinct;
        fits = All-update_where IsFit p (set_status paid) s.orders (λ q _ h. h) t.fits;
        told = Told-Evolves s.orders os' s.outbox evolves t.told;
      },
    )
