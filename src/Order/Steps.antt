-- ===== src/Order/Steps.antt =====
-- The life of an order: pending, then paid or cancelled, and no step after.
use micro_go_lab.Base.{
  ℕ, ◌≡◌, ◌≢◌, refl, inl, inr, Bool, true, false, none, List, [], ◌∷◌, ◌++◌, find, update_where,
  arith, Bool-cases, eq_iff,
}
use micro_go_lab.Errors.{Result, ok, err}
use micro_go_lab.Event.{OrderStatus, pending, paid, cancelled, other, Reason, user_cancelled}
use micro_go_lab.Event.Codec.{status_text}
use micro_go_lab.Outbox.{Ambient}
use micro_go_lab.Order.{Order, Db, Service, IsService}
use micro_go_lab.Order.Repository.{
  versioned, same_status, set_status, set_cancelled, is_valid_transition, find_by_id_and_user_id,
}
use micro_go_lab.Order.Update.{update_order_status, update_found, cancel_order, paid_order}
use micro_go_lab.Order.Update.Outcomes.{
  CancelOutcome, PaidOutcome, cancel_order-CancelOutcome, paid_order-PaidOutcome,
}

abbrev pub IsPending : Order → Type 0
IsPending o = status_text o.status ≡ "pending"

pub data Step (o o' : Order) : Type 0 where
  stays : o' ≡ o → Step o o'
  is_paid : IsPending o → o' ≡ set_status paid o → Step o o'
  is_cancelled : (why : Reason) → IsPending o → o' ≡ set_cancelled why o → Step o o'

-- Each order of the first table takes one step to the order in its place in the second, and the
-- orders that come after are pending, at version 0.
abbrev pub Evolves : List Order → List Order → Type 0
Evolves [] [] = Unit
Evolves [] (o' ∷ os') = (o'.status ≡ pending) × (o'.version ≡ 0) × Evolves [] os'
Evolves (o ∷ os) [] = true ≡ false
Evolves (o ∷ os) (o' ∷ os') = Step o o' × Evolves os os'

pub Evolves-refl : (os : List Order) → Evolves os os
Evolves-refl [] = tt
Evolves-refl (o ∷ os) = (stays refl, Evolves-refl os)

pub Evolves-append :
    (os : List Order) (o : Order) → o.status ≡ pending → o.version ≡ 0 → Evolves os (os ++ o ∷ [])
Evolves-append [] o p v = (p, v, tt)
Evolves-append (q ∷ os) o p v = (stays refl, Evolves-append os o p v)

pub update_where-Evolves :
    (p : Order → Bool) (f : Order → Order) (os : List Order)
    → ((o : Order) → p o ≡ true → Step o (f o))
    → Evolves os (update_where p f os)
unfolding update_where
update_where-Evolves p f [] step = tt
update_where-Evolves p f (o ∷ os) step = elim (Bool-cases (p o)) [
  | inl hit ↦ rw hit (step o hit, update_where-Evolves p f os step)
  | inr miss ↦ rw miss (stays refl, update_where-Evolves p f os step)
]

-- An update after which a row no longer satisfies the condition leaves no row that does.
pub find-update_where-none :
    (p : Order → Bool) (f : Order → Order) (os : List Order)
    → ((o : Order) → p o ≡ true → p (f o) ≡ false)
    → find p (update_where p f os) ≡ none
unfolding update_where find
find-update_where-none p f [] h = refl
find-update_where-none p f (o ∷ os) h = elim (Bool-cases (p o)) [
  | inl hit ↦ ground (arith, h o hit, find-update_where-none p f os h)
  | inr miss ↦ ground (arith, find-update_where-none p f os h)
]

pub versioned-IsPending : (u i v : ℕ) (o : Order) → versioned u i pending v o ≡ true → IsPending o
unfolding versioned same_status status_text
versioned-IsPending u i v o h = (eq_iff (status_text o.status) "pending").0 (ground arith)

versioned-version : (u i v : ℕ) (o : Order) → versioned u i pending v o ≡ true → o.version ≡ v
unfolding versioned
versioned-version u i v o h = ground arith

later : (u i v : ℕ) (o : Order) → o.version ≢ v → versioned u i pending v o ≡ false
unfolding versioned
later u i v o h = ground arith

paid_later :
    (u i v : ℕ) (o : Order)
    → versioned u i pending v o ≡ true
    → versioned u i pending v (set_status paid o) ≡ false
unfolding set_status
paid_later u i v o h =
    let e = versioned-version u i v o h in later u i v (set_status paid o) (omega arith)

cancelled_later :
    (why : Reason) (u i v : ℕ) (o : Order)
    → versioned u i pending v o ≡ true
    → versioned u i pending v (set_cancelled why o) ≡ false
unfolding set_cancelled
cancelled_later why u i v o h =
    let e = versioned-version u i v o h in later u i v (set_cancelled why o) (omega arith)

-- The order that was read was pending, and it was still so when the write came; now no order is as
-- it was read. Or nothing is written.
abbrev pub Advances : Order → Db → Result Order × Db → Type 0
Advances o s (err e, s') = s' ≡ s
Advances o s (ok o', s') =
    (find (versioned o.user_id o.id pending o.version) s.orders ≢ none)
    × (find (versioned o.user_id o.id pending o.version) s'.orders ≡ none)
    × Evolves s.orders s'.orders

module _ (sc : Service) (law : IsService sc) (a : Ambient) where
  cancelled-Advances :
      (o : Order) (why : Reason) (s : Db) (r : Result Order × Db)
      → CancelOutcome sc law a o why s r
      → Advances o s r
  cancelled-Advances o why s (err e, s') k = k
  cancelled-Advances o why s (ok o', s') (k, found, here, e) = rw e (
    found,
    find-update_where-none (versioned o.user_id o.id pending o.version) (set_cancelled why) s.orders
        (cancelled_later why o.user_id o.id o.version),
    update_where-Evolves (versioned o.user_id o.id pending o.version) (set_cancelled why) s.orders
        (λ q h. is_cancelled why (versioned-IsPending o.user_id o.id o.version q h) refl),
  )

  paid-Advances :
      (o : Order) (s : Db) (r : Result Order × Db)
      → o.status ≡ pending
      → PaidOutcome sc law a o user_cancelled s r
      → Advances o s r
  paid-Advances o s (err e, s') p k = k
  paid-Advances o s (ok o', s') p (found, here, e) =
      rw (e, p)
        (
          rw p at found,
          find-update_where-none (versioned o.user_id o.id pending o.version) (set_status paid)
              s.orders (paid_later o.user_id o.id o.version),
          update_where-Evolves (versioned o.user_id o.id pending o.version) (set_status paid)
              s.orders (λ q h. is_paid (versioned-IsPending o.user_id o.id o.version q h) refl),
        )

  pub from_pending : (f t : OrderStatus) → is_valid_transition f t ≡ true → f ≡ pending
  unfolding is_valid_transition
  from_pending pending t h = refl
  from_pending paid t h = cc
  from_pending cancelled t h = cc
  from_pending (other x) t h = cc

  pub update_found-Advances :
      (to : OrderStatus) (o : Order) (s : Db) → Advances o s (update_found sc a to (ok o) s)
  unfolding update_found
  update_found-Advances to o s = elim (Bool-cases (is_valid_transition o.status to)) [
    | inr illegal ↦ rw illegal refl
    | inl legal ↦ rw legal (elim (Bool-cases (same_status to cancelled)) [
      | inl cancels ↦ rw cancels (
          cancelled-Advances o user_cancelled s (cancel_order sc a o user_cancelled s)
            (cancel_order-CancelOutcome sc law a o user_cancelled s))
      | inr pays ↦ rw pays (
          paid-Advances o s (paid_order sc o s) (from_pending o.status to legal)
            (paid_order-PaidOutcome sc law a o user_cancelled s))
    ])
  ]

  -- Whatever status is asked for, whatever other sessions do between the read and the write, and
  -- whatever statements fail: the request moves orders by legal steps alone, from pending, and each
  -- step adds one to the version.
  pub update_order_status-Evolves :
      (meanwhile : Db → Db) (user_id id : ℕ) (to : OrderStatus) (s : Db)
      → Evolves (meanwhile s).orders (update_order_status sc a meanwhile user_id id to s).1.orders
  unfolding update_order_status update_found
  update_order_status-Evolves meanwhile user_id id to s =
      go (find_by_id_and_user_id sc id user_id s)
    where
      evolved :
          (o : Order) (r : Result Order × Db)
          → Advances o (meanwhile s) r
          → Evolves (meanwhile s).orders r.1.orders
      evolved o (err e, s') k = rw k (Evolves-refl (meanwhile s).orders)
      evolved o (ok o', s') (_, _, k) = k

      go :
          (r : Result Order)
          → Evolves (meanwhile s).orders (update_found sc a to r (meanwhile s)).1.orders
      go (err e) = Evolves-refl (meanwhile s).orders
      go (ok o) =
          evolved o (update_found sc a to (ok o) (meanwhile s))
            (update_found-Advances to o (meanwhile s))
