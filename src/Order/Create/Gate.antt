-- ===== src/Order/Create/Gate.antt =====
-- The idempotency gate: what Create does with a key that it has seen.
use micro_go_lab.Base.{
  ℕ, ◌≡◌, ◌≢◌, ◌⊎◌, refl, inl, inr, Bool, true, false, Option, none, some, String, str_eq, arith,
}
use micro_go_lab.Errors.{Error, Result, ok, err, err_idempotency_conflict}
use micro_go_lab.Outbox.{Ambient}
use micro_go_lab.Order.{Order, Db, Service}
use micro_go_lab.Order.Create.{
  Redis, CreateOrderRequest, Outcome, order_idempotency_key, create_order, create_gated,
  create_acquired, create_idempotent, replay_order, settle_gate, label,
}

-- What Get may answer of a key that was set to an order.
abbrev pub Reads : Order → Result (Option Order) → Type 0
Reads o (ok v) = v ≡ some o
Reads o (err e) = Unit

-- Redis before a key expires: a key that is set is not acquired, an attempt that does not acquire
-- it writes nothing, and Get reads what was set or fails.
pub record IsRedis {C : Type 0} (redis : Redis C) : Type 0 where
  pub taken_law : (k : String) (o : Order) (c : C) → (redis.set_nx k (redis.set k o c)).0 ≢ ok true
  pub kept_law : (k : String) (c : C) → (redis.set_nx k c).0 ≢ ok true → (redis.set_nx k c).1 ≡ c
  pub read_law : (k : String) (o : Order) (c : C) → Reads o (redis.get k (redis.set k o c))

module _ {C : Type 0} (redis : Redis C) (law : IsRedis redis) where
  replay_order-Reads :
      (k : String) (o : Order) (c : C)
      → (replay_order redis k (redis.set k o c) ≡ ok o)
        ⊎ (replay_order redis k (redis.set k o c) ≡ err err_idempotency_conflict)
  unfolding replay_order
  replay_order-Reads k o c = go (redis.get k (redis.set k o c)) (law.read_law k o c)
    where
      go :
          (r : Result (Option Order))
          → Reads o r
          → let answer : Result Order = (elim r [
            | ok (some cached) ↦ ok cached
            | ok none ↦ err err_idempotency_conflict
            | err e ↦ err err_idempotency_conflict
          ]) in
            (answer ≡ ok o) ⊎ (answer ≡ err err_idempotency_conflict)
      go (ok none) h = inr refl
      go (ok (some v)) h = inl (cc)
      go (err e) h = inr refl

  module _ (sc : Service) (a : Ambient) (validate : ℕ → Result Bool) (user_id : ℕ) where
    -- A gated Create that answers an order has set the key to it.
    gated-sets :
        (k : String) (req : CreateOrderRequest) (c c' : C) (s s' : Db) (o : Order) (l : Outcome)
        → str_eq k "" ≡ false
        → create_gated redis sc a validate k user_id req c s ≡ (ok o, c', s', l)
        → c' ≡ redis.set k o c
    unfolding create_gated settle_gate
    gated-sets k req c c' s s' o l key e = go (create_order sc a validate user_id req s) e
      where
        go :
            (r : Result Order × Db)
            → ◌≡◌ {A = Result Order × C × Db × Outcome}
                (r.0, settle_gate redis k r.0 c, r.1, label redis r.0)
                (ok o, c', s', l)
            → c' ≡ redis.set k o c
        go (ok o', t) h = ground (arith, key)
        go (err x, t) h = cc

    -- With the key set to an order, Create writes no table if Redis answers.
    replayed :
        (k : String) (req : CreateOrderRequest) (c : C) (s : Db) (o : Order)
        → (answer : Result Bool × C) → answer.0 ≢ ok true
        → ((e : Error) → answer.0 ≢ err e)
        → answer.1 ≡ redis.set k o c
        → let again = create_acquired redis sc a validate k user_id req answer s in
          (again.2 ≡ s) × ((again.0 ≡ ok o) ⊎ (again.0 ≡ err err_idempotency_conflict))
    unfolding create_acquired
    replayed k req c s o (ok true, c') h up kept = absurd (h refl)
    replayed k req c s o (err e, c') h up kept = absurd (up e refl)
    replayed k req c s o (ok false, c') h up kept = rw kept (refl, replay_order-Reads k o c)

    -- The same request again, while its key has not expired and Redis answers: Create writes no
    -- table, and answers the order of the first time or ErrIdempotencyConflict.
    pub create_idempotent-again :
        (digest : ℕ → String → String) (req req' : CreateOrderRequest) (key : String) (c c1 c' : C)
        (s s' t : Db) (o : Order) (l : Outcome)
        → str_eq key "" ≡ false
        → str_eq (digest user_id key) "" ≡ false
        → redis.set_nx (digest user_id key) c ≡ (ok true, c1)
        → create_idempotent redis sc a validate digest user_id req key c s ≡ (ok o, c', s', l)
        → ((e : Error) → (redis.set_nx (digest user_id key) c').0 ≢ err e)
        → let again = create_idempotent redis sc a validate digest user_id req' key c' t in
          (again.2 ≡ t) × ((again.0 ≡ ok o) ⊎ (again.0 ≡ err err_idempotency_conflict))
    unfolding create_idempotent create_acquired order_idempotency_key
    create_idempotent-again digest req req' key c c1 c' s s' t o l given named acquired first up =
        let k = digest user_id key in
        let kept : c' ≡ redis.set k o c1 =
          gated-sets k req c1 c' s s' o l named (rw (given, acquired, create_acquired) at first) in
        rw given (
          replayed k req' c1 t o (redis.set_nx k c') (rw kept (law.taken_law k o c1)) up
            (rw kept (law.kept_law k (redis.set k o c1) (law.taken_law k o c1))))
