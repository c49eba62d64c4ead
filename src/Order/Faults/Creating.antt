-- ===== src/Order/Faults/Creating.antt =====
-- service/order/api/internal/logic/order/createOrderLogic.go: Create with the switches of the
-- exercises, and with a Redis or none.
use Prim.Native.Char.{code}
use micro_go_lab.Base.{
  ℕ, suc, ◌+◌, ◌/◌, ◌%◌, ◌≡◌, ◌≢◌, ◌⊎◌, refl, Bool, true, false, Option, none, some, String, List,
  [], ◌∷◌, ◌++◌, ℤ, str_eq, eq_refl, length, ap, ltb, Bool-cases, inl, inr, if◌then◌else◌,
}
use micro_go_lab.Errors.{Error, Result, ok, err, err_idempotency_conflict}
use micro_go_lab.Outbox.{Ambient}
use micro_go_lab.Order.{Order, Db, Service}
use micro_go_lab.Order.Create.{Redis, CreateOrderRequest, Outcome, create_order, create_idempotent}
use micro_go_lab.Order.Create.Gate.{IsRedis, create_idempotent-again}
use micro_go_lab.Order.Faults.{
  Env, RiskProfile, RiskCache, bug_enabled, put_profile, compute_risk_score, cache_risk_profile,
}

-- The bytes of a Go string that holds a text: UTF-8.
abbrev pub utf8 : ℕ → List ℕ
utf8 c =
    if ltb c 128
    then c ∷ []
    else if ltb c 2_048
    then (192 + c / 64) ∷ (128 + c % 64) ∷ []
    else if ltb c 65_536
    then (224 + c / 4_096) ∷ (128 + c / 64 % 64) ∷ (128 + c % 64) ∷ []
    else (240 + c / 262_144) ∷ (128 + c / 4_096 % 64) ∷ (128 + c / 64 % 64) ∷ (128 + c % 64) ∷ []

abbrev pub bytes_of : String → List ℕ
bytes_of String.[] = []
bytes_of (String.◌∷◌ c s) = utf8 (code c) ++ bytes_of s

-- The package's variables cpuBugSink and riskProfileCache.
pub record Load : Type 0 where
  pub cpu_bug_sink : ℕ
  pub risk_profile_cache : RiskCache

module _ (env : Env) (atoi : String → Option ℤ) (now : ℕ) where
  -- The first two statements of Create.
  unfoldable pub loaded : ℕ → CreateOrderRequest → String → Load → Load
  unfolding bug_enabled compute_risk_score cache_risk_profile
  loaded user_id req key load =
      let scored : Load =
        (if bug_enabled env "BUG_CPU"
          then record load {
            cpu_bug_sink = compute_risk_score env atoi (bytes_of req.product_name);
          }
          else load) in
      if bug_enabled env "BUG_MEMLEAK"
      then record scored {
        risk_profile_cache =
            cache_risk_profile env atoi now user_id req key scored.risk_profile_cache;
      }
      else scored

  module _ {C : Type 0} (sc : Service) (a : Ambient) (validate : ℕ → Result Bool)
      (digest : ℕ → String → String) (user_id : ℕ) (req : CreateOrderRequest) (key : String) where
    -- What follows the switches; a context without a Redis has no gate.
    unfoldable pub create_unloaded : Option (Redis C) → C → Db → Result Order × C × Db × Outcome
    unfolding create_idempotent create_order
    create_unloaded (some redis) c s =
        create_idempotent redis sc a validate digest user_id req key c s
    create_unloaded none c s =
        let (r, s') = create_order sc a validate user_id req s in (r, c, s', outcome r)
      where
        outcome : Result Order → Outcome
        outcome (ok o) = Outcome.success
        outcome (err e) = Outcome.failed

    -- Create
    unfoldable pub create :
        Option (Redis C) → Load → C → Db → (Result Order × C × Db × Outcome) × Load
    unfolding create_unloaded loaded
    create redis load c s = (create_unloaded redis c s, loaded user_id req key load)

-- A key that has been put is written over.
put_profile-length :
    (key : String) (p q : RiskProfile) (c : RiskCache)
    → length (put_profile key p (put_profile key q c)) ≡ length (put_profile key q c)
unfolding put_profile
put_profile-length key p q [] = let same : str_eq key key ≡ true = eq_refl key in rw same refl
put_profile-length key p q ((k, r) ∷ c) = elim (Bool-cases (str_eq k key)) [
  | inl here ↦ (let same : str_eq key key ≡ true = eq_refl key in rw here (rw same refl))
  | inr past ↦ rw past (rw past (ap suc (put_profile-length key p q c)))
]

module _ (atoi : String → Option ℤ) (user_id : ℕ) (key : String) where
  loaded-cache :
      (env : Env) (now : ℕ) (req : CreateOrderRequest) (load : Load)
      → (loaded env atoi now user_id req key load).risk_profile_cache ≡ (
          if bug_enabled env "BUG_MEMLEAK"
          then cache_risk_profile env atoi now user_id req key load.risk_profile_cache
          else load.risk_profile_cache)
  unfolding loaded
  loaded-cache env now req load = elim (Bool-cases (bug_enabled env "BUG_MEMLEAK")) [
    | inl m ↦ elim (Bool-cases (bug_enabled env "BUG_CPU")) [
      | inl x ↦ rw (m, x) refl
      | inr x ↦ rw (m, x) refl
    ]
    | inr m ↦ elim (Bool-cases (bug_enabled env "BUG_CPU")) [
      | inl x ↦ rw (m, x) refl
      | inr x ↦ rw (m, x) refl
    ]
  ]

  -- A second request under the key adds no profile to the cache.
  loaded-again :
      (env : Env) (now now' : ℕ) (req req' : CreateOrderRequest) (load : Load)
      → str_eq key "" ≡ false
      → let first = loaded env atoi now user_id req key load in
        length (loaded env atoi now' user_id req' key first).risk_profile_cache
        ≡ length first.risk_profile_cache
  unfolding cache_risk_profile
  loaded-again env now now' req req' load given =
      let first = loaded env atoi now user_id req key load in
      rw (loaded-cache env now' req' first) (elim (Bool-cases (bug_enabled env "BUG_MEMLEAK")) [
        | inl m ↦
            rw (m, loaded-cache env now req load, m, given)
              (put_profile-length key _ _ load.risk_profile_cache)
        | inr m ↦ rw m refl
      ])

module _ {C : Type 0} (redis : Redis C) (law : IsRedis redis) (sc : Service) (a : Ambient)
    (validate : ℕ → Result Bool) (user_id : ℕ) (digest : ℕ → String → String)
    (atoi : String → Option ℤ) where
  -- The same Idempotency-Key again, while Redis keeps it and answers, under the switches that the first
  -- request found, whatever they are: Create writes no table, it answers the order of the first time
  -- or ErrIdempotencyConflict, and the cache of risk profiles has as many entries as the first request
  -- has left, also where BUG_MEMLEAK is on.
  pub create-again :
      (env : Env) (now now' : ℕ) (req req' : CreateOrderRequest) (key : String) (load load' : Load)
      (c c1 c' : C) (s s' t : Db) (o : Order) (l : Outcome)
      → str_eq key "" ≡ false
      → str_eq (digest user_id key) "" ≡ false
      → redis.set_nx (digest user_id key) c ≡ (ok true, c1)
      → create env atoi now sc a validate digest user_id req key (some redis) load c s
        ≡ ((ok o, c', s', l), load')
      → ((e : Error) → (redis.set_nx (digest user_id key) c').0 ≢ err e)
      → let again =
          create env atoi now' sc a validate digest user_id req' key (some redis) load' c' t in
        (again.0.2 ≡ t)
        × ((again.0.0 ≡ ok o) ⊎ (again.0.0 ≡ err err_idempotency_conflict))
        × (length again.1.risk_profile_cache ≡ length load'.risk_profile_cache)
  unfolding create create_unloaded
  create-again env now now' req req' key load load' c c1 c' s s' t o l given named acquired first
        up =
      let one : create_idempotent redis sc a validate digest user_id req key c s
          ≡ (ok o, c', s', l) =
        ap (λ x. x.0) first in
      let left : loaded env atoi now user_id req key load ≡ load' = ap (λ x. x.1) first in
      let again =
        create_idempotent-again redis law sc a validate user_id digest req req' key c c1 c' s s' t o
          l given named acquired one up in
      (
        again.0,
        again.1,
        rw left at (loaded-again atoi user_id key env now now' req req' load given),
      )
