-- ===== src/User/Validation.antt =====
-- ValidateUser behind its cache: what it answers, and a user whom the cache hides.
use micro_go_lab.Base.{
  ℕ, ◌≡◌, ◌⊎◌, refl, sym, ap, ◌∙◌, inl, inr, Bool, true, false, some, none, String, List, [], ◌∷◌,
  ◌++◌, find, ◌==◌, find-append_none, Bool-cases, arith, if◌then◌else◌,
}
use micro_go_lab.Errors.{
  Error, Result, ok, err, is_record_not_found, cache_miss, err_user_not_found,
}
use micro_go_lab.Sql.{Firsted}
use micro_go_lab.Cache.{Store, get_or_load, looked_up, load, is_miss, negative_marker}
use micro_go_lab.Cache.Coherence.{answer, Agrees, IsStore, IsFormat, get_or_load-Transparent}
use micro_go_lab.Outbox.{Ambient}
use micro_go_lab.User.{User, Db, Service, IsService, users_schema}
use micro_go_lab.User.Rpc.{
  Summary, CreateUserRequest, UserResponse, find_by_id, load_summary, summarised, validate_user,
  create_user, rpc_internal,
}
use micro_go_lab.User.Registration.{RegisterOutcome, stored, create_user-RegisterOutcome}
use micro_go_lab.Order
use micro_go_lab.Order.Create.{CreateOrderRequest, create_order}

-- What the table says of a number: whether a user has it, and the name; or the table could not be
-- read.
abbrev pub Validates : ℕ → Db → Result Summary → Type 0
Validates id s (err e) = e ≡ rpc_internal
Validates id s (ok v) =
    ((find (λ u. u.id == id) s.users ≡ none) × (v ≡ record { exists = false; username = "" }))
    ⊎ ((u : User) × (find (λ u. u.id == id) s.users ≡ some u)
        × (v ≡ record { exists = true; username = u.username }))

-- What the loader finds: the user, no user, or a failure.
abbrev Loads : ℕ → Db → Result Summary → Type 0
Loads id s (ok v) =
    (u : User) × (find (λ u. u.id == id) s.users ≡ some u)
    × (v ≡ record { exists = true; username = u.username })
Loads id s (err e) =
    ((e ≡ cache_miss) × (find (λ u. u.id == id) s.users ≡ none)) ⊎ (e ≡ rpc_internal)

module _ (sc : Service) (law : IsService sc) where
  load_summary-Loads : (id : ℕ) (s : Db) → Loads id s (answer (load_summary sc id s))
  unfolding load_summary find_by_id answer is_miss
  load_summary-Loads id s = go (sc.users.first p s) (law.users.first_law p s)
    where
      p : User → Bool
      p u = u.id == id

      go :
          (r : Result User)
          → Firsted users_schema p s r
          → Loads id s (
              answer (elim r as (λ _. Result Summary) [
                | err e ↦ if is_record_not_found e then err cache_miss else err rpc_internal
                | ok u ↦ ok (record { exists = true; username = u.username })
              ]))
      go (ok u) f = (u, f, refl)
      go (err e) f = elim (Bool-cases (is_record_not_found e)) [
        | inl absent ↦ rw absent (inl (refl, f absent))
        | inr failed ↦ rw failed (inr refl)
      ]

  summarised-Validates :
      {C : Type 0} (id : ℕ) (s : Db) (r : Result Summary) (c : C)
      → Loads id s r
      → Validates id s (summarised sc (r, c)).0
  unfolding is_miss
  summarised-Validates id s (ok v) c (u, f, e) = inr (u, f, e)
  summarised-Validates id s (err e) c (inl (miss, f)) = rw miss (inl (f, refl))
  summarised-Validates id s (err e) c (inr failed) = rw failed refl

  summarised-cache : {C : Type 0} (r : Result Summary × C) → (summarised sc r).1 ≡ r.1
  summarised-cache (ok v, c) = refl
  summarised-cache (err e, c) = refl

  -- With a cache that agrees with the table under the key of a number: ValidateUser answers what
  -- the table says of the number, hit or miss, or that the table could not be read, and the cache
  -- agrees with the table after.
  pub validate_user-Validates :
      {C : Type 0} (redis : Store C) (key : ℕ → String) (marshal : Summary → Result String)
      (unmarshal : String → Result Summary) (id : ℕ) (s : Db) (c : C)
      → IsStore redis (key id)
      → IsFormat marshal unmarshal
      → Agrees unmarshal (load_summary sc id s) (redis.get (key id) c)
      → let after = validate_user sc (some redis) key marshal unmarshal id s c in
        Validates id s after.0
        × Agrees unmarshal (load_summary sc id s) (redis.get (key id) after.1)
  unfolding validate_user
  validate_user-Validates redis key marshal unmarshal id s c store format agrees =
      let (same, after) =
        get_or_load-Transparent redis (key id) marshal unmarshal store format (load_summary sc id s)
          c agrees in
      let got = get_or_load (some redis) (key id) marshal unmarshal (load_summary sc id s) c in
      (
        summarised-Validates id s got.0 got.1 (rw same (load_summary-Loads id s)),
        rw (summarised-cache got) after,
      )

-- What the order service takes of the response.
abbrev pub exists_of : Result Summary → Result Bool
exists_of (err e) = err e
exists_of (ok v) = ok v.exists

create_order-refused :
    (sc : Order.Service) (a : Ambient) (validate : ℕ → Result Bool) (i : ℕ)
    (order : CreateOrderRequest) (t : Order.Db)
    → validate i ≡ ok false
    → create_order sc a validate i order t ≡ (err err_user_not_found, t)
unfolding create_order
create_order-refused sc a validate i order t h = rw (h, create_order) refl

find-registered :
    (id : ℕ) (us : List User) (u : User)
    → find (λ v. v.id == id) us ≡ none
    → u.id ≡ id
    → find (λ v. v.id == id) (us ++ u ∷ []) ≡ some u
unfolding find
find-registered id us u f same = find-append_none (λ v. v.id == id) us (u ∷ []) f ∙ ground arith

module _ (sc : Service) (law : IsService sc) (a : Ambient) {C : Type 0} (redis : Store C)
    (key : ℕ → String) (marshal : Summary → Result String)
    (unmarshal : String → Result Summary) where
  abbrev pub asked : ℕ → Db → C → Result Summary × C
  asked id s c = validate_user sc (some redis) key marshal unmarshal id s c

  asked-absent :
      (id : ℕ) (s : Db) (c : C) (e missing : Error)
      → redis.get (key id) c ≡ err e
      → sc.users.first (λ u. u.id == id) s ≡ err missing
      → is_record_not_found missing ≡ true
      → (asked id s c).1 ≡ redis.set (key id) negative_marker c
  unfolding validate_user get_or_load looked_up load load_summary find_by_id is_miss
  asked-absent id s c e missing empty absent not_found =
      let miss : load_summary sc id s ≡ err cache_miss =
        rw (absent, load_summary, not_found) refl in
      rw (empty, looked_up, miss, load) refl

  asked-hidden :
      (id : ℕ) (s : Db) (c : C)
      → redis.get (key id) c ≡ ok negative_marker
      → (asked id s c).0 ≡ ok (record { exists = false; username = "" })
  unfolding validate_user get_or_load looked_up is_miss
  asked-hidden id s c marked = rw marked refl

  -- ValidateUser is asked of a number that nobody has and that the cache does not hold, and Redis
  -- keeps what it is given. Then a user is registered under that number. ValidateUser still
  -- answers that nobody has it, and the order service refuses the user's orders: CreateUser
  -- leaves the cache as it is.
  pub create_user-hidden :
      (req : CreateUserRequest) (resp : UserResponse) (s s' : Db) (c : C) (e missing : Error)
      (orders : Order.Service) (b : Ambient) (order : CreateOrderRequest) (t : Order.Db)
      → redis.get (key resp.id) c ≡ err e
      → sc.users.first (λ u. u.id == resp.id) s ≡ err missing
      → is_record_not_found missing ≡ true
      → redis.get (key resp.id) (redis.set (key resp.id) negative_marker c) ≡ ok negative_marker
      → create_user sc a req s ≡ (ok resp, s')
      → let later = asked resp.id s' (asked resp.id s c).1 in
        ((u : User) × (find (λ v. v.id == resp.id) s'.users ≡ some u) × (u.username ≡ req.username))
        × (later.0 ≡ ok (record { exists = false; username = "" }))
        × (create_order orders b
              (λ i. exists_of (asked i s' (asked resp.id s c).1).0)
              resp.id
              order
              t
            ≡ (err err_user_not_found, t))
  create_user-hidden req resp s s' c e missing orders b order t empty absent not_found keeps done =
      let outcome : RegisterOutcome sc a req s (ok resp, s') =
        rw done at (create_user-RegisterOutcome sc law a req s) in
      let (id, k, hashed, _, _, _, made, put) = outcome in
      let first : Firsted users_schema (λ u. u.id == resp.id) s (err missing) =
        rw absent at (law.users.first_law (λ u. u.id == resp.id) s) in
      let same : id ≡ resp.id = sym (ap (λ r. r.id) made) in
      let marked : (asked resp.id s c).1 ≡ redis.set (key resp.id) negative_marker c =
        asked-absent resp.id s c e missing empty absent not_found in
      let still : redis.get (key resp.id) (asked resp.id s c).1 ≡ ok negative_marker =
        rw marked keeps in
      let hides = asked-hidden resp.id s' (asked resp.id s c).1 still in
      (
        (
          stored req id hashed,
          rw put (find-registered resp.id s.users (stored req id hashed) (first not_found) same),
          refl,
        ),
        hides,
        create_order-refused orders b _ resp.id order t (ap exists_of hides),
      )
