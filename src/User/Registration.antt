-- ===== src/User/Registration.antt =====
-- service/user/rpc: what CreateUser leaves behind, and what Authenticate makes of it.
use micro_go_lab.Base.{
  ℕ, ◌≡◌, ◌⊎◌, ◌∙◌, refl, ap, inl, inr, ◌==◌, arith, find-implies, Bool, true, Option, none, some,
  String, [], ◌∷◌, ◌++◌, find, str_eq, eq_refl, Bool-cases, find-append_none, if◌then◌else◌,
}
use micro_go_lab.Errors.{Error, Result, ok, err, ◌>>=◌ as bind, is_record_not_found}
use micro_go_lab.Sql.{Created, Firsted}
use micro_go_lab.Outbox.{Ambient, OutboxEvent, insert}
use micro_go_lab.User.{User, Db, Service, IsService, users_schema, outbox_schema}
use micro_go_lab.User.Rpc.{
  CreateUserRequest, UserResponse, AuthenticateResponse, registered_event, find_by_username,
  find_by_email, create, response, committed, user_created, create_begun, absent, create_hashed,
  create_user, authenticate, rpc_internal, refused,
}

abbrev pub named : String → User → Bool
named name u = str_eq u.username name

abbrev pub numbered : ℕ → User → Bool
numbered id u = u.id == id

abbrev pub stored : CreateUserRequest → ℕ → String → User
stored req id hashed = record {
  id = id;
  username = req.username;
  password = hashed;
  email = req.email;
}

-- One user, under a number that no other user has, with the hash of the password, and one event in the outbox; or nothing.
abbrev pub RegisterOutcome :
    Service → Ambient → CreateUserRequest → Db → Result UserResponse × Db → Type 0
RegisterOutcome sc a req s (err e, s') = s' ≡ s
RegisterOutcome sc a req s (ok resp, s') =
    (id : ℕ) × (k : ℕ) × (hashed : String) × (sc.hash req.password ≡ ok hashed)
    × (find (named req.username) s.users ≡ none)
    × (find (numbered id) s.users ≡ none)
    × (resp ≡ record { id = id; username = req.username; email = req.email })
    × (s' ≡ record s {
      users = s.users ++ stored req id hashed ∷ [];
      outbox = s.outbox ++ record (registered_event a (stored req id hashed)) { id = k } ∷ [];
    })

module _ (sc : Service) (law : IsService sc) (a : Ambient) (req : CreateUserRequest) (s : Db) where
  module _ (hashed : String) (made : sc.hash req.password ≡ ok hashed)
      (fresh : find (named req.username) s.users ≡ none) where
    committed-RegisterOutcome :
        (u : User) (s1 : Db) (id : ℕ) (r : Result (Unit {0} × Db))
        → u ≡ stored req id hashed
        → find (numbered id) s.users ≡ none
        → ((s' : Db)
            → r ≡ ok (tt, s')
            → (k : ℕ) × (s' ≡ record s {
              users = s.users ++ stored req id hashed ∷ [];
              outbox =
                  s.outbox ++ record (registered_event a (stored req id hashed)) { id = k } ∷ [];
            }))
        → RegisterOutcome sc a req s (committed sc a u s r)
    unfolding committed
    committed-RegisterOutcome u s1 id (err e) same alone h = refl
    committed-RegisterOutcome u s1 id (ok (_, s')) same alone h = go (sc.commit s') (h s' refl)
      where
        go :
            (c : Option Error)
            → ((k : ℕ) × (s' ≡ record s {
              users = s.users ++ stored req id hashed ∷ [];
              outbox =
                  s.outbox ++ record (registered_event a (stored req id hashed)) { id = k } ∷ [];
            }))
            → RegisterOutcome sc a req s (elim c as (λ _. Result UserResponse × Db) [
              | some e ↦ (err rpc_internal, s)
              | none ↦ (ok (response sc a u), s')
            ])
        go (some e) k = refl
        go none (k, put) = (id, k, hashed, made, fresh, alone, rw same refl, put)

    inserted :
        (u : User) (id : ℕ) (s1 s' : Db)
        → u ≡ stored req id hashed
        → s1 ≡ record s { users = s.users ++ stored req id hashed ∷ [] }
        → insert sc.outbox (registered_event a u) s1 ≡ ok (tt, s')
        → (k : ℕ) × (s' ≡ record s {
          users = s.users ++ stored req id hashed ∷ [];
          outbox = s.outbox ++ record (registered_event a (stored req id hashed)) { id = k } ∷ [];
        })
    unfolding insert
    inserted u id s1 s' same e h =
        go (sc.outbox.create (registered_event a u) s1)
          (law.outbox.create_law (registered_event a u) s1) h
      where
        go :
            (r : Result (OutboxEvent × Db))
            → Created outbox_schema (registered_event a u) s1 r
            → bind {B = Unit {0} × Db} r (λ x. ok (tt, x.1)) ≡ ok (tt, s')
            → (k : ℕ) × (s' ≡ record s {
              users = s.users ++ stored req id hashed ∷ [];
              outbox =
                  s.outbox ++ record (registered_event a (stored req id hashed)) { id = k } ∷ [];
            })
        go (err x) k h = cc
        go (ok (e', t)) (k, row, _, put) h =
            let last : s' ≡ t = cc in (k, rw (last, put, row, e, same) refl)

    create_begun-RegisterOutcome :
        RegisterOutcome sc a req s (create_begun sc a (stored req 0 hashed) s)
    unfolding create_begun create user_created
    create_begun-RegisterOutcome =
        go sc.begin (sc.users.create (stored req 0 hashed) s)
          (law.users.create_law (stored req 0 hashed) s)
      where
        go :
            (b : Option Error) (r : Result (User × Db))
            → Created users_schema (stored req 0 hashed) s r
            → RegisterOutcome sc a req s (elim b as (λ _. Result UserResponse × Db) [
              | some e ↦ (err rpc_internal, s)
              | none ↦ user_created sc a s r
            ])
        go (some e) r k = refl
        go none (err x) k = refl
        go none (ok (u, s1)) (id, same, clear, put) =
            committed-RegisterOutcome u s1 id (insert sc.outbox (registered_event a u) s1) same
              (find-implies (numbered id) (users_schema.clash u) s.users
                (λ v h. let number : u.id ≡ id = ap (λ x. x.id) same in ground arith) clear)
              (λ s' h. inserted u id s1 s' same (rw (put, same) refl) h)

  -- Where CreateUser answers a user, its name and its number were free, and the user, with a hash of
  -- the password, and the user.registered event have been appended to their tables; where it answers
  -- an error, whatever statement, hash or commit fails, nothing is written.
  pub create_user-RegisterOutcome : RegisterOutcome sc a req s (create_user sc a req s)
  unfolding create_user find_by_username find_by_email create_hashed
  create_user-RegisterOutcome =
      named_free (sc.users.first (named req.username) s)
        (law.users.first_law (named req.username) s)
    where
      hashing :
          find (named req.username) s.users ≡ none
          → (r : Result String) → sc.hash req.password ≡ r
          → RegisterOutcome sc a req s (elim r as (λ _. Result UserResponse × Db) [
            | err e ↦ (err rpc_internal, s)
            | ok hashed ↦ create_begun sc a (stored req 0 hashed) s
          ])
      hashing fresh (err e) h = refl
      hashing fresh (ok hashed) h = create_begun-RegisterOutcome hashed h fresh

      email_free :
          find (named req.username) s.users ≡ none
          → (r : Result User)
          → RegisterOutcome sc a req s (absent sc a r s (create_hashed sc a req))
      email_free fresh (ok u) = refl
      email_free fresh (err e) = elim (Bool-cases (is_record_not_found e)) [
        | inl free ↦ rw free (hashing fresh (sc.hash req.password) refl)
        | inr failed ↦ rw failed refl
      ]

      named_free :
          (r : Result User)
          → Firsted users_schema (named req.username) s r
          → RegisterOutcome sc a req s (
              absent sc a r s (λ s.
                absent sc a
                  (sc.users.first (λ u. str_eq u.email req.email) s)
                  s
                  (create_hashed sc a req)))
      named_free (ok u) k = refl
      named_free (err e) k = elim (Bool-cases (is_record_not_found e)) [
        | inl free ↦
            rw free (email_free (k free) (sc.users.first (λ u. str_eq u.email req.email) s))
        | inr failed ↦ rw failed refl
      ]

-- A row of the name whose hash matches the password: Authenticate knows the user, or the look-up has
-- failed.
pub authenticate-known :
    (sc : Service) (law : IsService sc) (name password : String) (s : Db) (u : User)
    → find (named name) s.users ≡ some u
    → sc.compare u.password password ≡ true
    → (authenticate sc name password s
        ≡ ok (record { exists = true; id = u.id; username = u.username }))
      ⊎ (authenticate sc name password s ≡ err rpc_internal)
unfolding authenticate find_by_username
authenticate-known sc law name password s u present matched =
    looked (sc.users.first (named name) s) (law.users.first_law (named name) s)
  where
    looked :
        (r : Result User)
        → Firsted users_schema (named name) s r
        → let answer : Result AuthenticateResponse = (elim r [
          | err e ↦ if is_record_not_found e then ok (refused sc) else err rpc_internal
          | ok v ↦
              if sc.compare v.password password
              then ok (record { exists = true; id = v.id; username = v.username })
              else ok (refused sc)
        ]) in
          (answer ≡ ok (record { exists = true; id = u.id; username = u.username }))
          ⊎ (answer ≡ err rpc_internal)
    looked (ok v) f =
        let one : some v ≡ some u = rw f at present in
        let it : v ≡ u = cc in inl (rw (it, matched) refl)
    looked (err x) f = elim (Bool-cases (is_record_not_found x)) [
      | inl gone ↦ (let bad : none ≡ some u = rw (f gone) at present in absurd (cc))
      | inr failed ↦ rw failed (inr refl)
    ]

-- Who has registered is known by name and password, under the number that the registration
-- answered; the look-up of the row may fail, and then the answer is an internal error.
pub create_user-authenticate :
    (sc : Service) (law : IsService sc) (a : Ambient) (req : CreateUserRequest) (s s' : Db)
    (resp : UserResponse)
    → create_user sc a req s ≡ (ok resp, s')
    → (authenticate sc req.username req.password s'
        ≡ ok (record { exists = true; id = resp.id; username = req.username }))
      ⊎ (authenticate sc req.username req.password s' ≡ err rpc_internal)
unfolding authenticate find_by_username find
create_user-authenticate sc law a req s s' resp e =
    go (rw e at (create_user-RegisterOutcome sc law a req s))
  where
    here :
        (id : ℕ) (h : String)
        → find (named req.username) (stored req id h ∷ []) ≡ some (stored req id h)
    here id h = let q : str_eq req.username req.username ≡ true = eq_refl req.username in rw q refl

    go :
        RegisterOutcome sc a req s (ok resp, s')
        → (authenticate sc req.username req.password s'
            ≡ ok (record { exists = true; id = resp.id; username = req.username }))
          ⊎ (authenticate sc req.username req.password s' ≡ err rpc_internal)
    go (id, k, hashed, made, fresh, alone, same, put) = rw (same) (
        authenticate-known sc law req.username req.password s' (stored req id hashed) present
          (law.hash_law req.password hashed made))
      where
        present : find (named req.username) s'.users ≡ some (stored req id hashed)
        present = rw put (
            find-append_none (named req.username) s.users (stored req id hashed ∷ []) fresh
            ∙ here id hashed)
