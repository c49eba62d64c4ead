-- ===== src/User/Rpc.antt =====
-- service/user/rpc/internal: repository/user.go and logic.
use micro_go_lab.Base.{
  ℕ, Bool, true, false, Option, none, some, String, ◌==◌, str_eq, if◌then◌else◌,
}
use micro_go_lab.Errors.{Error, Result, ok, err, status, is_record_not_found, is_mysql, cache_miss}
use micro_go_lab.Sql.{Tx}
use micro_go_lab.Event.{user_registered, user_events}
use micro_go_lab.Event.Codec.{marshal, registered}
use micro_go_lab.Outbox.{Ambient, OutboxEvent, new_event, insert}
use micro_go_lab.Cache.{Store, is_miss, get_or_load}
use micro_go_lab.User.{User, Db, Service}

-- gRPC codes
abbrev pub already_exists : Error
already_exists = status 6

abbrev pub rpc_not_found : Error
rpc_not_found = status 5

abbrev pub rpc_internal : Error
rpc_internal = status 13

pub record CreateUserRequest : Type 0 where
  pub username : String
  pub password : String
  pub email : String

pub record UserResponse : Type 0 where
  pub id : ℕ
  pub username : String
  pub email : String

pub record AuthenticateResponse : Type 0 where
  pub exists : Bool
  pub id : ℕ
  pub username : String

-- userSummary, and ValidateUserResponse
pub record Summary : Type 0 where
  pub exists : Bool
  pub username : String

-- The outbox row of user.registered
unfoldable pub registered_event : Ambient → User → OutboxEvent
unfolding new_event marshal
registered_event a u = new_event a user_events u.id (record {
  event = user_registered;
  version = 1;
  occurred_at = a.now;
  body = marshal (registered (record { user_id = u.id; username = u.username }));
})

module _ (sc : Service) where
  -- FindByID
  unfoldable pub find_by_id : ℕ → Db → Result User
  find_by_id id = sc.users.first (λ u. u.id == id)

  -- FindByUsername
  unfoldable pub find_by_username : String → Db → Result User
  find_by_username name = sc.users.first (λ u. str_eq u.username name)

  -- FindByEmail
  unfoldable pub find_by_email : String → Db → Result User
  find_by_email email = sc.users.first (λ u. str_eq u.email email)

  -- Create
  unfoldable pub create : User → Tx Db User
  create u = sc.users.create u

  module _ (a : Ambient) where
    abbrev pub response : User → UserResponse
    response u = record { id = u.id; username = u.username; email = u.email }

    -- What follows Insert: an error rolls back, and so does a failed Commit.
    unfoldable pub committed : User → Db → Result (Unit {0} × Db) → Result UserResponse × Db
    committed u s (err e) = (err rpc_internal, s)
    committed u s (ok (_, s')) = elim (sc.commit s') [
      | some e ↦ (err rpc_internal, s)
      | none ↦ (ok (response u), s')
    ]

    -- What follows Create in the transaction.
    unfoldable pub user_created : Db → Result (User × Db) → Result UserResponse × Db
    unfolding committed registered_event
    user_created s (err e) = (err (if is_mysql e then already_exists else rpc_internal), s)
    user_created s (ok (u, s')) = committed u s (insert sc.outbox (registered_event a u) s')

    -- From Begin on.
    unfoldable pub create_begun : User → Db → Result UserResponse × Db
    unfolding create user_created
    create_begun u s = elim sc.begin [
      | some e ↦ (err rpc_internal, s)
      | none ↦ user_created s (create u s)
    ]

    -- One of the two look-ups that precede: a row that is there refuses the request.
    abbrev pub absent :
        Result User → Db → (Db → Result UserResponse × Db) → Result UserResponse × Db
    absent (ok u) s next = (err already_exists, s)
    absent (err e) s next = if is_record_not_found e then next s else (err rpc_internal, s)

    unfoldable pub create_hashed : CreateUserRequest → Db → Result UserResponse × Db
    unfolding create_begun
    create_hashed req s = elim (sc.hash req.password) [
      | err e ↦ (err rpc_internal, s)
      | ok hashed ↦
          create_begun
            (record { id = 0; username = req.username; password = hashed; email = req.email }) s
    ]

    -- CreateUser
    unfoldable pub create_user : CreateUserRequest → Db → Result UserResponse × Db
    unfolding find_by_username find_by_email create_hashed
    create_user req s =
        absent (find_by_username req.username s) s
          (λ s. absent (find_by_email req.email s) s (create_hashed req))

  abbrev pub refused : AuthenticateResponse
  refused = record { exists = false; id = 0; username = "" }

  -- Authenticate
  unfoldable pub authenticate : String → String → Db → Result AuthenticateResponse
  unfolding find_by_username
  authenticate username password s = elim (find_by_username username s) [
    | err e ↦ if is_record_not_found e then ok refused else err rpc_internal
    | ok u ↦
        if sc.compare u.password password
        then ok (record { exists = true; id = u.id; username = u.username })
        else ok refused
  ]

  -- GetUser
  unfoldable pub get_user : ℕ → Db → Result UserResponse
  unfolding find_by_id
  get_user id s = elim (find_by_id id s) [
    | err e ↦ if is_record_not_found e then err rpc_not_found else err rpc_internal
    | ok u ↦ ok (record { id = u.id; username = u.username; email = u.email })
  ]

  -- The loader of ValidateUser.
  unfoldable pub load_summary : ℕ → Db → Result Summary
  unfolding find_by_id
  load_summary id s = elim (find_by_id id s) [
    | err e ↦ if is_record_not_found e then err cache_miss else err rpc_internal
    | ok u ↦ ok (record { exists = true; username = u.username })
  ]

  abbrev pub no_user : Summary
  no_user = record { exists = false; username = "" }

  abbrev pub summarised : {C : Type 0} → Result Summary × C → Result Summary × C
  summarised (ok v, c) = (ok v, c)
  summarised (err e, c) = (if is_miss e then ok no_user else err e, c)

  -- ValidateUser: `key` is the key of the cache for a user's number.
  unfoldable pub validate_user :
      {C : Type 0}
      → Option (Store C)
      → (ℕ → String)
      → (Summary → Result String)
      → (String → Result Summary)
      → ℕ
      → Db
      → C
      → Result Summary × C
  unfolding load_summary get_or_load is_miss
  validate_user redis key marshal unmarshal id s c =
      summarised (get_or_load redis (key id) marshal unmarshal (load_summary id s) c)
