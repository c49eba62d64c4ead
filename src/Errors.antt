-- ===== src/Errors.antt =====
-- The errors that the services pass around, what errors.Is and errors.As find in them, and results.
-- common/ecode/ecode.go, common/xdb/retry.go (IsDeadlock), common/xdb/gormlogger.go
-- (isRecordNotFound), common/client/retry.go (isRetryable). Go's `error` that may be nil is an
-- `Option Error`, and a pair (value, error) is a `Result`.
use micro_go_lab.Base.{ℕ, ◌≡◌, refl, Bool, true, false, ◌||◌, String, ◌==◌}

pub data Error : Type 0 where
  -- gorm.ErrRecordNotFound
  record_not_found : Error
  -- a *mysql.MySQLError, by its Number
  mysql : ℕ → Error
  -- a *ecode.CodeError, by its Code
  coded : ℕ → Error
  -- a gRPC status error, by its code
  status : ℕ → Error
  -- breaker.ErrServiceUnavailable
  breaker_open : Error
  -- context.Canceled, which a cancelled context's Err() returns
  canceled : Error
  -- xcache.ErrMiss
  cache_miss : Error
  -- encoding/json
  json_error : Error
  other : String → Error
  -- fmt.Errorf("…: %w", err)
  wrap : Error → Error

-- ecode.go: the codes of the errors that the services return.
abbrev pub err_internal : Error
err_internal = coded 100004

abbrev pub err_optimistic_conflict : Error
err_optimistic_conflict = coded 100006

abbrev pub err_user_exists : Error
err_user_exists = coded 200001

abbrev pub err_invalid_credentials : Error
err_invalid_credentials = coded 200002

abbrev pub err_user_not_found : Error
err_user_not_found = coded 200003

abbrev pub err_order_not_found : Error
err_order_not_found = coded 400001

abbrev pub err_invalid_status_transition : Error
err_invalid_status_transition = coded 400002

abbrev pub err_idempotency_conflict : Error
err_idempotency_conflict = coded 400003

-- errors.Is(err, gorm.ErrRecordNotFound)
unfoldable pub is_record_not_found : Error → Bool
is_record_not_found record_not_found = true
is_record_not_found (wrap e) = is_record_not_found e
is_record_not_found _ = false

abbrev pub err_deadlock : ℕ
err_deadlock = 1213

abbrev pub err_lock_wait_timeout : ℕ
err_lock_wait_timeout = 1205

-- errors.As finds the first *mysql.MySQLError down the chain.
unfoldable pub is_deadlock : Error → Bool
is_deadlock (mysql n) = n == err_deadlock || n == err_lock_wait_timeout
is_deadlock (wrap e) = is_deadlock e
is_deadlock _ = false

-- Whether errors.As finds a *mysql.MySQLError of any number.
unfoldable pub is_mysql : Error → Bool
is_mysql (mysql _) = true
is_mysql (wrap e) = is_mysql e
is_mysql _ = false

-- errors.Is(err, ecode.New(c, _)): the code errors are compared by address, one to a code.
unfoldable pub is_coded : ℕ → Error → Bool
is_coded c (coded n) = n == c
is_coded c (wrap e) = is_coded c e
is_coded _ _ = false

-- What Go returns as a value and an error.
pub data Result {ℓ} (A : Type ℓ) : Type ℓ where
  err : Error → Result A
  ok : A → Result A

-- An error is no value.
pub err_ne_ok {ℓ} : {A : Type ℓ} {P : Type 0} (x : Error) (a : A) → err x ≡ ok a → P
err_ne_ok x a h = cc

-- Go on with the value, or return the error: `if err != nil { return err }`.
infixl 5 ◌>>=◌
abbrev pub ◌>>=◌ {ℓ} : {A B : Type ℓ} → Result A → (A → Result B) → Result B
err x >>= next = err x
ok value >>= next = next value

-- A chain that ends in a value has gone through a first value.
pub >>=-eq-ok {ℓ} :
    {A B : Type ℓ} {end : B} (start : Result A) (next : A → Result B)
    → (start >>= next) ≡ ok end
    → (middle : A) × (start ≡ ok middle) × (next middle ≡ ok end)
>>=-eq-ok (err x) next h = cc
>>=-eq-ok (ok v) next h = (v, refl, h)
