-- ===== src/User/Api.antt =====
-- service/user/api/internal: logic/user and handler/user. The answers of user-rpc and the signing of
-- a token are parameters.
use micro_go_lab.Base.{
  ℕ, ◌*◌, ◌/◌, ◌+ℤ◌, int64, Bool, true, false, String, ℤ, pos, negsuc, zero, suc, ◌==◌,
  if◌then◌else◌,
}
use micro_go_lab.Errors.{
  Result, ok, err, status, is_coded, err_invalid_credentials, err_user_exists, err_user_not_found,
}
use micro_go_lab.Http.{
  Reply, ok_json, created_json, error_json, bad_request, unauthorized, not_found, internal_error,
}
use micro_go_lab.User.Rpc.{UserResponse, AuthenticateResponse}

-- jwt.MapClaims of Login
pub record Claims : Type 0 where
  pub user_id : ℕ
  pub username : String
  pub exp : ℤ

-- AccessExpire, in seconds: a day where it is not above 0.
unfoldable pub expiry : ℤ → ℕ
expiry (pos (suc n)) = suc n
expiry (pos zero) = 24 * 3600
expiry (negsuc n) = 24 * 3600

-- time.Duration(expire) * time.Second in int64, whose product wraps around, in nanoseconds
unfoldable pub lifetime : ℤ → ℤ
unfolding expiry int64
lifetime access_expire = int64 (expiry access_expire * 1_000_000_000)

-- Unix: whole seconds, rounded down, of a time in nanoseconds
unfoldable pub unix : ℤ → ℤ
unix (pos n) = pos (n / 1_000_000_000)
unix (negsuc n) = negsuc (n / 1_000_000_000)

-- Login: `answer` is what Authenticate answers, and `now` is time.Now() in nanoseconds.
unfoldable pub login :
    ℤ → ℕ → (Claims → Result String) → Result AuthenticateResponse → Result String
unfolding lifetime unix
login access_expire now sign (err e) = err e
login access_expire now sign (ok resp) =
    if resp.exists
    then sign (record {
      user_id = resp.id;
      username = resp.username;
      exp = unix (pos now +ℤ lifetime access_expire);
    })
    else err err_invalid_credentials

-- Register: `answer` is what CreateUser answers; status.FromError reads a status that is not
-- wrapped.
unfoldable pub register : Result UserResponse → Result UserResponse
register (ok resp) = ok resp
register (err (status c)) = if c == 6 then err err_user_exists else err (status c)
register (err e) = err e

-- Profile: `answer` is what GetUser answers.
unfoldable pub profile : Result UserResponse → Result UserResponse
profile (ok resp) = ok resp
profile (err e) = if is_coded 200003 e then err err_user_not_found else err e

unfoldable pub login_reply : Result String → Reply String
unfolding unauthorized internal_error ok_json
login_reply (ok token) = ok_json token
login_reply (err e) = if is_coded 200002 e then unauthorized else internal_error

-- LoginHandler: `parsed` says whether httpx.Parse takes the request.
unfoldable pub login_handler :
    Bool → ℤ → ℕ → (Claims → Result String) → Result AuthenticateResponse → Reply String
unfolding bad_request login login_reply
login_handler false access_expire now sign answer = bad_request
login_handler true access_expire now sign answer = login_reply (login access_expire now sign answer)

unfoldable pub register_reply : Result UserResponse → Reply UserResponse
unfolding error_json internal_error created_json
register_reply (ok resp) = created_json resp
register_reply (err e) = if is_coded 200001 e then error_json 409 else internal_error

-- RegisterHandler
unfoldable pub register_handler : Bool → Result UserResponse → Reply UserResponse
unfolding bad_request register register_reply
register_handler false answer = bad_request
register_handler true answer = register_reply (register answer)

unfoldable pub profile_reply : Result UserResponse → Reply UserResponse
unfolding not_found ok_json
profile_reply (ok resp) = ok_json resp
profile_reply (err e) = not_found

-- ProfileHandler
unfoldable pub profile_handler : Result UserResponse → Reply UserResponse
unfolding profile profile_reply
profile_handler answer = profile_reply (profile answer)
