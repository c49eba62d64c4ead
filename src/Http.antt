-- ===== src/Http.antt =====
-- common/middleware/response.go, auth.go and ratelimit.go: replies, the user of a request, and the
-- rate limit.
pub mod Front
use micro_go_lab.Base.{ℕ, ◌-◌, ◌^◌, suc, Option, none, some, ℤ, pos, negsuc, ◌==◌, if◌then◌else◌}
use micro_go_lab.Errors.{Result, ok, err}

-- The HTTP status, and Data where the Response carries it; Code is 0 with it and -1 without it.
pub record Reply (A : Type 0) : Type 0 where
  pub http_status : ℕ
  pub body : Option A

unfoldable pub ok_json : {A : Type 0} → A → Reply A
ok_json a = record { http_status = 200; body = some a }

unfoldable pub created_json : {A : Type 0} → A → Reply A
created_json a = record { http_status = 201; body = some a }

unfoldable pub error_json : {A : Type 0} → ℕ → Reply A
error_json n = record { http_status = n; body = none }

unfoldable pub bad_request : {A : Type 0} → Reply A
unfolding error_json
bad_request = error_json 400

unfoldable pub unauthorized : {A : Type 0} → Reply A
unfolding error_json
unauthorized = error_json 401

unfoldable pub not_found : {A : Type 0} → Reply A
unfolding error_json
not_found = error_json 404

unfoldable pub internal_error : {A : Type 0} → Reply A
unfolding error_json
internal_error = error_json 500

-- A value in the request's context, by its Go type: a json.Number by what Int64 gives, a float64 by
-- its whole part, a string by what ParseUint gives.
pub data Claim : Type 0 where
  json_number : Result ℤ → Claim
  float : ℤ → Claim
  uint : ℕ → Claim
  int : ℤ → Claim
  text : Result ℕ → Claim
  other : Claim

unfoldable pub parse_user_id : Claim → ℕ
parse_user_id (json_number (ok (pos n))) = n
parse_user_id (json_number (ok (negsuc n))) = 0
parse_user_id (json_number (err e)) = 0
parse_user_id (float (pos n)) = n
parse_user_id (float (negsuc n)) = 0
parse_user_id (uint n) = n
parse_user_id (int (pos n)) = n
parse_user_id (int (negsuc n)) = 2 ^ 64 - suc n
parse_user_id (text (ok n)) = n
parse_user_id (text (err e)) = 0
parse_user_id other = 0

-- GetUserIDFromContext: the value under CtxKeyUserID, or else that under go-zero's key.
unfoldable pub get_user_id : Option Claim → Option Claim → ℕ
unfolding parse_user_id
get_user_id (some v) go_zero = parse_user_id v
get_user_id none (some v) = parse_user_id v
get_user_id none none = 0

-- limit.OverQuota
abbrev pub over_quota : ℕ
over_quota = 3

-- Middleware: `taken` is what TakeCtx answers of the client's address. An error lets it pass.
unfoldable pub rate_limited : {A S : Type 0} → Result ℕ → (S → Reply A × S) → S → Reply A × S
unfolding error_json
rate_limited (err e) next s = next s
rate_limited (ok code) next s = if code == over_quota then (error_json 429, s) else next s
