-- ===== src/Http/Front.antt =====
-- What stands in front of the handlers: common/middleware/clientip.go, cors.go, health.go and
-- logger.go, and the limit of ratelimit.go by client. net.SplitHostPort and the texts of errors are
-- parameters.
use Prim.Native.Char.{code}
use micro_go_lab.Base.{
  ℕ, Bool, true, false, Option, none, some, String, List, [], ◌∷◌, ◌==◌, ◌&&◌, not, str_eq,
  if◌then◌else◌,
}
use micro_go_lab.Errors.{Error, Result}
use micro_go_lab.Http.{Reply, rate_limited}
use micro_go_lab.Config.{CorsConfig}
use micro_go_lab.Config.Texts.{comma, trim_space}
use micro_go_lab.Stream.{Headers, header, put_header}

-- What the source reads of an *http.Request.
pub record Request : Type 0 where
  pub method : String
  pub path : String
  pub remote_addr : String
  pub headers : Headers

-- xff[:i] at the first comma, or all of it
unfoldable pub before_comma : String → String
before_comma String.[] = ""
before_comma (String.◌∷◌ c s) =
    let rest = before_comma s in if code c == comma then "" else String.◌∷◌ c rest

module _ (split_host_port : String → Option String) where
  -- The fallback of clientIP.
  abbrev pub remote_host : Request → String
  remote_host r = elim (split_host_port r.remote_addr) [ some host ↦ host | none ↦ r.remote_addr ]

  -- clientIP
  unfoldable pub client_ip : Request → String
  unfolding header before_comma trim_space
  client_ip r =
      let xff = header "X-Forwarded-For" r.headers in
      let ip = trim_space (before_comma xff) in
      if not (str_eq xff "") && not (str_eq ip "") then ip else remote_host r

  -- RedisRateLimiter.Middleware: `take` is TakeCtx for a key.
  unfoldable pub rate_limiter :
      {A S : Type 0} → (String → Result ℕ) → Request → (S → Reply A × S) → S → Reply A × S
  unfolding client_ip rate_limited
  rate_limiter take r next s = rate_limited (take (client_ip r)) next s

abbrev pub contains : String → List String → Bool
contains s [] = false
contains s (t ∷ ts) = if str_eq s t then true else contains s ts

-- isAllowedOrigin
unfoldable pub is_allowed_origin : String → List String → Bool
is_allowed_origin origin allowed = contains origin allowed

-- len(AllowedOrigins) == 1 && AllowedOrigins[0] == "*"
unfoldable pub allow_all : List String → Bool
allow_all (o ∷ []) = str_eq o "*"
allow_all _ = false

-- The headers that name the allowed origin.
unfoldable pub grant_origin : List String → String → Headers → Headers
unfolding allow_all is_allowed_origin put_header
grant_origin allowed origin hs =
    if allow_all allowed
    then put_header "Access-Control-Allow-Origin" "*" hs
    else if not (str_eq origin "") && is_allowed_origin origin allowed
    then put_header "Vary" "Origin" (put_header "Access-Control-Allow-Origin" origin hs)
    else hs

-- The others, which every response has.
unfoldable pub cors_headers : Headers → Headers
unfolding put_header
cors_headers hs = put_header "Access-Control-Max-Age" "86400" (
    put_header "Access-Control-Expose-Headers" "Content-Length, Content-Type" (
      put_header "Access-Control-Allow-Headers" "Authorization, Content-Type, X-Requested-With"
        (put_header "Access-Control-Allow-Methods" "GET, POST, PUT, DELETE, PATCH, OPTIONS" hs)))

-- The answer to a preflight, or what the next handler makes of the headers set so far.
pub data Answered (A : Type 0) : Type 0 where
  no_content : Headers → Answered A
  passed : A → Answered A

-- NewCorsMiddleware
unfoldable pub new_cors_middleware :
    {A : Type 0} → CorsConfig → (Headers → A) → Request → Headers → Answered A
unfolding grant_origin cors_headers header
new_cors_middleware cfg next r hs =
    let hs = cors_headers (grant_origin cfg.allowed_origins (header "Origin" r.headers) hs) in
    if str_eq r.method "OPTIONS" then no_content hs else passed (next hs)

-- CorsMiddleware
unfoldable pub cors_middleware : {A : Type 0} → (Headers → A) → Request → Headers → Answered A
unfolding new_cors_middleware
cors_middleware next = new_cors_middleware (record { allowed_origins = "*" ∷ [] }) next

-- The status and the object that HealthHandler writes. `message` is what Error() says.
unfoldable pub health_handler : (Error → String) → String → List (Option Error) → ℕ × Headers
health_handler message service [] = (200, ("status", "ok") ∷ ("service", service) ∷ [])
health_handler message service (none ∷ checks) = health_handler message service checks
health_handler message service (some e ∷ checks) =
    (503, ("status", "unhealthy") ∷ ("service", service) ∷ ("error", message e) ∷ [])

-- responseWriter: the status that it keeps, over the calls of WriteHeader.
unfoldable pub kept_status : List ℕ → ℕ → ℕ
kept_status [] status = status
kept_status (code ∷ codes) status = kept_status codes code

-- The fields of the line that RequestLogger writes, its duration left out.
pub record RequestLine : Type 0 where
  pub method : String
  pub path : String
  pub http_status : ℕ
  pub ip : String

-- RequestLogger: `codes` are the statuses that the handler writes. The body that it copies is not
-- logged, and is left out.
unfoldable pub request_logger : Request → List ℕ → RequestLine
unfolding kept_status header
request_logger r codes =
    let forwarded = header "X-Forwarded-For" r.headers in
    record {
      method = r.method;
      path = r.path;
      http_status = kept_status codes 200;
      ip = if str_eq forwarded "" then r.remote_addr else forwarded;
    }
