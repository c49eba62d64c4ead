-- ===== src/Process/Gateway.antt =====
-- service/user/api/internal/svc/servicecontext.go, and NewRedisRateLimiter of
-- common/middleware/ratelimit.go. The gateway has no database, no producer and no consumer.
use micro_go_lab.Base.{
  ℕ, ◌*◌, ◌/◌, ◌≤◌, Bool, true, false, none, some, String, ltb, arith, if◌then◌else◌,
}
use micro_go_lab.Config.{ClientConf, addr, rpc_client_conf}
use micro_go_lab.Config.Services.{UserApi}
use micro_go_lab.Stream.Consumer.{second}
use micro_go_lab.Process.Connections.{Externals}
use micro_go_lab.Process.{Booted, up, panics, no_client}

-- limit.PeriodLimit: `quota` requests in `period` seconds, counted at an address under keys that
-- begin with the prefix.
pub record RateLimiter : Type 0 where
  pub store : String
  pub period : ℕ
  pub quota : ℕ
  pub key_prefix : String
  pub window : ℕ

-- NewRedisRateLimiter, of a window in nanoseconds.
unfoldable pub new_redis_rate_limiter : String → ℕ → ℕ → String → RateLimiter
new_redis_rate_limiter store rate window key_prefix = record {
  store = store;
  period = if ltb (window / second) 1 then 1 else window / second;
  quota = rate;
  key_prefix = key_prefix;
  window = window;
}

-- ServiceContext: `connected` says whether the connection of the client of user-rpc is.
pub record Gateway : Type 0 where
  pub config : UserApi
  pub client : ClientConf
  pub connected : Bool
  pub rate_limiter : RateLimiter

-- NewServiceContext
unfoldable pub gateway_context : Externals → UserApi → Booted Gateway
unfolding rpc_client_conf addr new_redis_rate_limiter
gateway_context x c = elim (x.new_client (rpc_client_conf c.user_svc)) [
  | some e ↦ panics (no_client e)
  | none ↦ up (record {
    config = c;
    client = rpc_client_conf c.user_svc;
    connected = true;
    rate_limiter =
        new_redis_rate_limiter (addr x.decimal c.redis) 1 (3 * second) "ratelimit:user-api:";
  })
]

-- Stop: Close fails only where the connection is closed already, and the error is printed.
unfoldable pub stop_gateway : Gateway → Gateway
stop_gateway g = record g { connected = false }

-- A period of no seconds would never let a key expire: there is none, however short the window.
period_pos :
    (store : String) (rate window : ℕ) (prefix : String)
    → 1 ≤ (new_redis_rate_limiter store rate window prefix).period
unfolding new_redis_rate_limiter
period_pos store rate window prefix = ground arith
