-- ===== src/Config.antt =====
-- common/config/types.go: the configuration that the services share. The environment is what
-- os.Getenv answers, "" for a variable that is not set; time.ParseDuration is a parameter, and
-- so is what go-zero fills in from the YAML file and the struct tags.
pub mod Texts
pub mod Services
pub mod Lists
pub mod Secrets
use Prim.Native.String.{◌++◌ as concat}
use micro_go_lab.Base.{
  ℕ, Bool, true, false, Option, none, some, String, List, [], ◌∷◌, ℤ, str_eq, ◌||◌, if◌then◌else◌,
  map, ◌++◌,
}
use micro_go_lab.Errors.{Error, other}
use micro_go_lab.Config.Texts.{split, trim_space, join}

abbrev pub Env : Type 0
Env = String → String

-- `if s := os.Getenv(name); s != "" { set(s) }`
abbrev pub if_set : {C : Type 0} → Env → String → (String → C → C) → C → C
if_set env name set c = if str_eq (env name) "" then c else set (env name) c

-- `if v, err := parse(s); err == nil { set(v) }`
abbrev pub if_parsed : {C V : Type 0} → Option V → (V → C → C) → C → C
if_parsed none set c = c
if_parsed (some v) set c = set v c

-- `if len(list) > 0 { set(list) }`
abbrev pub if_any : {C : Type 0} → List String → (List String → C → C) → C → C
if_any [] set c = c
if_any (x ∷ xs) set c = set (x ∷ xs) c

-- EnvList
unfoldable pub env_list : Env → String → List String
unfolding split trim_space
env_list env name = if str_eq (env name) "" then [] else map trim_space (split (env name))

pub record RedisConfig : Type 0 where
  pub host : String
  pub port : ℤ
  pub password : String
  pub db : ℤ

-- Addr: `decimal` is what %d prints.
unfoldable pub addr : (ℤ → String) → RedisConfig → String
addr decimal r = concat r.host (concat ":" (decimal r.port))

-- Durations are nanoseconds.
pub record DatabaseConfig : Type 0 where
  pub host : String
  pub port : ℤ
  pub user : String
  pub password : String
  pub db_name : String
  pub max_open_conns : ℤ
  pub max_idle_conns : ℤ
  pub conn_max_lifetime : ℤ
  pub conn_max_idle_time : ℤ
  pub slow_threshold : ℤ

module _ (env : Env) (parse_duration : String → Option ℤ) where
  -- DatabaseConfig.ApplyEnvOverrides
  unfoldable pub apply_database : DatabaseConfig → DatabaseConfig
  apply_database d =
      let d =
        if_set env "DATABASE_CONN_MAX_LIFETIME"
          (λ s. if_parsed (parse_duration s) (λ v d. record d { conn_max_lifetime = v })) d in
      let d =
        if_set env "DATABASE_CONN_MAX_IDLE_TIME"
          (λ s. if_parsed (parse_duration s) (λ v d. record d { conn_max_idle_time = v })) d in
      if_set env "DATABASE_SLOW_THRESHOLD"
        (λ s. if_parsed (parse_duration s) (λ v d. record d { slow_threshold = v })) d

-- What the source uses of go-zero's discov.EtcdConf.
pub record EtcdConf : Type 0 where
  pub hosts : List String
  pub key : String

pub record UserSvcConfig : Type 0 where
  pub etcd : EtcdConf
  pub endpoints : List String
  pub timeout : ℤ

-- What RpcClientConf sets of go-zero's zrpc.RpcClientConf, its Middlewares included.
pub record ClientConf : Type 0 where
  pub etcd : EtcdConf
  pub endpoints : List String
  pub timeout : ℤ
  pub non_block : Bool
  pub trace : Bool
  pub duration : Bool
  pub prometheus : Bool
  pub breaker : Bool
  pub with_timeout : Bool

-- RpcClientConf
unfoldable pub rpc_client_conf : UserSvcConfig → ClientConf
rpc_client_conf c = record {
  etcd = c.etcd;
  endpoints = c.endpoints;
  timeout = c.timeout;
  non_block = true;
  trace = true;
  duration = true;
  prometheus = true;
  breaker = true;
  with_timeout = true;
}

pub record CacheConfig : Type 0 where
  pub ttl : ℤ
  pub negative_ttl : ℤ

pub record KafkaConfig : Type 0 where
  pub bootstrap_servers : List String
  pub group_id : String
  pub topic : String
  pub inventory_topic : String

-- KafkaConfig.ApplyEnvOverrides
unfoldable pub apply_kafka : Env → KafkaConfig → KafkaConfig
unfolding env_list
apply_kafka env k =
    if_any (env_list env "KAFKA_BOOTSTRAP_SERVERS")
      (λ servers k. record k { bootstrap_servers = servers }) k

pub record CorsConfig : Type 0 where
  pub allowed_origins : List String

-- CORSConfig.ApplyEnvOverrides
unfoldable pub apply_cors : Env → CorsConfig → CorsConfig
unfolding env_list
apply_cors env c =
    if_any (env_list env "CORS_ALLOWED_ORIGINS")
      (λ origins c. record c { allowed_origins = origins }) c

abbrev pub default_secrets : List String
default_secrets = "change-me-in-production" ∷ "" ∷ []

abbrev pub warning : String
warning = "JWT secret 使用了默认值或为空"

-- The inner loop of ValidateSecrets: the warnings with those for one secret appended.
unfoldable pub warn_secret : String → List String → List String → List String
warn_secret s [] warnings = warnings
warn_secret s (d ∷ ds) warnings =
    warn_secret s ds (if str_eq s d then warnings ++ warning ∷ [] else warnings)

-- The outer loop.
unfoldable pub warn_secrets : List String → List String → List String
unfolding warn_secret
warn_secrets [] warnings = warnings
warn_secrets (s ∷ ss) warnings = warn_secrets ss (warn_secret s default_secrets warnings)

-- What follows the loops. In another mode the warning is only printed.
unfoldable pub settle_warnings : String → List String → Option Error
unfolding join
settle_warnings mode [] = none
settle_warnings mode (w ∷ ws) =
    let msg = concat "insecure defaults detected: " (join "; " (w ∷ ws)) in
    if str_eq mode "pro" || str_eq mode "pre"
    then some (other (concat msg " (set proper values or use dev/test mode)"))
    else none

-- ValidateSecrets
unfoldable pub validate_secrets : String → List String → Option Error
unfolding warn_secrets settle_warnings
validate_secrets mode secrets = settle_warnings mode (warn_secrets secrets [])
