-- ===== src/Tests/Config.antt =====
-- The configuration of the order service under an environment.
use micro_go_lab.Base.{
  ◌≡◌, refl, Option, none, some, String, [], ◌∷◌, ℤ, pos, str_eq, ◌&&◌, if◌then◌else◌,
}
use micro_go_lab.Config.{Env, DatabaseConfig, env_list, validate_secrets}
use micro_go_lab.Config.Services.{OrderApi}
use micro_go_lab.Config.Secrets.{is_error, any_insecure, is_strict, validate_secrets-is_insecure}
use micro_go_lab.Config.Lists.{env_list-join}
use micro_go_lab.Config.Texts.{join, split, trim_space, put}

abbrev env : Env
env name =
    if str_eq name "DATABASE_PORT"
    then "3307"
    else if str_eq name "KAFKA_BOOTSTRAP_SERVERS"
    then "k1, k2"
    else if str_eq name "JWT_SECRET"
    then "s3cret"
    else ""

abbrev atoi : String → Option ℤ
atoi s = if str_eq s "3307" then some (pos 3307) else none

abbrev parse_duration : String → Option ℤ
parse_duration s = none

abbrev database : DatabaseConfig
database = record {
  host = "localhost";
  port = pos 3306;
  user = "root";
  password = "";
  db_name = "order_db";
  max_open_conns = pos 25;
  max_idle_conns = pos 10;
  conn_max_lifetime = pos 1_800_000_000_000;
  conn_max_idle_time = pos 300_000_000_000;
  slow_threshold = pos 200_000_000;
}

abbrev config : OrderApi
config = record {
  telemetry_endpoint = "";
  auth = record { access_secret = "change-me-in-production"; access_expire = pos 86_400 };
  database = database;
  user_svc = record {
    etcd = record { hosts = "etcd:2379" ∷ []; key = "user.rpc" };
    endpoints = [];
    timeout = pos 2000;
  };
  redis = record { host = "localhost"; port = pos 6379; password = ""; db = pos 0 };
  cors = record { allowed_origins = "*" ∷ [] };
  kafka = record {
    bootstrap_servers = [];
    group_id = "order";
    topic = "user-events";
    inventory_topic = "inventory-events";
  };
}

validate_secrets-is_insecure_example :
    is_error (validate_secrets "pro" ("s3cret" ∷ "" ∷ []))
    ≡ (any_insecure ("s3cret" ∷ "" ∷ []) && is_strict "pro")
validate_secrets-is_insecure_example = validate_secrets-is_insecure "pro" ("s3cret" ∷ "" ∷ [])

env_list-join_example : env_list env "KAFKA_BOOTSTRAP_SERVERS" ≡ "k1" ∷ "k2" ∷ []
unfolding env_list join split trim_space put
env_list-join_example =
    env_list-join env "KAFKA_BOOTSTRAP_SERVERS" "k1" (" k2" ∷ []) refl refl
      ((refl, (refl, tt)), ((refl, (refl, (refl, tt))), tt))
