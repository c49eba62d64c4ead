-- ===== src/Config/Services.antt =====
-- The configurations of the four processes and what the environment overrides in them:
-- internal/config/config.go of service/order/api, service/user/api, service/user/rpc and
-- service/inventory/rpc. strconv.Atoi and time.ParseDuration are parameters.
use micro_go_lab.Base.{Option, String, List, ℤ}
use micro_go_lab.Config.{
  Env, if_set, if_parsed, if_any, env_list, EtcdConf, DatabaseConfig, apply_database, UserSvcConfig,
  RedisConfig, CacheConfig, KafkaConfig, apply_kafka, CorsConfig, apply_cors,
}

-- Auth of the two api processes.
pub record Auth : Type 0 where
  pub access_secret : String
  pub access_expire : ℤ

-- `telemetry_endpoint` and `etcd` are what the source uses of go-zero's RestConf and RpcServerConf.
pub record OrderApi : Type 0 where
  pub telemetry_endpoint : String
  pub auth : Auth
  pub database : DatabaseConfig
  pub user_svc : UserSvcConfig
  pub redis : RedisConfig
  pub cors : CorsConfig
  pub kafka : KafkaConfig

pub record UserApi : Type 0 where
  pub telemetry_endpoint : String
  pub auth : Auth
  pub user_svc : UserSvcConfig
  pub cors : CorsConfig
  pub redis : RedisConfig

pub record UserRpc : Type 0 where
  pub telemetry_endpoint : String
  pub etcd : EtcdConf
  pub database : DatabaseConfig
  pub redis_cache : RedisConfig
  pub cache : CacheConfig
  pub kafka : KafkaConfig

pub record InventoryRpc : Type 0 where
  pub telemetry_endpoint : String
  pub etcd : EtcdConf
  pub database : DatabaseConfig
  pub kafka : KafkaConfig

-- The hosts and the key of an EtcdConf, from two variables.
abbrev pub etcd_hosts : List String → EtcdConf → EtcdConf
etcd_hosts hosts e = if_any hosts (λ hosts e. record e { hosts = hosts }) e

abbrev pub etcd_key : Env → String → EtcdConf → EtcdConf
etcd_key env name e = if_set env name (λ k e. record e { key = k }) e

module _ (env : Env) (atoi parse_duration : String → Option ℤ) where
  abbrev pub database_host : DatabaseConfig → DatabaseConfig
  database_host d = if_set env "DATABASE_HOST" (λ s d. record d { host = s }) d

  abbrev pub database_port : DatabaseConfig → DatabaseConfig
  database_port d =
      if_set env "DATABASE_PORT" (λ s. if_parsed (atoi s) (λ port d. record d { port = port })) d

  abbrev pub redis_host : RedisConfig → RedisConfig
  redis_host r = if_set env "REDIS_HOST" (λ s r. record r { host = s }) r

  abbrev pub jwt_secret : Auth → Auth
  jwt_secret a = if_set env "JWT_SECRET" (λ s a. record a { access_secret = s }) a

  abbrev pub otlp_endpoint : String → String
  otlp_endpoint e = if_set env "OTLP_ENDPOINT" (λ s e. s) e

  -- ApplyEnvOverrides of service/order/api
  unfoldable pub apply_order_api : OrderApi → OrderApi
  unfolding apply_database apply_cors apply_kafka env_list
  apply_order_api c =
      let c = record c { auth = jwt_secret c.auth } in
      let c = record c { telemetry_endpoint = otlp_endpoint c.telemetry_endpoint } in
      let c = record c { database = database_host c.database } in
      let c = record c { database = database_port c.database } in
      let c = record c { database = apply_database env parse_duration c.database } in
      let c = record c {
        user_svc = record c.user_svc {
          etcd = etcd_hosts (env_list env "USERSVC_ETCD_HOSTS") c.user_svc.etcd;
        };
      } in
      let c = record c {
        user_svc = record c.user_svc { etcd = etcd_key env "USERSVC_ETCD_KEY" c.user_svc.etcd };
      } in
      let c = record c { redis = redis_host c.redis } in
      let c = record c { cors = apply_cors env c.cors } in
      record c { kafka = apply_kafka env c.kafka }

  -- ApplyEnvOverrides of service/user/api
  unfoldable pub apply_user_api : UserApi → UserApi
  unfolding apply_cors env_list
  apply_user_api c =
      let c = record c { auth = jwt_secret c.auth } in
      let c = record c { telemetry_endpoint = otlp_endpoint c.telemetry_endpoint } in
      let c = record c {
        user_svc = record c.user_svc {
          etcd = etcd_hosts (env_list env "ETCD_HOSTS") c.user_svc.etcd;
        };
      } in
      let c = record c {
        user_svc = record c.user_svc { etcd = etcd_key env "ETCD_KEY" c.user_svc.etcd };
      } in
      let c = record c { redis = redis_host c.redis } in record c { cors = apply_cors env c.cors }

  -- CACHE_TTL and CACHE_NEGATIVE_TTL
  abbrev pub cache_ttls : CacheConfig → CacheConfig
  cache_ttls c =
      let c =
        if_set env "CACHE_TTL" (λ s. if_parsed (parse_duration s) (λ v c. record c { ttl = v }))
          c in
      if_set env "CACHE_NEGATIVE_TTL"
        (λ s. if_parsed (parse_duration s) (λ v c. record c { negative_ttl = v })) c

  -- ApplyEnvOverrides of service/user/rpc
  unfoldable pub apply_user_rpc : UserRpc → UserRpc
  unfolding apply_database apply_kafka env_list
  apply_user_rpc c =
      let c = record c { telemetry_endpoint = otlp_endpoint c.telemetry_endpoint } in
      let c = record c { database = database_host c.database } in
      let c = record c { database = database_port c.database } in
      let c = record c { database = apply_database env parse_duration c.database } in
      let c = record c { etcd = etcd_hosts (env_list env "ETCD_HOSTS") c.etcd } in
      let c = record c { etcd = etcd_key env "ETCD_KEY" c.etcd } in
      let c = record c { redis_cache = redis_host c.redis_cache } in
      let c = record c { cache = cache_ttls c.cache } in
      record c { kafka = apply_kafka env c.kafka }

  -- ApplyEnvOverrides of service/inventory/rpc
  unfoldable pub apply_inventory_rpc : InventoryRpc → InventoryRpc
  unfolding apply_database apply_kafka env_list
  apply_inventory_rpc c =
      let c = record c { telemetry_endpoint = otlp_endpoint c.telemetry_endpoint } in
      let c = record c { database = database_host c.database } in
      let c = record c { database = database_port c.database } in
      let c = record c { database = apply_database env parse_duration c.database } in
      let c = record c { etcd = etcd_hosts (env_list env "ETCD_HOSTS") c.etcd } in
      let c = record c { etcd = etcd_key env "ETCD_KEY" c.etcd } in
      record c { kafka = apply_kafka env c.kafka }
