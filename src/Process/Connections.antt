-- ===== src/Process/Connections.antt =====
-- The connections of a process: common/xdb/db.go (New), common/xdb/migrate.go (Migrate) and
-- common/xredis/redis.go (New). What gorm, goose, redis and zrpc answer are parameters.
use Prim.Native.String.{◌++◌ as ◌<>◌}
use micro_go_lab.Base.{Option, none, some, String, ℤ, pos, negsuc, suc, zero}
use micro_go_lab.Errors.{Error, Result, ok, err, wrap}
use micro_go_lab.Config.{ClientConf, DatabaseConfig, RedisConfig, addr}

-- What a connection pool is set to: the last two only where they are set.
pub record Pool : Type 0 where
  pub dsn : String
  pub max_open_conns : ℤ
  pub max_idle_conns : ℤ
  pub conn_max_lifetime : Option ℤ
  pub conn_max_idle_time : Option ℤ
  pub stats_label : String

-- gorm.Open of a dsn with the threshold of its logger, gormDB.DB(), the three calls of Migrate for a
-- directory, Ping of a client, MustNewClient, and fmt's %d.
pub record Externals : Type 0 where
  pub open_dsn : String → ℤ → Option Error
  pub sql_db : Option Error
  pub sub_fs : String → Option Error
  pub new_provider : String → Option Error
  pub up : String → Option Error
  pub ping : String → String → ℤ → Option Error
  pub new_client : ClientConf → Option Error
  pub decimal : ℤ → String

-- `if d > 0`
abbrev pub if_positive : ℤ → Option ℤ
if_positive (pos zero) = none
if_positive (pos (suc n)) = some (pos (suc n))
if_positive (negsuc n) = none

-- The early return of an error.
abbrev pub or_else : {A : Type 0} → Option Error → Result A → Result A
or_else none r = r
or_else (some e) r = err e

-- The first of two errors.
abbrev pub first_error : Option Error → Option Error → Option Error
first_error none e = e
first_error (some d) e = some d

abbrev pub wrapped : Option Error → Option Error
wrapped none = none
wrapped (some e) = some (wrap e)

module _ (x : Externals) where
  -- The text that xdb.New formats.
  unfoldable pub dsn : DatabaseConfig → String
  dsn c =
      c.user
      <> ":"
      <> c.password
      <> "@tcp("
      <> c.host
      <> ":"
      <> x.decimal c.port
      <> ")/"
      <> c.db_name
      <> "?parseTime=true&charset=utf8mb4&loc=Local"

  -- xdb.New
  unfoldable pub new_db : DatabaseConfig → Result Pool
  unfolding dsn
  new_db c = or_else (wrapped (x.open_dsn (dsn c) c.slow_threshold)) (
      or_else (wrapped x.sql_db) (
        ok (record {
          dsn = dsn c;
          max_open_conns = c.max_open_conns;
          max_idle_conns = c.max_idle_conns;
          conn_max_lifetime = if_positive c.conn_max_lifetime;
          conn_max_idle_time = if_positive c.conn_max_idle_time;
          stats_label = c.db_name;
        })))

  -- xdb.Migrate
  unfoldable pub migrate : String → Option Error
  migrate service =
      let directory = "migrations/" <> service in
      first_error x.sql_db
        (first_error (x.sub_fs directory) (first_error (x.new_provider directory) (x.up directory)))

  -- xredis.New: the address of the client.
  unfoldable pub new_redis : RedisConfig → Result String
  unfolding addr
  new_redis c =
      or_else (wrapped (x.ping (addr x.decimal c) c.password c.db)) (ok (addr x.decimal c))
