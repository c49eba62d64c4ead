-- ===== src/Tests/Process.antt =====
-- The order service and the inventory service, up, started and stopped.
use micro_go_lab.Base.{◌≡◌, refl, inl, true, false, none, String, [], ◌∷◌, pos, ℤ, Option, some}
use micro_go_lab.Errors.{ok}
use micro_go_lab.Config.{Env, DatabaseConfig, KafkaConfig, addr, rpc_client_conf}
use micro_go_lab.Config.Services.{OrderApi, UserApi, InventoryRpc}
use micro_go_lab.Event.{out_of_stock, pending, no_reason, topic_specs}
use micro_go_lab.Inventory.Outcomes.{reserved_event, failed_event}
use micro_go_lab.Order.{Order}
use micro_go_lab.Order.Create.{created_event}
use micro_go_lab.Order.Update.{cancelled_event}
use micro_go_lab.User.{User}
use micro_go_lab.User.Rpc.{registered_event}
use micro_go_lab.Saga.{created_data}
use micro_go_lab.Outbox.Polling.{Poller, new_poller}
use micro_go_lab.Stream.Topics.{
  Admin, ensure_topics, dial_first, ensure_on, create_topics, new_producer,
}
use micro_go_lab.Process.Connections.{Pool, Externals, dsn, new_db, migrate, new_redis}
use micro_go_lab.Process.{
  Handler, Booted, Consumer, Context, up, panics, handle_user_event, handle_inventory_event,
  handle_order_event, polling, consumer_of, order_context, inventory_context, start, rate_per_min,
}
use micro_go_lab.Process.Gateway.{Gateway, RateLimiter, gateway_context, new_redis_rate_limiter}
use micro_go_lab.Process.Wiring.{Runs, topic_text, start-Runs}
use micro_go_lab.Process.Shutdown.{
  Process, waiting, waited, stopped, launched, works, returns, cancels, waits, closes_producer,
  closes_connections, Reach, here, next, Reach-stays,
}
use micro_go_lab.Tests.Data.{ambient}

abbrev no_env : Env
no_env name = ""

abbrev no_number : String → Option ℤ
no_number s = none

-- Whatever is called answers.
abbrev answering : Externals
answering = record {
  open_dsn = λ s t. none;
  sql_db = none;
  sub_fs = λ s. none;
  new_provider = λ s. none;
  up = λ s. none;
  ping = λ a p n. none;
  new_client = λ c. none;
  decimal = λ n. "1";
}

abbrev admin : Admin (Unit {0}) (Unit {0})
admin = record {
  dial = λ s. ok tt;
  controller = λ k. ok "k1:9092";
  create_topic = λ k t c. (none, c);
  says_exists = λ e. false;
}

abbrev database : String → DatabaseConfig
database name = record {
  host = "localhost";
  port = pos 3306;
  user = "root";
  password = "";
  db_name = name;
  max_open_conns = pos 25;
  max_idle_conns = pos 10;
  conn_max_lifetime = pos 0;
  conn_max_idle_time = pos 60;
  slow_threshold = pos 200;
}

abbrev kafka : String → String → String → KafkaConfig
kafka group topic inventory = record {
  bootstrap_servers = "k1:9092" ∷ [];
  group_id = group;
  topic = topic;
  inventory_topic = inventory;
}

abbrev order_config : OrderApi
order_config = record {
  telemetry_endpoint = "";
  auth = record { access_secret = "s3cret"; access_expire = pos 86_400 };
  database = database "order_db";
  user_svc = record {
    etcd = record { hosts = "etcd:2379" ∷ []; key = "user.rpc" };
    endpoints = [];
    timeout = pos 2000;
  };
  redis = record { host = "localhost"; port = pos 6379; password = ""; db = pos 0 };
  cors = record { allowed_origins = "*" ∷ [] };
  kafka = kafka "order-api" "user-events" "inventory-events";
}

abbrev inventory_config : InventoryRpc
inventory_config = record {
  telemetry_endpoint = "";
  etcd = record { hosts = "etcd:2379" ∷ []; key = "inventory.rpc" };
  database = database "inventory_db";
  kafka = kafka "inventory-rpc" "order-events" "";
}

abbrev consumer : String → String → Handler → Consumer
consumer topic group h = record {
  cfg = record { brokers = "k1:9092" ∷ []; topic = topic; group = group };
  handler = h;
}

abbrev pool : String → Pool
pool name = record {
  dsn = dsn answering (database name);
  max_open_conns = pos 25;
  max_idle_conns = pos 10;
  conn_max_lifetime = none;
  conn_max_idle_time = some (pos 60);
  stats_label = name;
}

abbrev poller : Poller
poller = record { interval = 5_000_000_000; batch_size = 100 }

abbrev order_up : Context
order_up = record {
  pool = pool "order_db";
  redis = some "localhost:1";
  producer = "k1:9092" ∷ [];
  poller = poller;
  consumers =
      some (consumer "user-events" "order-api" handle_user_event)
      ∷ some (consumer "inventory-events" "order-api" handle_inventory_event)
      ∷ [];
  rate = some 100;
  running = polling poller ∷ [];
}

abbrev inventory_up : Context
inventory_up = record {
  pool = pool "inventory_db";
  redis = none;
  producer = "k1:9092" ∷ [];
  poller = poller;
  consumers = some (consumer "order-events" "inventory-rpc" handle_order_event) ∷ [];
  rate = none;
  running = polling poller ∷ [];
}

order_comes_up : order_context answering admin no_env no_number order_config tt ≡ (up order_up, tt)
unfolding order_context new_db dsn migrate new_redis addr rpc_client_conf new_producer ensure_topics
    dial_first ensure_on create_topics topic_specs new_poller rate_per_min consumer_of
order_comes_up = refl

inventory_comes_up : inventory_context answering admin inventory_config tt ≡ (up inventory_up, tt)
unfolding inventory_context new_db dsn migrate new_producer ensure_topics dial_first ensure_on
    create_topics topic_specs new_poller consumer_of
inventory_comes_up = refl

abbrev order : Order
order = record {
  id = 6;
  user_id = 2;
  product_name = "Pen";
  amount = pos 300;
  status = pending;
  version = 0;
  sku = "pen";
  quantity = pos 3;
  cancel_reason = no_reason;
}

abbrev ann : User
ann = record { id = 2; username = "ann"; email = "ann@example.org"; password = "hash" }

start-Runs_example :
    Runs (start inventory_up) (created_event ambient order).topic handle_order_event
    × Runs
        (start inventory_up)
        (cancelled_event ambient order out_of_stock).topic
        handle_order_event
    × Runs
        (start order_up)
        (reserved_event ambient (created_data order) 1).topic
        handle_inventory_event
    × Runs
        (start order_up)
        (failed_event ambient (created_data order) 1).topic
        handle_inventory_event
    × Runs (start order_up) (registered_event ambient ann).topic handle_user_event
unfolding topic_text
start-Runs_example =
    start-Runs answering admin no_env no_number order_config inventory_config tt tt order_up
      inventory_up tt tt order_comes_up inventory_comes_up (refl, refl) (refl, refl) (refl, refl)
      ambient order out_of_stock (created_data order) 1 ann

-- A tick, Stop, one more tick, and the end of the goroutines.
abbrev working : Process
working = record (launched inventory_up) { log = polling poller ∷ [] }

abbrev stopping : Process
stopping = record working { cancelled = true; phase = waiting }

abbrev last_tick : Process
last_tick = record stopping { log = polling poller ∷ polling poller ∷ [] }

abbrev idle : Process
idle = record last_tick { running = [] }

abbrev over : Process
over = record idle { phase = stopped; producer_open = false }

begins : Reach (launched inventory_up) stopping
begins =
    next (next here (works (launched inventory_up) (polling poller) (inl refl)))
      (cancels working refl)

Reach-stays_example : (record over { connections_open = false }).log ≡ over.log
Reach-stays_example =
    Reach-stays inventory_up over (record over { connections_open = false })
      (next
        (next
          (next (next begins (works stopping (polling poller) (inl refl)))
            (returns last_tick [] (polling poller) [] refl refl))
          (waits idle refl refl))
        (closes_producer (record idle { phase = waited }) refl))
      (inl refl) (next here (closes_connections over refl))

abbrev gateway_config : UserApi
gateway_config = record {
  telemetry_endpoint = "";
  auth = order_config.auth;
  user_svc = order_config.user_svc;
  cors = order_config.cors;
  redis = order_config.redis;
}

abbrev limited_of : Booted Gateway → Option RateLimiter
limited_of (up g) = some g.rate_limiter
limited_of (panics p) = none

gateway_limits :
    limited_of (gateway_context answering gateway_config)
    ≡ some (record {
      store = "localhost:1";
      period = 3;
      quota = 1;
      key_prefix = "ratelimit:user-api:";
      window = 3_000_000_000;
    })
unfolding gateway_context new_redis_rate_limiter addr
gateway_limits = refl
