-- ===== src/Process.antt =====
-- How a process comes up and goes down: NewServiceContext, Start and Stop of service/order/api
-- (servicecontext.go), service/inventory/rpc (serviceContext.go) and service/user/rpc
-- (servicecontext.go), and the consumers of common/xstream/stream.go that they start. Process/Gateway
-- has the context of service/user/api.
pub mod Connections
pub mod Wiring
pub mod Shutdown
pub mod Gateway
use micro_go_lab.Base.{
  ℕ, ◌*◌, Bool, true, false, Option, none, some, String, List, [], ◌∷◌, ◌++◌, ℤ, pos, negsuc, suc,
  zero, str_eq, not, ◌&&◌, if◌then◌else◌,
}
use micro_go_lab.Errors.{Error, Result, ok, err, wrap}
use micro_go_lab.Config.{
  Env, ClientConf, DatabaseConfig, RedisConfig, KafkaConfig, UserSvcConfig, addr, rpc_client_conf,
}
use micro_go_lab.Config.Services.{OrderApi, UserApi, UserRpc, InventoryRpc}
use micro_go_lab.Outbox.Polling.{Poller, new_poller}
use micro_go_lab.Stream.Consumer.{second}
use micro_go_lab.Stream.Topics.{Admin, new_producer}
use micro_go_lab.Process.Connections.{Pool, Externals, new_db, migrate, new_redis}

-- What NewServiceContext panics with; zrpc.MustNewClient ends the process.
pub data Panic : Type 0 where
  connect_database migration connect_redis create_producer : Error → Panic
  no_client : Error → Panic

-- A service that has come up, or the panic.
pub data Booted (A : Type 0) : Type 0 where
  up : A → Booted A
  panics : Panic → Booted A

abbrev pub on_error : {A B : Type 0} → Result A → (Error → Panic) → (A → Booted B) → Booted B
on_error (ok a) p k = k a
on_error (err e) p k = panics (p e)

abbrev pub on_failure : {B : Type 0} → Option Error → (Error → Panic) → Booted B → Booted B
on_failure none p b = b
on_failure (some e) p b = panics (p e)

-- The handlers of the consumers.
pub data Handler : Type 0 where
  handle_user_event handle_inventory_event handle_order_event : Handler

pub record ConsumerConfig : Type 0 where
  pub brokers : List String
  pub topic : String
  pub group : String

-- NewConsumer
pub record Consumer : Type 0 where
  pub cfg : ConsumerConfig
  pub handler : Handler

-- A goroutine that a ServiceContext starts and its wait group counts.
pub data Goroutine : Type 0 where
  polling : Poller → Goroutine
  consuming : Consumer → Goroutine

-- A consumer of a topic, where a topic and a group are configured.
unfoldable pub consumer_of : KafkaConfig → String → Handler → Option Consumer
consumer_of k topic handler =
    if not (str_eq topic "") && not (str_eq k.group_id "")
    then some (record {
      cfg = record { brokers = k.bootstrap_servers; topic = topic; group = k.group_id };
      handler = handler;
    })
    else none

-- What a ServiceContext holds of what is started and stopped, and the goroutines that run.
pub record Context : Type 0 where
  pub pool : Pool
  pub redis : Option String
  pub producer : List String
  pub poller : Poller
  pub consumers : List (Option Consumer)
  pub rate : Option ℕ
  pub running : List Goroutine

-- `if sc.Consumer != nil { sc.Consumer.Start(…) }`, one after another.
unfoldable pub start_consumers : List (Option Consumer) → List Goroutine → List Goroutine
start_consumers [] running = running
start_consumers (none ∷ cs) running = start_consumers cs running
start_consumers (some c ∷ cs) running = start_consumers cs (running ++ consuming c ∷ [])

-- The limit per minute: BUG_LOAD_RATE where it is a positive number, else 100.
unfoldable pub rate_per_min : Env → (String → Option ℤ) → ℕ
rate_per_min env atoi = elim (atoi (env "BUG_LOAD_RATE")) [
  | some (pos (suc n)) ↦ if str_eq (env "BUG_LOAD_RATE") "" then 100 else suc n
  | _ ↦ 100
]

module _ {K C : Type 0} (x : Externals) (kafka : Admin K C) where
  -- NewProducer, and what follows it.
  abbrev pub with_producer : KafkaConfig → C → (List String → Booted Context) → Booted Context × C
  with_producer k c next =
      let (r, c') = new_producer kafka k.bootstrap_servers c in
      (on_error r create_producer next, c')

  abbrev pub every_five_seconds : Poller
  every_five_seconds = new_poller (5 * second) 100

  -- NewServiceContext of service/order/api
  unfoldable pub order_context : Env → (String → Option ℤ) → OrderApi → C → Booted Context × C
  unfolding new_db migrate new_redis rpc_client_conf new_producer new_poller rate_per_min
      consumer_of
  order_context env atoi c s = elim (new_db x c.database) [
    | err e ↦ (panics (connect_database e), s)
    | ok pool ↦ elim (migrate x "order") [
      | some e ↦ (panics (migration e), s)
      | none ↦ elim (x.new_client (rpc_client_conf c.user_svc)) [
        | some e ↦ (panics (no_client e), s)
        | none ↦ elim (new_redis x c.redis) [
          | err e ↦ (panics (connect_redis e), s)
          | ok redis ↦ with_producer c.kafka s (λ producer. up (record {
            pool = pool;
            redis = some redis;
            producer = producer;
            poller = every_five_seconds;
            consumers =
                consumer_of c.kafka c.kafka.topic handle_user_event
                ∷ consumer_of c.kafka c.kafka.inventory_topic handle_inventory_event
                ∷ [];
            rate = some (rate_per_min env atoi);
            running = polling every_five_seconds ∷ [];
          }))
        ]
      ]
    ]
  ]

  -- NewServiceContext of service/inventory/rpc
  unfoldable pub inventory_context : InventoryRpc → C → Booted Context × C
  unfolding new_db migrate new_producer new_poller consumer_of
  inventory_context c s = elim (new_db x c.database) [
    | err e ↦ (panics (connect_database e), s)
    | ok pool ↦ elim (migrate x "inventory") [
      | some e ↦ (panics (migration e), s)
      | none ↦ with_producer c.kafka s (λ producer. up (record {
        pool = pool;
        redis = none;
        producer = producer;
        poller = every_five_seconds;
        consumers = consumer_of c.kafka c.kafka.topic handle_order_event ∷ [];
        rate = none;
        running = polling every_five_seconds ∷ [];
      }))
    ]
  ]

  -- The client of the cache: none where no host is configured, or where it does not answer.
  unfoldable pub cache_client : RedisConfig → Option String
  unfolding new_redis
  cache_client c =
      if str_eq c.host "" then none else elim (new_redis x c) [ ok a ↦ some a | err e ↦ none ]

  -- NewServiceContext of service/user/rpc, which starts nothing yet
  unfoldable pub user_context : UserRpc → C → Booted Context × C
  unfolding new_db migrate cache_client new_producer new_poller
  user_context c s = elim (new_db x c.database) [
    | err e ↦ (panics (connect_database e), s)
    | ok pool ↦ elim (migrate x "user") [
      | some e ↦ (panics (migration e), s)
      | none ↦ with_producer c.kafka s (λ producer. up (record {
        pool = pool;
        redis = cache_client c.redis_cache;
        producer = producer;
        poller = every_five_seconds;
        consumers = [];
        rate = none;
        running = [];
      }))
    ]
  ]

-- Start of the order and the inventory service
unfoldable pub start : Context → Context
unfolding start_consumers
start sc = record sc { running = start_consumers sc.consumers sc.running }

-- Start of the user service
unfoldable pub start_user : Context → Context
start_user sc = record sc { running = sc.running ++ polling sc.poller ∷ [] }
