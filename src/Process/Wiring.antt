-- ===== src/Process/Wiring.antt =====
-- Which consumers run once the services are up, against the topics of the events that the services
-- write.
use micro_go_lab.Base.{
  ℕ, ◌≡◌, refl, inl, inr, false, Option, some, String, [], ◌∷◌, Exists, ℤ, str_eq, arith,
}
use micro_go_lab.Event.{Topic, user_events, order_events, inventory_events, Reason}
use micro_go_lab.Config.{Env, KafkaConfig}
use micro_go_lab.Config.Services.{OrderApi, InventoryRpc}
use micro_go_lab.Outbox.{Ambient}
use micro_go_lab.Stream.Topics.{Admin}
use micro_go_lab.Order.{Order}
use micro_go_lab.Order.Create.{created_event}
use micro_go_lab.Order.Update.{cancelled_event}
use micro_go_lab.Process.Connections.{Externals}
use micro_go_lab.Process.{
  up, Context, Handler, handle_user_event, handle_inventory_event, handle_order_event, polling,
  consuming, consumer_of, order_context, inventory_context, start, start_consumers, ConsumerConfig,
}
use micro_go_lab.Event.{OrderCreatedData}
use micro_go_lab.Inventory.Outcomes.{reserved_event, failed_event}
use micro_go_lab.Outbox.{new_event}
use micro_go_lab.User.{User}
use micro_go_lab.User.Rpc.{registered_event}

-- TopicUserEvents, TopicOrderEvents and TopicInventoryEvents
unfoldable pub topic_text : Topic → String
topic_text user_events = "user-events"
topic_text order_events = "order-events"
topic_text inventory_events = "inventory-events"

-- A consumer of the topic runs, with the handler.
abbrev pub Runs : Context → Topic → Handler → Type 0
Runs sc topic handler =
    Exists
      (λ g.
        (cfg : ConsumerConfig) × (g ≡ consuming (record { cfg = cfg; handler = handler }))
        × (cfg.topic ≡ topic_text topic))
      sc.running

-- The topics and the group of a KafkaConfig.
abbrev pub Subscribes : KafkaConfig → String → Topic → Type 0
Subscribes k name topic = (name ≡ topic_text topic) × (str_eq k.group_id "" ≡ false)

consumer_of-some :
    (k : KafkaConfig) (name : String) (topic : Topic) (h : Handler)
    → Subscribes k name topic
    → (cfg : ConsumerConfig) × (consumer_of k name h ≡ some (record { cfg = cfg; handler = h }))
      × (cfg.topic ≡ topic_text topic)
unfolding consumer_of topic_text
consumer_of-some k name topic h (named, group) = (
  record { brokers = k.bootstrap_servers; topic = name; group = k.group_id },
  go topic named,
  named,
)
  where
    go :
        (t : Topic)
        → name ≡ topic_text t
        → consumer_of k name h
          ≡ some (record {
            cfg = record { brokers = k.bootstrap_servers; topic = name; group = k.group_id };
            handler = h;
          })
    go user_events e = rw (e, group, consumer_of) refl
    go order_events e = rw (e, group, consumer_of) refl
    go inventory_events e = rw (e, group, consumer_of) refl

module _ {K C : Type 0} (x : Externals) (kafka : Admin K C) where
  order_context-consumers :
      (env : Env) (atoi : String → Option ℤ) (c : OrderApi) (s s' : C) (sc : Context)
      → order_context x kafka env atoi c s ≡ (up sc, s')
      → (sc.consumers
          ≡ consumer_of c.kafka c.kafka.topic handle_user_event
            ∷ consumer_of c.kafka c.kafka.inventory_topic handle_inventory_event
            ∷ [])
        × (sc.running ≡ polling sc.poller ∷ [])
  unfolding order_context
  order_context-consumers env atoi c s s' sc e = ground arith

  inventory_context-consumers :
      (c : InventoryRpc) (s s' : C) (sc : Context)
      → inventory_context x kafka c s ≡ (up sc, s')
      → (sc.consumers ≡ consumer_of c.kafka c.kafka.topic handle_order_event ∷ [])
        × (sc.running ≡ polling sc.poller ∷ [])
  unfolding inventory_context
  inventory_context-consumers c s s' sc e = ground arith

  module _ (env : Env) (atoi : String → Option ℤ) (co : OrderApi) (ci : InventoryRpc)
      (s t : C) where
    -- The order service and the inventory service come up, with the topics of xevent and some group
    -- configured, and are started. Then a consumer runs for every event that a service writes into
    -- its outbox, on the topic of the row and with the handler for the event.
    pub start-Runs :
        (sco sci : Context) (s' t' : C)
        → order_context x kafka env atoi co s ≡ (up sco, s')
        → inventory_context x kafka ci t ≡ (up sci, t')
        → Subscribes co.kafka co.kafka.topic user_events
        → Subscribes co.kafka co.kafka.inventory_topic inventory_events
        → Subscribes ci.kafka ci.kafka.topic order_events
        → (a : Ambient) (o : Order) (why : Reason) (d : OrderCreatedData) (k : ℕ) (u : User)
        → Runs (start sci) (created_event a o).topic handle_order_event
          × Runs (start sci) (cancelled_event a o why).topic handle_order_event
          × Runs (start sco) (reserved_event a d k).topic handle_inventory_event
          × Runs (start sco) (failed_event a d k).topic handle_inventory_event
          × Runs (start sco) (registered_event a u).topic handle_user_event
    unfolding start start_consumers created_event cancelled_event registered_event new_event
    start-Runs sco sci s' t' eo ei users stock orders a o why d k u =
        let (cso, ro) = order_context-consumers env atoi co s s' sco eo in
        let (csi, ri) = inventory_context-consumers ci t t' sci ei in
        let (uc, ue, ut) =
          consumer_of-some co.kafka co.kafka.topic user_events handle_user_event users in
        let (sc, se, st) =
          consumer_of-some co.kafka co.kafka.inventory_topic inventory_events handle_inventory_event
            stock in
        let (oc, oe, ot) =
          consumer_of-some ci.kafka ci.kafka.topic order_events handle_order_event orders in
        let runo : (start sco).running
            ≡ polling sco.poller
              ∷ consuming (record { cfg = uc; handler = handle_user_event })
              ∷ consuming (record { cfg = sc; handler = handle_inventory_event })
              ∷ [] =
          rw (cso, ue, se, ro, start_consumers) refl in
        let runi : (start sci).running
            ≡ polling sci.poller
              ∷ consuming (record { cfg = oc; handler = handle_order_event })
              ∷ [] =
          rw (csi, oe, ri, start_consumers) refl in
        (
          rw runi (inr (inl (oc, refl, ot))),
          rw runi (inr (inl (oc, refl, ot))),
          rw runo (inr (inr (inl (sc, refl, st)))),
          rw runo (inr (inr (inl (sc, refl, st)))),
          rw runo (inr (inl (uc, refl, ut))),
        )
