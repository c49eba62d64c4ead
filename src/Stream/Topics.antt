-- ===== src/Stream/Topics.antt =====
-- common/xstream/stream.go: the topics that a producer ensures when it starts, and what it
-- publishes. kafka-go is a parameter.
use micro_go_lab.Base.{ℕ, Bool, true, false, Option, none, some, String, List, [], ◌∷◌, ◌++◌}
use micro_go_lab.Errors.{Error, Result, ok, err, other, wrap}
use micro_go_lab.Event.{Topic, TopicSpec, topic_specs}
use micro_go_lab.Stream.{Message, to_kafka_headers}

-- The fields of kafka.TopicConfig that the source sets.
pub record TopicConfig : Type 0 where
  pub topic : Topic
  pub num_partitions : ℕ
  pub replication_factor : ℕ

-- Dial, Controller with the address that its host and port make, CreateTopics on a connection
-- to that address, and whether the text of an error holds "already exists".
pub record Admin (K C : Type 0) : Type 0 where
  pub dial : String → Result K
  pub controller : K → Result String
  pub create_topic : K → TopicConfig → C → Option Error × C
  pub says_exists : Error → Bool

module _ {K C : Type 0} (kafka : Admin K C) where
  -- The loop that dials one broker after another: a connection, or the last error.
  unfoldable pub dial_first : List String → Option Error → Result K
  dial_first [] (some e) = err (wrap e)
  dial_first [] none = err (other "dial brokers")
  dial_first (b ∷ bs) last = elim (kafka.dial b) [ ok c ↦ ok c | err e ↦ dial_first bs (some e) ]

  -- isTopicExistsErr
  unfoldable pub is_topic_exists_err : Option Error → Bool
  is_topic_exists_err none = false
  is_topic_exists_err (some e) = kafka.says_exists e

  -- What is logged of one CreateTopics: an error other than that the topic is there.
  abbrev pub logged : TopicSpec → Option Error → List TopicSpec
  logged spec none = []
  logged spec (some e) = elim (kafka.says_exists e) [ true ↦ [] | false ↦ spec ∷ [] ]

  -- The loop over the specs: the topics whose failure is logged.
  unfoldable pub create_topics : K → List TopicSpec → C → List TopicSpec × C
  create_topics conn [] c = ([], c)
  create_topics conn (spec ∷ specs) c =
      let config : TopicConfig = record {
        topic = spec.name;
        num_partitions = spec.num_partitions;
        replication_factor = spec.replication_factor;
      } in
      let (e, c1) = kafka.create_topic conn config c in
      let (rest, c2) = create_topics conn specs c1 in (logged spec e ++ rest, c2)

  -- What follows the first connection.
  unfoldable pub ensure_on : K → List TopicSpec → C → Result (List TopicSpec) × C
  unfolding create_topics
  ensure_on conn specs c = elim (kafka.controller conn) [
    | err e ↦ (err (wrap e), c)
    | ok address ↦ elim (kafka.dial address) [
      | err e ↦ (err (wrap e), c)
      | ok topic_conn ↦ let (failures, c') = create_topics topic_conn specs c in (ok failures, c')
    ]
  ]

  -- ensureTopics: the topics whose failure is logged, or the error.
  unfoldable pub ensure_topics : List String → List TopicSpec → C → Result (List TopicSpec) × C
  unfolding dial_first ensure_on
  ensure_topics [] specs c = (err (other "no bootstrap servers"), c)
  ensure_topics (b ∷ bs) specs c = elim (dial_first (b ∷ bs) none) [
    | err e ↦ (err e, c)
    | ok conn ↦ ensure_on conn specs c
  ]

  -- NewProducer: the writer that it makes keeps the addresses.
  unfoldable pub new_producer : List String → C → Result (List String) × C
  unfolding ensure_topics topic_specs
  new_producer servers c =
      let (r, c') = ensure_topics servers topic_specs c in
      elim r [ err e ↦ (err (wrap e), c') | ok failures ↦ (ok servers, c') ]

-- Publish: `write` is the writer's WriteMessages.
unfoldable pub publish : (Message → Option Error) → Message → Option Error
unfolding to_kafka_headers
publish write msg = write (record msg { headers = to_kafka_headers msg.headers })
