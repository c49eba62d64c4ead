-- ===== src/Stream.antt =====
-- common/xstream: the message type of stream.go and its headers.
pub mod Consumer
pub mod Restarts
pub mod Given
pub mod Topics
use micro_go_lab.Base.{ℕ, String, List, [], ◌∷◌, str_eq, if◌then◌else◌}
use micro_go_lab.Event.{Topic}
use micro_go_lab.Event.Codec.{Document}

abbrev pub Headers : Type 0
Headers = List (String × String)

-- `partition` and `offset` place the message in its topic; `value` is what its bytes are to json.
pub record Message : Type 0 where
  pub topic : Topic
  pub partition : ℕ
  pub offset : ℕ
  pub key : ℕ
  pub value : Document
  pub headers : Headers

-- headers[k]: "" where the map has no such key.
unfoldable pub header : String → Headers → String
header k [] = ""
header k ((j, v) ∷ hs) = if str_eq j k then v else header k hs

-- headers[k] = v
unfoldable pub put_header : String → String → Headers → Headers
put_header k v [] = (k, v) ∷ []
put_header k v ((j, w) ∷ hs) = if str_eq j k then (k, v) ∷ hs else (j, w) ∷ put_header k v hs

-- toKafkaHeaders: the pairs of the map, in some order
unfoldable pub to_kafka_headers : Headers → List (String × String)
to_kafka_headers hs = hs

put_all : List (String × String) → Headers → Headers
unfolding put_header
put_all [] m = m
put_all ((k, v) ∷ hs) m = put_all hs (put_header k v m)

-- fromKafkaHeaders: the pairs put into an empty map, one after another
unfoldable pub from_kafka_headers : List (String × String) → Headers
unfolding put_all
from_kafka_headers hs = put_all hs []
