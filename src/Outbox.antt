-- ===== src/Outbox.antt =====
-- common/xevent/outbox.go and the writes of common/xevent/outbox_repo.go: the outbox table.
pub mod Poller
pub mod Sent
pub mod Liveness
pub mod Polling
pub mod GivingUp
pub mod Keeps
use micro_go_lab.Base.{ℕ, ◌+◌, Bool, String, Option, none, some, ℤ, pos, ◌==◌, str_eq, List}
use micro_go_lab.Errors.{Result, ok, err, Error}
use micro_go_lab.Sql.{Tx, Table, ◌>>=◌, ◌>>◌, return}
use micro_go_lab.Event.{Topic, EventType}
use micro_go_lab.Event.Codec.{Envelope}

pub data OutboxStatus : Type 0 where
  pending sent failed : OutboxStatus

abbrev pub max_retries : ℕ
max_retries = 5

-- `event_key` is the number that strconv.FormatUint writes into EventKey, and `payload` the
-- envelope that json.Marshal writes into Payload.
pub record OutboxEvent : Type 0 where
  pub id : ℕ
  pub event_id : String
  pub topic : Topic
  pub event_key : ℕ
  pub event_type : EventType
  pub version : ℕ
  pub payload : Envelope
  pub status : OutboxStatus
  pub retry_count : ℕ
  pub last_error : Option Error
  pub created_at : ℕ
  pub sent_at : Option ℕ

abbrev pub is_pending : OutboxStatus → Bool
is_pending pending = Bool.true
is_pending sent = Bool.false
is_pending failed = Bool.false

-- What time.Now() and uuid.New() give to an operation.
pub record Ambient : Type 0 where
  pub now : ℕ
  pub uuid : String

-- The `&xevent.OutboxEvent{…}` that each producer of events builds around an envelope.
unfoldable pub new_event : Ambient → Topic → ℕ → Envelope → OutboxEvent
new_event a t key e = record {
  id = 0;
  event_id = a.uuid;
  topic = t;
  event_key = key;
  event_type = e.event;
  version = 1;
  payload = e;
  status = pending;
  retry_count = 0;
  last_error = none;
  created_at = a.now;
  sent_at = none;
}

module _ {S : Type 0} (t : Table S OutboxEvent) where
  -- Insert
  unfoldable pub insert : OutboxEvent → Tx S (Unit {0})
  insert e = t.create e >>= λ _. return tt

  -- MarkAsSent
  unfoldable pub mark_as_sent : ℕ → ℕ → Tx S (Unit {0})
  mark_as_sent now id =
      t.update (λ e. e.id == id) (λ e. record e { status = sent; sent_at = some now }) >>= λ _.
      return tt

  -- MarkAsFailed
  unfoldable pub mark_as_failed : ℕ → Error → Tx S (Unit {0})
  mark_as_failed id msg =
      t.update (λ e. e.id == id) (λ e. record e { status = failed; last_error = some msg }) >>= λ _.
      return tt

  -- IncrementRetryCount
  unfoldable pub increment_retry_count : ℕ → Error → Tx S (Unit {0})
  increment_retry_count id msg =
      t.update (λ e. e.id == id)
        (λ e. record e { retry_count = e.retry_count + 1; last_error = some msg })
      >>= λ _. return tt
