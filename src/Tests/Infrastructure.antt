-- ===== src/Tests/Infrastructure.antt =====
-- The parts that the services share, and the user service.
use micro_go_lab.Base.{
  ℕ, ◌≤◌, ◌<◌, ◌≡◌, ◌≢◌, refl, sym, inl, inr, suc, zero, Bool, true, false, Option, none, some,
  String, List, [], ◌∷◌, find, str_eq, arith,
}
use micro_go_lab.Errors.{
  Error, Result, ok, err, mysql, other, status, is_record_not_found, cache_miss, is_deadlock,
}
use micro_go_lab.Sql.{Tx, Table, Schema}
use micro_go_lab.Sql.Memory.{
  table, table-IsTable, database, database-IsDatabase, select_first, insert, run,
}
use micro_go_lab.Event.{order_events}
use micro_go_lab.Event.Codec.{malformed}
use micro_go_lab.Outbox
use micro_go_lab.Outbox.{OutboxEvent, pending, sent}
use micro_go_lab.Idempotent.{ProcessedEvent, process, process_tx, process_found}
use micro_go_lab.Idempotent.Once.{IsProcessedTable, process_again}
use micro_go_lab.Retry.{exhausted, default_retry_options, with_retry}
use micro_go_lab.Retry.Attempts.{with_retry-recovers, with_retry-exhausts, retries}
use micro_go_lab.Stream.{Message}
use micro_go_lab.Stream.Consumer.{
  Broker, IsBroker, Handled, returned, message, consume, consume-passes_over,
}
use micro_go_lab.Client.{retry_unary_interceptor, is_retryable}
use micro_go_lab.Client.Calls.{IsPassing, retry_unary_interceptor-IsLast}
use micro_go_lab.Cache.{Store, get_or_load}
use micro_go_lab.Cache.Coherence.{IsStore, IsFormat, Agrees, answer, get_or_load-Transparent}
use micro_go_lab.User
use micro_go_lab.User.Rpc.{
  CreateUserRequest, UserResponse, create_user, find_by_username, find_by_email, create_hashed,
  create_begun, create, user_created, committed, registered_event,
}
use micro_go_lab.User.Registration.{RegisterOutcome, stored, create_user-RegisterOutcome}
use micro_go_lab.Tests.Data.{ambient, ProcessedEvent-discrete, users, users-IsService}

-- Idempotence: a database of processed events alone.
abbrev Marks : Type 0
Marks = List ProcessedEvent

abbrev marks_schema : Schema Marks ProcessedEvent
marks_schema = record {
  rows = λ s. s;
  put = λ rs s. rs;
  assign = λ i e. record e { processed_at = i };
  clash = λ e f. str_eq e.event_id f.event_id;
}

abbrev marks : Table Marks ProcessedEvent
marks = table marks_schema ProcessedEvent-discrete

marks-IsProcessedTable : IsProcessedTable marks_schema
marks-IsProcessedTable = record { rows-put = λ rs s. refl; assign_id = λ i e. refl }

abbrev done_block : Tx Marks (Unit {0})
done_block s = ok (tt, s)

abbrev marked : Marks
marked = record { event_id = "e1"; processed_at = 1 } ∷ []

process_first : process database marks "e1" done_block [] ≡ (ok true, marked)
unfolding process process_tx process_found database run table select_first insert find
    is_record_not_found
process_first = refl

process_second : process database marks "e1" done_block marked ≡ (ok false, marked)
unfolding process process_tx process_found database run table select_first insert find
    is_record_not_found
process_second = refl

process_again_example : (marked ≡ marked) × (◌≢◌ {A = Result Bool} (ok false) (ok true))
process_again_example =
    process_again marks_schema marks-IsProcessedTable database marks database-IsDatabase
      (table-IsTable marks_schema ProcessedEvent-discrete) "e1" done_block done_block [] marked
      marked (ok false) process_first process_second

-- Retries: a deadlock at the first attempt, or at every one.
abbrev once_locked : ℕ → ℕ → Result Bool × ℕ
once_locked zero s = (ok true, suc s)
once_locked (suc zero) s = (err (mysql 1213), s)
once_locked (suc (suc n)) s = (ok true, suc s)

abbrev ever_locked : ℕ → ℕ → Result Bool × ℕ
ever_locked n s = (err (mysql 1205), s)

first_only : (i : ℕ) → 1 ≤ i → i ≤ 1 → i ≡ 1
first_only i h l = omega arith

with_retry-recovers_example :
    with_retry default_retry_options once_locked (λ n. none) false 0 ≡ (ok true, 1, retries 1 [])
unfolding is_deadlock default_retry_options
with_retry-recovers_example =
    with_retry-recovers default_retry_options once_locked (λ n. none) false 0 1 (ok true) 1
      (omega arith)
      (λ i h l. let one : i ≡ 1 = omega arith in rw one (mysql 1213, refl, refl, refl)) refl tt

with_retry-exhausts_example :
    with_retry default_retry_options ever_locked (λ n. none) false 0
    ≡ (err (mysql 1205), 0, retries 2 (exhausted ∷ []))
unfolding is_deadlock default_retry_options
with_retry-exhausts_example =
    with_retry-exhausts default_retry_options ever_locked (λ n. none) false 0 2 (mysql 1205) refl
      (λ i h l. (mysql 1205, refl, refl, refl)) refl refl

-- A consumer: the first message fails, the second does not.
abbrev pub at_offset : ℕ → Message
at_offset i = record {
  topic = order_events;
  partition = 0;
  offset = i;
  key = 1;
  value = malformed;
  headers = [];
}

abbrev broker : Broker ℕ
broker = record { commit = λ m b. (none, suc m.offset); resumes = λ b p. b }

broker-IsBroker : IsBroker broker
broker-IsBroker = record { commit_law = λ m b b' e. sym_of e }
  where
    sym_of : {m b' : ℕ} → ◌≡◌ {A = Option Error × ℕ} (none, suc m) (none, b') → b' ≡ suc m
    sym_of e = cc

abbrev pub handle : Message → ℕ → Handled × ℕ
handle m zero = (returned (some (other "failed")), 1)
handle m (suc n) = (returned none, 2)

consume-passes_over_example :
    let after =
      consume handle broker (message (at_offset 4) ∷ message (at_offset 5) ∷ []) (0, 0) 1 in
    (after.0 ≡ 2) × (4 < broker.resumes after.1 0)
consume-passes_over_example =
    consume-passes_over handle broker broker-IsBroker (at_offset 4) (at_offset 5) 0 1 2 0 6 1
      (other "failed") refl (omega arith) refl refl refl

abbrev unavailable : ℕ → Option Error
unavailable zero = some (status 14)
unavailable (suc zero) = some (status 14)
unavailable (suc (suc n)) = none

passing : (i : ℕ) → i < 2 → IsPassing unavailable (λ i. none) i
unfolding is_retryable
passing zero l = (status 14, refl, refl, refl)
passing (suc zero) l = (status 14, refl, refl, refl)
passing (suc (suc n)) l = absurd (omega arith)

retry_unary_interceptor-IsLast_example :
    retry_unary_interceptor unavailable (λ i. none) ≡ (none, 100 ∷ 200 ∷ [])
retry_unary_interceptor-IsLast_example =
    retry_unary_interceptor-IsLast unavailable (λ i. none) 2 (omega arith) passing (inl refl)

-- A cache of one key, empty, in front of a loader that finds nothing.
abbrev pub store : Store (Option String)
store = record { get = λ k c. got c; set = λ k b c. some b; del = λ ks c. none }
  where
    got : Option String → Result String
    got none = err (other "redis: nil")
    got (some b) = ok b

pub store-IsStore : IsStore store "user:validate:1"
store-IsStore = record { set_law = λ b c. inl refl; del_law = λ c. inr (other "redis: nil", refl) }

abbrev texts : Bool → Result String
texts true = ok "{}"
texts false = err (other "json")

abbrev of_text : String → Result Bool
of_text s = ok true

texts-IsFormat : IsFormat texts of_text
texts-IsFormat = record { reads_back = λ v b e. back v b e; is_marked = λ v b e. plain v b e }
  where
    back : (v : Bool) (b : String) → texts v ≡ ok b → of_text b ≡ ok v
    back true b e = refl
    back false b e = cc

    plain : (v : Bool) (b : String) → texts v ≡ ok b → str_eq b "__negative__" ≡ false
    plain true b e = let same : "{}" ≡ b = cc in rw (sym same) refl
    plain false b e = cc

get_or_load-Transparent_example :
    ((get_or_load (some store) "user:validate:1" texts of_text (err cache_miss) none).0
      ≡ answer (err cache_miss))
    × Agrees of_text (err cache_miss) (
        store.get "user:validate:1"
          (get_or_load (some store) "user:validate:1" texts of_text (err cache_miss) none).1)
get_or_load-Transparent_example =
    get_or_load-Transparent store "user:validate:1" texts of_text store-IsStore texts-IsFormat
      (err cache_miss) none tt

-- Registration
abbrev pub no_users : User.Db
no_users = record { users = []; outbox = [] }

abbrev pub request : CreateUserRequest
request = record { username = "ann"; password = "secret"; email = "ann@example.org" }

create_user-RegisterOutcome_example :
    RegisterOutcome users ambient request no_users (create_user users ambient request no_users)
create_user-RegisterOutcome_example =
    create_user-RegisterOutcome users users-IsService ambient request no_users

abbrev pub registered_db : User.Db
registered_db = record {
  users = stored request 1 "secret" ∷ [];
  outbox = record (registered_event ambient (stored request 1 "secret")) { id = 1 } ∷ [];
}

abbrev pub reply : UserResponse
reply = record { id = 1; username = "ann"; email = "ann@example.org" }

pub registers : create_user users ambient request no_users ≡ (ok reply, registered_db)
unfolding create_user find_by_username find_by_email create_hashed create_begun create user_created
    committed Outbox.insert users table select_first insert find is_record_not_found
    registered_event
registers = refl
