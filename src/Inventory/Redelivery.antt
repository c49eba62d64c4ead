-- ===== src/Inventory/Redelivery.antt =====
-- A message that the consumer of order events is given again, or with it another of the same
-- event, changes nothing.
use micro_go_lab.Base.{
  ℕ, ◌≡◌, ◌≢◌, refl, sym, ap, ◌∙◌, inl, inr, Bool, false, Option, none, some, String, List, [],
  ◌++◌, find, find-append_some, str_eq, Option-cases,
}
use micro_go_lab.Errors.{Error, Result, ok, err}
use micro_go_lab.Sql.{Ran}
use micro_go_lab.Idempotent.{ProcessedEvent, process, process_tx}
use micro_go_lab.Idempotent.Once.{IsProcessedTable, with_id, process_tx-marks, process_tx-skips}
use micro_go_lab.Event.Codec.{Envelope, unmarshal_envelope}
use micro_go_lab.Outbox.{Ambient}
use micro_go_lab.Retry.{Label, default_retry_options, with_retry}
use micro_go_lab.Retry.Returned.{with_retry-returned}
use micro_go_lab.Retry.Keeps.{with_retry-keeps}
use micro_go_lab.Stream.{Message, header}
use micro_go_lab.Inventory.{Db, Service, IsService, processed_schema}
use micro_go_lab.Inventory.Consumer.{dispatch, process_order_event, settle, handle_order_event}

-- The event stands among the processed ones.
abbrev pub IsMarked : String → Db → Type 0
IsMarked id s = find (with_id id) s.processed ≢ none

pub processed : IsProcessedTable processed_schema
processed = record { rows-put = λ rs s. refl; assign_id = λ i e. refl }

find-append-IsMarked :
    (id : String) (rs more : List ProcessedEvent)
    → find (with_id id) rs ≢ none
    → find (with_id id) (rs ++ more) ≢ none
find-append-IsMarked id rs more marked e = elim (Option-cases (find (with_id id) rs)) [
  | inl absent ↦ marked absent
  | inr (r, there) ↦
      let still : find (with_id id) (rs ++ more) ≡ some r =
        find-append_some (with_id id) rs more r there in
      absurd (cc)
]

module _ (sc : ℕ → Service) (law : (n : ℕ) → IsService (sc n)) (a : ℕ → Ambient) (id : String)
    (e : Envelope) where
  -- An attempt that returns has marked the event, or found it marked.
  process_order_event-IsMarked :
      (n : ℕ) (s s' : Db) (b : Bool)
      → process_order_event (sc n) (a n) id e s ≡ (ok b, s')
      → IsMarked id s'
  unfolding process_order_event process
  process_order_event-IsMarked n s s' b h =
      let block = dispatch (sc n) (a n) e.event e.body in
      process_tx-marks processed_schema processed (sc n).db (sc n).processed (law n).db
        (law n).processed id block s s' b
        (rw h at
          ((law n).db.transaction_law Bool (process_tx (sc n).db (sc n).processed id block) s))

  -- An attempt at a marked event leaves the tables as they are.
  process_order_event-marked :
      (n : ℕ) (s : Db) → IsMarked id s → (process_order_event (sc n) (a n) id e s).1 ≡ s
  unfolding process_order_event process
  process_order_event-marked n s marked = go (block s) ((law n).db.transaction_law Bool tx s)
    where
      tx : Db → Result (Bool × Db)
      tx = process_tx (sc n).db (sc n).processed id (dispatch (sc n) (a n) e.event e.body)

      block : Db → Result Bool × Db
      block = (sc n).db.transaction tx

      go : (r : Result Bool × Db) → Ran tx s r → r.1 ≡ s
      go (ok b, s') ran =
          (process_tx-skips processed_schema processed (sc n).db (sc n).processed (law n).db
            (law n).processed id (dispatch (sc n) (a n) e.event e.body) s s' b marked ran).1
      go (err x, s') ran = ran

-- What follows the test of the header.
abbrev pub Read :
    (ℕ → Service)
    → (ℕ → Ambient)
    → (ℕ → Option Error)
    → String
    → Db
    → Result Envelope
    → Result (Unit {0}) × Db × List Label
Read sc a done id s (err x) = (err x, s, [])
Read sc a done id s (ok e) =
    settle
      (with_retry default_retry_options (λ n. process_order_event (sc n) (a n) id e) done false s)

pub settle-ok :
    (r : Result Bool × Db × List Label) (s : Db) (ls : List Label)
    → settle r ≡ (ok tt, s, ls)
    → (b : Bool) × (r ≡ (ok b, s, ls))
settle-ok (ok b, s', ls') s ls h = (b, cc)
settle-ok (err x, s', ls') s ls h = absurd (cc)

pub handle_order_event-Read :
    (sc : ℕ → Service) (a : ℕ → Ambient) (done : ℕ → Option Error) (msg : Message) (s : Db)
    → str_eq (header "event_id" msg.headers) "" ≡ false
    → handle_order_event sc a done msg s
      ≡ Read sc a done (header "event_id" msg.headers) s (unmarshal_envelope msg.value)
unfolding handle_order_event
handle_order_event-Read sc a done msg s named = rw named (go (unmarshal_envelope msg.value))
  where
    go :
        (r : Result Envelope)
        → (elim r as (λ _. Result (Unit {0}) × Db × List Label) [
          | err x ↦ (err x, s, [])
          | ok e ↦ settle (
              with_retry default_retry_options
                (λ n. process_order_event (sc n) (a n) (header "event_id" msg.headers) e)
                done
                false
                s)
        ])
          ≡ Read sc a done (header "event_id" msg.headers) s r
    go (err x) = refl
    go (ok e) = refl

module _ (sc : ℕ → Service) (law : (n : ℕ) → IsService (sc n)) (a : ℕ → Ambient)
    (done : ℕ → Option Error) (id : String) where
  Read-IsMarked :
      (r : Result Envelope) (s s' : Db) (ls : List Label)
      → Read sc a done id s r ≡ (ok tt, s', ls)
      → IsMarked id s'
  unfolding default_retry_options
  Read-IsMarked (err x) s s' ls h = absurd (cc)
  Read-IsMarked (ok e) s s' ls h =
      let (b, returned) = settle-ok _ s' ls h in
      let (n, start, _, attempt) =
        with_retry-returned (λ _. Unit) default_retry_options
          (λ n. process_order_event (sc n) (a n) id e) done false (λ n s s' x failed p. tt) 2 b s s'
          ls refl tt returned in
      process_order_event-IsMarked sc law a id e n start s' b attempt

  Read-marked : (r : Result Envelope) (s : Db) → IsMarked id s → (Read sc a done id s r).1 ≡ s
  Read-marked (err x) s marked = refl
  Read-marked (ok e) s marked = settled _ (
      with_retry-keeps (λ t. t ≡ s) default_retry_options
        (λ n. process_order_event (sc n) (a n) id e) done false
        (λ n t same. process_order_event-marked sc law a id e n t (rw same marked) ∙ same) s refl)
    where
      settled : (x : Result Bool × Db × List Label) → x.1 ≡ s → (settle x).1 ≡ s
      settled (ok b, s', ls) same = same
      settled (err x, s', ls) same = same

-- An order event whose id is not empty was handled without an error, after however many attempts.
-- Then whatever other messages have added their rows to the table of processed events, a message
-- with the same event id that is delivered later, whatever its value and whatever statements fail,
-- leaves every table as it is.
pub handle_order_event-redelivered :
    (sc later : ℕ → Service) (law : (n : ℕ) → IsService (sc n))
    (law' : (n : ℕ) → IsService (later n)) (a b : ℕ → Ambient) (done over : ℕ → Option Error)
    (msg again : Message) (s s' s'' : Db) (ls : List Label) (more : List ProcessedEvent)
    → str_eq (header "event_id" msg.headers) "" ≡ false
    → header "event_id" again.headers ≡ header "event_id" msg.headers
    → handle_order_event sc a done msg s ≡ (ok tt, s', ls)
    → s''.processed ≡ s'.processed ++ more
    → (handle_order_event later b over again s'').1 ≡ s''
handle_order_event-redelivered sc later law law' a b done over msg again s s' s'' ls more named same
      h added =
    let id = header "event_id" msg.headers in
    let marked : IsMarked id s' =
      Read-IsMarked sc law a done id (unmarshal_envelope msg.value) s s' ls
        (sym (handle_order_event-Read sc a done msg s named) ∙ h) in
    let still : find (with_id id) s''.processed ≢ none =
      rw added (find-append-IsMarked id s'.processed more marked) in
    ap (λ x. x.1) (handle_order_event-Read later b over again s'' (rw same named))
    ∙ Read-marked later law' b over (header "event_id" again.headers)
        (unmarshal_envelope again.value) s'' (rw same still)
