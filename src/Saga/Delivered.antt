-- ===== src/Saga/Delivered.antt =====
-- A message that the inventory service handles without an error for the first time: one attempt has
-- run the block of its event, from the tables as they were, and marked the event.
use micro_go_lab.Base.{
  ℕ, ◌≡◌, sym, refl, ◌∙◌, Bool, false, Option, none, String, List, find, str_eq,
}
use micro_go_lab.Errors.{Error, ok, err}
use micro_go_lab.Sql.{Tx}
use micro_go_lab.Idempotent.{process, process_tx}
use micro_go_lab.Idempotent.Once.{with_id}
use micro_go_lab.Idempotent.First.{Processes, process-Processes}
use micro_go_lab.Event.Codec.{Envelope, unmarshal_envelope}
use micro_go_lab.Outbox.{Ambient}
use micro_go_lab.Retry.{Label, default_retry_options}
use micro_go_lab.Retry.Returned.{with_retry-returned}
use micro_go_lab.Stream.{Message, header}
use micro_go_lab.Inventory.{Db, Service, IsService, processed_schema}
use micro_go_lab.Inventory.Consumer.{dispatch, process_order_event, handle_order_event}
use micro_go_lab.Inventory.Redelivery.{processed, Read, settle-ok, handle_order_event-Read}

module _ (sc : ℕ → Service) (law : (n : ℕ) → IsService (sc n)) (a : ℕ → Ambient)
    (done : ℕ → Option Error) where
  -- What the block of attempt `n` does with an event.
  abbrev pub block : Envelope → ℕ → Tx Db (Unit {0})
  block e n = dispatch (sc n) (a n) e.event e.body

  -- Attempt `n` has processed the event.
  abbrev pub ProcessedAt : String → Envelope → Db → Db → ℕ → Type 0
  ProcessedAt id e s s' n =
      Processes processed_schema processed (sc n).db (sc n).processed (law n).db (law n).processed
        id (block e n) s s'

  process_order_event-rolls_back :
      (id : String) (e : Envelope) (n : ℕ) (s s' : Db) (x : Error)
      → process_order_event (sc n) (a n) id e s ≡ (err x, s')
      → s' ≡ s
  unfolding process_order_event process
  process_order_event-rolls_back id e n s s' x h =
      rw h at
        ((law n).db.transaction_law Bool (process_tx (sc n).db (sc n).processed id (block e n)) s)

  process_order_event-ProcessedAt :
      (id : String) (e : Envelope) (n : ℕ) (s s' : Db) (b : Bool)
      → find (with_id id) s.processed ≡ none
      → process_order_event (sc n) (a n) id e s ≡ (ok b, s')
      → ProcessedAt id e s s' n
  unfolding process_order_event
  process_order_event-ProcessedAt id e n s s' b fresh h =
      process-Processes processed_schema processed (sc n).db (sc n).processed (law n).db
        (law n).processed id (block e n) s s' b fresh h

  pub handle_order_event-ProcessedAt :
      (msg : Message) (e : Envelope) (s s' : Db) (ls : List Label)
      → str_eq (header "event_id" msg.headers) "" ≡ false
      → unmarshal_envelope msg.value ≡ ok e
      → find (with_id (header "event_id" msg.headers)) s.processed ≡ none
      → handle_order_event sc a done msg s ≡ (ok tt, s', ls)
      → (n : ℕ) × ProcessedAt (header "event_id" msg.headers) e s s' n
  unfolding default_retry_options
  handle_order_event-ProcessedAt msg e s s' ls named reads fresh h =
      let id = header "event_id" msg.headers in
      let read : Read sc a done id s (ok e) ≡ (ok tt, s', ls) =
        rw reads at (sym (handle_order_event-Read sc a done msg s named) ∙ h) in
      let (b, returned) = settle-ok _ s' ls read in
      let (n, start, same, attempt) =
        with_retry-returned (λ t. t ≡ s) default_retry_options
          (λ n. process_order_event (sc n) (a n) id e) done false
          (λ n t t' x failed p. process_order_event-rolls_back id e n t t' x failed ∙ p) 2 b s s' ls
          refl refl returned in
      (n, process_order_event-ProcessedAt id e n s s' b fresh (rw same at attempt))
