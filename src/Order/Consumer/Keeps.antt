-- ===== src/Order/Consumer/Keeps.antt =====
-- Predicates that the block of a consumer keeps, kept by its handler.
use micro_go_lab.Base.{inl, inr, Bool, List, str_eq, Bool-cases}
use micro_go_lab.Errors.{Result, ok, err}
use micro_go_lab.Sql.{Tx}
use micro_go_lab.Sql.Keeps.{Keeps}
use micro_go_lab.Event.Codec.{Envelope, unmarshal_envelope}
use micro_go_lab.Outbox.{Ambient}
use micro_go_lab.Idempotent.{ProcessedEvent, process}
use micro_go_lab.Idempotent.Keeps.{process-keeps}
use micro_go_lab.Stream.{Message, header}
use micro_go_lab.Order.{Db, Service, IsService, processed_schema}
use micro_go_lab.Order.Consumer.{settle, consume}

module _ (sc : Service) (law : IsService sc) (a : Ambient) (P : Db → Type 0)
    (by_processed : (s : Db) (es : List ProcessedEvent) → P s → P (record s { processed = es }))
    (block : Envelope → Tx Db (Unit {0})) (msg : Message) (s : Db) where
  pub consume-keeps : P s → ((e : Envelope) → Keeps P (block e s)) → P (consume sc a block msg s).1
  consume-keeps p keeps = elim (Bool-cases (str_eq (header "event_id" msg.headers) "")) [
    | inl missing ↦ rw missing p
    | inr id ↦ rw id (go (unmarshal_envelope msg.value))
  ]
    where
      run : Envelope → Result Bool × Db
      run e = process sc.db sc.processed (header "event_id" msg.headers) (block e) s

      after : (r : Result Bool × Db) → P r.1 → P (settle sc a r).1
      after (ok b, t) k = k
      after (err x, t) k = k

      go :
          (r : Result Envelope)
          → P
              (elim r as (λ _. Result (Unit {0}) × Db) [
                | err e ↦ (err e, s)
                | ok e ↦ settle sc a (run e)
              ]).1
      go (err x) = p
      go (ok e) = after (run e) (
          process-keeps processed_schema sc.db sc.processed law.db law.processed P by_processed
            (header "event_id" msg.headers) (block e) s p (keeps e))
