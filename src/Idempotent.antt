-- ===== src/Idempotent.antt =====
-- common/xevent/idempotent.go: a consumer's table of processed events.
pub mod Once
pub mod Keeps
pub mod First
use micro_go_lab.Base.{ℕ, Bool, true, false, String, str_eq, if◌then◌else◌}
use micro_go_lab.Errors.{Result, ok, err, is_record_not_found}
use micro_go_lab.Sql.{Tx, Table, Database, ◌>>=◌, ◌>>◌, return, fail, attempt}

pub record ProcessedEvent : Type 0 where
  pub event_id : String
  pub processed_at : ℕ

module _ {S : Type 0} (d : Database S) (t : Table S ProcessedEvent) where
  -- What follows the look-up of the event.
  unfoldable pub process_found : String → Tx S (Unit {0}) → Result ProcessedEvent → Tx S Bool
  process_found id fn (ok existing) = return false
  process_found id fn (err e) =
      if is_record_not_found e
      then (do fn; t.create (record { event_id = id; processed_at = 0 }); return true)
      else fail e

  unfoldable pub process_tx : String → Tx S (Unit {0}) → Tx S Bool
  unfolding process_found
  process_tx id fn = do
    existing ← attempt (t.first (λ r. str_eq r.event_id id))
    process_found id fn existing

  -- Process. A caller reads the Boolean only beside a nil error.
  unfoldable pub process : String → Tx S (Unit {0}) → S → Result Bool × S
  unfolding process_tx
  process id fn = d.transaction (process_tx id fn)
