-- ===== src/Log.antt =====
-- common/xdb/gormlogger.go: what is logged of a statement, and how its texts are hidden. A text is the
-- list of its characters' numbers; logx is where the lines go.
pub mod Redaction
use micro_go_lab.Base.{
  ℕ, zero, suc, Bool, true, false, Option, none, some, List, [], ◌∷◌, ◌++◌, ltb, leb, ◌==◌, ◌&&◌,
  not, if◌then◌else◌, length,
}
use micro_go_lab.Errors.{Error, is_record_not_found, is_deadlock}

abbrev pub Text : Type 0
Text = List ℕ

-- `'`
abbrev pub quote : ℕ
quote = 39

-- `'?'`
abbrev pub hidden : Text
hidden = quote ∷ 63 ∷ quote ∷ []

-- The part `(?:[^']|'')*'` of sqlStringLiteralRe, from behind the opening quote: what follows the
-- match. A doubled quote is read as part of the literal if the literal ends later at all.
unfoldable pub closed : Text → Option Text
closed [] = none
closed (c ∷ []) = if c == quote then some [] else none
closed (c ∷ d ∷ s) =
    let later = closed s in
    let next = closed (d ∷ s) in
    if c == quote
    then (if d == quote
        then elim later [ some rest ↦ some rest | none ↦ some (d ∷ s) ]
        else some (d ∷ s))
    else next

-- ReplaceAllString(sql, "'?'"), on fuel: every round takes a character or more.
unfoldable pub redact_from : ℕ → Text → Text
unfolding closed
redact_from zero s = s
redact_from (suc fuel) [] = []
redact_from (suc fuel) (c ∷ s) =
    let rest = redact_from fuel s in
    if c == quote
    then elim (closed s) [ some after ↦ hidden ++ redact_from fuel after | none ↦ c ∷ rest ]
    else c ∷ rest

-- redactSQL
unfoldable pub redact_sql : Text → Text
unfolding redact_from
redact_sql sql = redact_from (length sql) sql

-- gormlogger.Silent, Error, Warn and Info
abbrev pub silent : ℕ
silent = 1

abbrev pub error : ℕ
error = 2

abbrev pub warn : ℕ
warn = 3

abbrev pub info : ℕ
info = 4

-- gormLogxLogger
pub record GormLogger : Type 0 where
  pub level : ℕ
  pub slow_threshold : ℕ

-- NewGormLogger
unfoldable pub new_gorm_logger : ℕ → GormLogger
new_gorm_logger threshold = record { level = warn; slow_threshold = threshold }

-- LogMode
unfoldable pub log_mode : ℕ → GormLogger → GormLogger
log_mode level g = record g { level = level }

-- Whether Info, Warn and Error write their line.
unfoldable pub writes_info : GormLogger → Bool
writes_info g = leb info g.level

unfoldable pub writes_warn : GormLogger → Bool
writes_warn g = leb warn g.level

unfoldable pub writes_error : GormLogger → Bool
writes_error g = leb error g.level

-- The fields of a line of Trace. `deadlock` is the mark of a lock error.
pub data Line : Type 0 where
  failed_sql : (elapsed rows : ℕ) (sql : Text) (e : Error) (deadlock : Bool) → Line
  slow_sql : (elapsed rows threshold : ℕ) (sql : Text) → Line

module _ (g : GormLogger) where
  -- The second case of the switch.
  unfoldable pub trace_slow : ℕ → Text × ℕ → Option Line
  unfolding redact_sql
  trace_slow elapsed (sql, rows) =
      if ltb 0 g.slow_threshold && ltb g.slow_threshold elapsed && leb warn g.level
      then some (slow_sql elapsed rows g.slow_threshold (redact_sql sql))
      else none

  -- Trace: `elapsed` is time.Since(begin), and the pair what `fc` returns.
  unfoldable pub trace : ℕ → Text × ℕ → Option Error → Option Line
  unfolding redact_sql trace_slow
  trace elapsed statement none = if leb g.level silent then none else trace_slow elapsed statement
  trace elapsed (sql, rows) (some e) =
      if leb g.level silent
      then none
      else if leb error g.level && not (is_record_not_found e)
      then some (failed_sql elapsed rows (redact_sql sql) e (is_deadlock e))
      else trace_slow elapsed (sql, rows)
