-- ===== src/Tests/Log.antt =====
-- A statement with two string literals, one of them with a quote in it.
use micro_go_lab.Base.{◌≡◌, refl, List, [], ◌∷◌, ◌++◌}
use micro_go_lab.Log.{Text, redact_sql}
use micro_go_lab.Log.Redaction.{Part, character, doubled, written, redacted, redact_sql-written}

-- `n = 'O''B' a=''`
abbrev before : Text
before = 110 ∷ 32 ∷ 61 ∷ 32 ∷ []

abbrev parts : List Part
parts =
    record {
      literal = character 79 refl ∷ doubled ∷ character 66 refl ∷ [];
      gap = 32 ∷ 97 ∷ 61 ∷ [];
    }
    ∷ record { literal = []; gap = [] }
    ∷ []

redact_sql-written_example : redact_sql (before ++ written parts) ≡ before ++ redacted parts
redact_sql-written_example =
    redact_sql-written before parts (refl, (refl, (refl, (refl, tt))))
      ((refl, (refl, (refl, tt))), (λ e. cc), tt)
