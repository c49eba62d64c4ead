-- ===== src/Log/Redaction.antt =====
-- redactSQL hides every string literal of a statement and nothing else.
use micro_go_lab.Base.{
  ℕ, zero, suc, ◌≤◌, ◌≡◌, ◌≢◌, refl, ap, ◌∙◌, false, some, List, [], ◌∷◌, ◌++◌, ◌==◌, All, length,
  length-append, arith,
}
use micro_go_lab.Log.{Text, quote, hidden, closed, redact_from, redact_sql}

-- The inside of a literal: characters other than the quote, and doubled quotes.
pub data Inside : Type 0 where
  character : (c : ℕ) → (c == quote) ≡ false → Inside
  doubled : Inside

abbrev pub inside : List Inside → Text
inside [] = []
inside (character c _ ∷ is) = c ∷ inside is
inside (doubled ∷ is) = quote ∷ quote ∷ inside is

abbrev pub IsQuoteless : Text → Type 0
IsQuoteless = All (λ c. (c == quote) ≡ false)

-- A literal, and the text between it and the next one.
pub record Part : Type 0 where
  pub literal : List Inside
  pub gap : Text

-- Parts, one after another: as they are, and with the literals hidden.
abbrev pub written : List Part → Text
written [] = []
written (p ∷ ps) = quote ∷ (inside p.literal ++ quote ∷ (p.gap ++ written ps))

abbrev pub redacted : List Part → Text
redacted [] = []
redacted (p ∷ ps) = hidden ++ (p.gap ++ redacted ps)

-- The gaps have no quote, and only the last one may be empty.
abbrev pub IsApart : List Part → Type 0
IsApart [] = Unit
IsApart (p ∷ []) = IsQuoteless p.gap
IsApart (p ∷ q ∷ ps) = IsQuoteless p.gap × (p.gap ≢ []) × IsApart (q ∷ ps)

abbrev IsClear : Text → Type 0
IsClear [] = Unit
IsClear (c ∷ s) = (c == quote) ≡ false

closed-other : (c : ℕ) (s : Text) → (c == quote) ≡ false → closed (c ∷ s) ≡ closed s
unfolding closed
closed-other c [] h = rw h refl
closed-other c (d ∷ s) h = rw h refl

closed-end : (rest : Text) → IsClear rest → closed (quote ∷ rest) ≡ some rest
unfolding closed
closed-end [] h = refl
closed-end (d ∷ s) h = rw h refl

closed-doubled : (s rest : Text) → closed s ≡ some rest → closed (quote ∷ quote ∷ s) ≡ some rest
unfolding closed
closed-doubled s rest h = rw h refl

-- The match ends at the end of the literal.
closed-inside :
    (is : List Inside) (rest : Text) → IsClear rest → closed (inside is ++ quote ∷ rest) ≡ some rest
closed-inside [] rest h = closed-end rest h
closed-inside (character c other ∷ is) rest h = closed-other c _ other ∙ closed-inside is rest h
closed-inside (doubled ∷ is) rest h =
    closed-doubled (inside is ++ quote ∷ rest) rest (closed-inside is rest h)

gap-IsClear : (p : Part) (ps : List Part) → IsApart (p ∷ ps) → IsClear (p.gap ++ written ps)
gap-IsClear p ps h = go p.gap ps h
  where
    go :
        (g : Text) (ps : List Part)
        → IsApart (record { literal = p.literal; gap = g } ∷ ps)
        → IsClear (g ++ written ps)
    go [] [] h = tt
    go [] (q ∷ ps) h = absurd (h.1 refl)
    go (c ∷ g) [] h = h.0
    go (c ∷ g) (q ∷ ps) h = h.0.0

gap-IsQuoteless : (p : Part) (ps : List Part) → IsApart (p ∷ ps) → IsQuoteless p.gap
gap-IsQuoteless p [] h = h
gap-IsQuoteless p (q ∷ ps) h = h.0

later-IsApart : (p : Part) (ps : List Part) → IsApart (p ∷ ps) → IsApart ps
later-IsApart p [] h = tt
later-IsApart p (q ∷ ps) h = h.2

-- Text before the first literal, with fuel for all of it.
redact_from-written :
    (fuel : ℕ) (g : Text) (ps : List Part)
    → length (g ++ written ps) ≤ fuel
    → IsQuoteless g
    → IsApart ps
    → redact_from fuel (g ++ written ps) ≡ g ++ redacted ps
unfolding redact_from
redact_from-written zero [] [] enough h apart = refl
redact_from-written zero [] (p ∷ ps) enough h apart = absurd (omega arith)
redact_from-written zero (c ∷ g) ps enough h apart = absurd (omega arith)
redact_from-written (suc fuel) (c ∷ g) ps enough (other, h) apart =
    rw other (ap (λ s. c ∷ s) (redact_from-written fuel g ps (omega arith) h apart))
redact_from-written (suc fuel) [] [] enough h apart = refl
redact_from-written (suc fuel) [] (p ∷ ps) enough h apart =
    let here = closed-inside p.literal (p.gap ++ written ps) (gap-IsClear p ps apart) in
    let size = length-append (inside p.literal) (quote ∷ (p.gap ++ written ps)) in
    let more : length (p.gap ++ written ps) ≤ fuel = omega arith in
    rw here (
      ap (λ s. hidden ++ s)
        (redact_from-written fuel p.gap ps more (gap-IsQuoteless p ps apart)
          (later-IsApart p ps apart)))

-- A statement that is text without quotes and string literals in turn, where two literals never
-- touch and a quote inside a literal is doubled: redactSQL replaces each literal by '?', whatever is
-- in it, and leaves the rest as it is.
pub redact_sql-written :
    (g : Text) (ps : List Part)
    → IsQuoteless g
    → IsApart ps
    → redact_sql (g ++ written ps) ≡ g ++ redacted ps
unfolding redact_sql
redact_sql-written g ps h apart =
    redact_from-written (length (g ++ written ps)) g ps (omega arith) h apart
