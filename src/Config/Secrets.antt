-- ===== src/Config/Secrets.antt =====
-- Which secrets stop a process from starting.
use micro_go_lab.Base.{
  ◌≡◌, refl, sym, ap, ◌∙◌, Bool, true, false, Option, none, some, String, List, [], ◌∷◌, ◌++◌,
  str_eq, ◌||◌, ◌&&◌, arith, if◌then◌else◌,
}
use micro_go_lab.Errors.{Error}
use micro_go_lab.Config.{
  default_secrets, warning, warn_secret, warn_secrets, settle_warnings, validate_secrets,
}

-- The reference: a secret that is the one of the documentation or empty.
abbrev pub is_insecure : String → Bool
is_insecure s = str_eq s "change-me-in-production" || str_eq s ""

abbrev pub any_insecure : List String → Bool
any_insecure [] = false
any_insecure (s ∷ ss) = is_insecure s || any_insecure ss

-- The modes that refuse.
abbrev pub is_strict : String → Bool
is_strict mode = str_eq mode "pro" || str_eq mode "pre"

abbrev pub is_error : Option Error → Bool
is_error none = false
is_error (some e) = true

abbrev is_any : List String → Bool
is_any [] = false
is_any (w ∷ ws) = true

is_any-append : (ws : List String) (w : String) → is_any (ws ++ w ∷ []) ≡ true
is_any-append [] w = refl
is_any-append (v ∷ ws) w = refl

or_true : (c a : Bool) → (c || (a || true)) ≡ true
or_true true a = refl
or_true false true = refl
or_true false false = refl

or_first : (c : Bool) → (c || (true || false)) ≡ true
or_first true = refl
or_first false = refl

or_false : (c : Bool) → (c || (false || false)) ≡ c
or_false true = refl
or_false false = refl

or_assoc : (a b c : Bool) → ((a || b) || c) ≡ (a || (b || c))
or_assoc true b c = refl
or_assoc false b c = refl

is_any-warn_secret :
    (s : String) (ws : List String)
    → is_any (warn_secret s default_secrets ws) ≡ (is_any ws || is_insecure s)
unfolding warn_secret
is_any-warn_secret s ws = go (str_eq s "change-me-in-production") (str_eq s "") (is_any ws) refl
  where
    go :
        (a b c : Bool)
        → is_any ws ≡ c
        → is_any (
            let first = if a then ws ++ warning ∷ [] else ws in
            if b then first ++ warning ∷ [] else first)
          ≡ (c || (a || b))
    go a true c e = is_any-append _ warning ∙ sym (or_true c a)
    go true false c e = is_any-append ws warning ∙ sym (or_first c)
    go false false c e = e ∙ sym (or_false c)

is_any-warn_secrets :
    (ss ws : List String) → is_any (warn_secrets ss ws) ≡ (is_any ws || any_insecure ss)
unfolding warn_secrets
is_any-warn_secrets [] [] = refl
is_any-warn_secrets [] (w ∷ ws) = refl
is_any-warn_secrets (s ∷ ss) ws =
    is_any-warn_secrets ss (warn_secret s default_secrets ws)
    ∙ ap (λ b. b || any_insecure ss) (is_any-warn_secret s ws)
    ∙ or_assoc (is_any ws) (is_insecure s) (any_insecure ss)

settle_warnings-is_any :
    (mode : String) (ws : List String)
    → is_error (settle_warnings mode ws) ≡ (is_any ws && is_strict mode)
unfolding settle_warnings
settle_warnings-is_any mode [] = refl
settle_warnings-is_any mode (w ∷ ws) = ground arith

-- ValidateSecrets refuses exactly when the mode is pro or pre and some secret is empty or the one
-- that the documentation gives: the count of the warnings over all pairs of a secret and a default
-- comes to that.
pub validate_secrets-is_insecure :
    (mode : String) (secrets : List String)
    → is_error (validate_secrets mode secrets) ≡ (any_insecure secrets && is_strict mode)
unfolding validate_secrets
validate_secrets-is_insecure mode secrets = rw (settle_warnings-is_any, is_any-warn_secrets) refl
