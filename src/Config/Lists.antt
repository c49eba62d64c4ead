-- ===== src/Config/Lists.antt =====
-- What EnvList makes of a list that is written with commas.
use Prim.Native.Char.{code}
use Prim.Native.String.{◌++◌ as concat}
use Prim.Native.String.append
use micro_go_lab.Base.{◌≡◌, refl, ap, ◌∙◌, false, String, List, [], ◌∷◌, map, ◌==◌, str_eq, All}
use micro_go_lab.Config.{Env, env_list}
use micro_go_lab.Config.Texts.{comma, put, split, join, trim_space}

-- The text has no comma.
abbrev pub IsCommaless : String → Type 0
IsCommaless String.[] = Unit
IsCommaless (String.◌∷◌ c s) = ((code c == comma) ≡ false) × IsCommaless s

split-commaless : (p : String) → IsCommaless p → split p ≡ p ∷ []
unfolding split put
split-commaless String.[] h = refl
split-commaless (String.◌∷◌ c p) (other, h) = rw (other, split-commaless p h) refl

one_comma : (rest : String) → concat "," rest ≡ String.◌∷◌ "," rest
one_comma rest = append.cons "," String.[] rest ∙ ap (λ t. String.◌∷◌ "," t) (append.nil rest)

split-concat :
    (p rest : String) → IsCommaless p → split (concat p (concat "," rest)) ≡ p ∷ split rest
unfolding split put
split-concat String.[] rest h = ap split (append.nil (concat "," rest) ∙ one_comma rest)
split-concat (String.◌∷◌ c p) rest (other, h) =
    rw (append.cons c p (concat "," rest)) (rw (other, split-concat p rest h) refl)

-- Splitting what strings.Join makes of parts without commas gives the parts back.
split-join :
    (p : String) (ps : List String) → All IsCommaless (p ∷ ps) → split (join "," (p ∷ ps)) ≡ p ∷ ps
unfolding join
split-join p [] (h, _) = split-commaless p h
split-join p (q ∷ ps) (h, hs) =
    split-concat p (join "," (q ∷ ps)) h ∙ ap (λ rest. p ∷ rest) (split-join q ps hs)

-- A variable that is set to some parts, none of which has a comma, separated by commas, is read as
-- those parts in their order, each without the spaces around it.
pub env_list-join :
    (env : Env) (name p : String) (ps : List String)
    → env name ≡ join "," (p ∷ ps)
    → str_eq (env name) "" ≡ false
    → All IsCommaless (p ∷ ps)
    → env_list env name ≡ map trim_space (p ∷ ps)
unfolding env_list
env_list-join env name p ps value set plain =
    rw set (ap (map trim_space) (ap split value ∙ split-join p ps plain))
