-- ===== src/Config/Texts.antt =====
-- What common/config/types.go uses of Go's package strings.
use Prim.Native.Char.{Char, code}
use Prim.Native.String.{◌++◌ as concat}
use micro_go_lab.Base.{ℕ, Bool, String, List, [], ◌∷◌, leb, ◌==◌, ◌||◌, ◌&&◌, if◌then◌else◌, str_eq}

-- `','`
abbrev pub comma : ℕ
comma = 44

-- Put a character before the first part.
unfoldable pub put : Char → List String → List String
put c [] = String.◌∷◌ c String.[] ∷ []
put c (p ∷ ps) = String.◌∷◌ c p ∷ ps

-- strings.Split(s, ",")
unfoldable pub split : String → List String
unfolding put
split String.[] = "" ∷ []
split (String.◌∷◌ c s) = let rest = split s in if code c == comma then "" ∷ rest else put c rest

-- unicode.IsSpace
unfoldable pub is_space : Char → Bool
is_space c =
    let n = code c in
    (leb 9 n && leb n 13)
    || n == 32
    || n == 133
    || n == 160
    || n == 5760
    || (leb 8192 n && leb n 8202)
    || n == 8232
    || n == 8233
    || n == 8239
    || n == 8287
    || n == 12288

unfoldable pub trim_left : String → String
unfolding is_space
trim_left String.[] = ""
trim_left (String.◌∷◌ c s) = let rest = trim_left s in if is_space c then rest else String.◌∷◌ c s

unfoldable pub trim_right : String → String
unfolding is_space
trim_right String.[] = ""
trim_right (String.◌∷◌ c s) =
    let rest = trim_right s in if is_space c && str_eq rest "" then "" else String.◌∷◌ c rest

-- strings.TrimSpace
unfoldable pub trim_space : String → String
unfolding trim_left trim_right
trim_space s = trim_right (trim_left s)

-- strings.Join
unfoldable pub join : String → List String → String
join sep [] = ""
join sep (p ∷ []) = p
join sep (p ∷ q ∷ ps) = concat p (concat sep (join sep (q ∷ ps)))
