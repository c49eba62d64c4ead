-- ===== src/Event/Json.antt =====
-- encoding/json as the events use it: flat objects of scalars, unmarshalled into `any`, marshalled
-- again and unmarshalled into a struct. A document is given by its tree, not its text. Numbers are
-- those that Go writes for its 64-bit integers. Keys are compared exactly.
use micro_go_lab.Base.{
  ℕ, zero, suc, ◌+◌, ◌*◌, ◌/◌, ◌%◌, ◌^◌, ◌<◌, ◌≤◌, ◌≡◌, Bool, Option, none, some, String, List, [],
  ◌∷◌, ℤ, pos, negsuc, ltb, str_eq, if◌then◌else◌, arith, sub_ℕ, pos_part, neg_part,
}
use micro_go_lab.Errors.{Result, ok, err, json_error}

pub data Scalar : Type 0 where
  null : Scalar
  flag : Bool → Scalar
  num : ℤ → Scalar
  text : String → Scalar

abbrev pub Object : Type 0
Object = List (String × Scalar)

-- 2 ^ 53: a float64 has that many significands to a binade.
abbrev pub significands : ℕ
significands = 2 ^ 53

-- The distance of neighbouring float64 at `n`, by at most `fuel` doublings of `u`.
unfoldable pub ulp : ℕ → ℕ → ℕ → ℕ
ulp zero n u = u
ulp (suc fuel) n u = let rest = ulp fuel n (u * 2) in if ltb n (significands * u) then u else rest

-- To the nearest multiple of `u`, a tie to the even one.
unfoldable pub round_even : ℕ → ℕ → ℕ
round_even n u =
    if ltb (n % u * 2) u
    then n / u * u
    else if ltb u (n % u * 2)
    then (n / u + 1) * u
    else (n / u + n / u % 2) * u

-- A number's value as a float64. A 64-bit integer needs 11 doublings at most.
unfoldable pub to_float64 : ℕ → ℕ
unfolding ulp round_even
to_float64 n = round_even n (ulp 11 n 1)

unfoldable pub float_ℤ : ℤ → ℤ
float_ℤ z = sub_ℕ (to_float64 (pos_part z)) (to_float64 (neg_part z))

-- json.Unmarshal of a scalar into `any`.
unfoldable pub any_scalar : Scalar → Scalar
any_scalar (num z) = num (float_ℤ z)
any_scalar null = null
any_scalar (flag b) = flag b
any_scalar (text s) = text s

-- json.Unmarshal of an object into `any`.
unfoldable pub any_object : Object → Object
any_object [] = []
any_object ((k, v) ∷ o) = (k, any_scalar v) ∷ any_object o

-- The value of a key; of two, the last.
unfoldable pub value : String → Object → Option Scalar
value k [] = none
value k ((j, v) ∷ o) =
    let rest = value k o in
    elim rest [ some w ↦ some w | none ↦ if str_eq j k then some v else none ]

-- json.Unmarshal into a field of type uint: a missing key and null leave the zero value.
unfoldable pub as_uint : Option Scalar → Result ℕ
as_uint none = ok 0
as_uint (some null) = ok 0
as_uint (some (num (pos n))) = if ltb n (2 ^ 64) then ok n else err json_error
as_uint (some (num (negsuc n))) = err json_error
as_uint (some (flag b)) = err json_error
as_uint (some (text s)) = err json_error

-- … of type int or int64
unfoldable pub as_int : Option Scalar → Result ℤ
as_int none = ok (pos 0)
as_int (some null) = ok (pos 0)
as_int (some (num (pos n))) = if ltb n (2 ^ 63) then ok (pos n) else err json_error
as_int (some (num (negsuc n))) = if ltb n (2 ^ 63) then ok (negsuc n) else err json_error
as_int (some (flag b)) = err json_error
as_int (some (text s)) = err json_error

-- … of type string
unfoldable pub as_string : Option Scalar → Result String
as_string none = ok ""
as_string (some null) = ok ""
as_string (some (num z)) = err json_error
as_string (some (flag b)) = err json_error
as_string (some (text s)) = ok s

-- An integer of at most 53 bits is a float64.
pub to_float64_exact : (n : ℕ) → n < significands → to_float64 n ≡ n
unfolding to_float64
to_float64_exact n h = ground arith

-- Beyond, a float64 is even: an odd integer becomes another.
pub to_float64_even : (n : ℕ) → significands ≤ n → n < significands * 2 → to_float64 n % 2 ≡ 0
unfolding to_float64
to_float64_even n h k = ground arith
