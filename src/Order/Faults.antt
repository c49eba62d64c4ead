-- ===== src/Order/Faults.antt =====
-- service/order/api/internal/logic/order/lab_faults.go and common/xlab/bugtoggle.go: the load that
-- the exercises put on the creation of orders. A name is the list of its bytes; the environment
-- and strconv.Atoi are parameters.
pub mod Score
pub mod Creating
use Prim.Native.String.{◌++◌ as concat}
use micro_go_lab.Base.{
  ℕ, zero, suc, ◌+◌, ◌%◌, Option, none, some, Bool, String, List, [], ◌∷◌, ℤ, pos, negsuc, str_eq,
  ◌==◌, length, if◌then◌else◌,
}
use micro_go_lab.Order.Create.{CreateOrderRequest}

abbrev pub Env : Type 0
Env = String → String

-- BugEnabled
unfoldable pub bug_enabled : Env → String → Bool
bug_enabled env name = str_eq (env name) "1"

module _ (env : Env) (atoi : String → Option ℤ) where
  -- BugEnvInt
  unfoldable pub bug_env_int : String → ℤ → ℤ
  bug_env_int name default = if str_eq (env name) "" then default else elim (atoi (env name)) [
    | some (pos n) ↦ pos n
    | some (negsuc n) ↦ default
    | none ↦ default
  ]

  -- A positive number in a variable, or the default: BUG_CPU_ITERS and BUG_MEMLEAK_BYTES.
  unfoldable pub positive_or : String → ℕ → ℕ
  positive_or name default = if str_eq (env name) "" then default else elim (atoi (env name)) [
    | some (pos (suc n)) ↦ suc n
    | some (pos zero) ↦ default
    | some (negsuc n) ↦ default
    | none ↦ default
  ]

-- An int has 64 bits; the bits are read as a number that is not negative.
abbrev pub int_bits : ℕ
int_bits = 18_446_744_073_709_551_616

-- name[i], of an index in range
abbrev pub byte_at : List ℕ → ℕ → ℕ
byte_at [] i = 0
byte_at (b ∷ bs) zero = b
byte_at (b ∷ bs) (suc i) = byte_at bs i

module _ (name : List ℕ) where
  -- The loop `for j := i + 1; j < n; j++`, `left` rounds before its end, on the score.
  unfoldable pub scan_from : ℕ → ℕ → ℕ → ℕ → ℕ
  scan_from i zero j score = score
  scan_from i (suc left) j score =
      scan_from i left (j + 1)
        (if byte_at name i == byte_at name j then (score + 1) % int_bits else score)

  -- The loop `for i := range n`.
  unfoldable pub scan_all : ℕ → ℕ → ℕ → ℕ
  unfolding scan_from
  scan_all zero i score = score
  scan_all (suc left) i score = scan_all left (i + 1) (scan_from i left (i + 1) score)

  -- The loop over the iterations.
  unfoldable pub repeat_scan : ℕ → ℕ → ℕ
  unfolding scan_all
  repeat_scan zero score = score
  repeat_scan (suc rounds) score = repeat_scan rounds (scan_all (length name) 0 score)

-- computeRiskScore: what it leaves in cpuBugSink.
unfoldable pub compute_risk_score : Env → (String → Option ℤ) → List ℕ → ℕ
unfolding positive_or repeat_scan
compute_risk_score env atoi name = repeat_scan name (positive_or env atoi "BUG_CPU_ITERS" 50_000) 0

-- riskProfile
pub record RiskProfile : Type 0 where
  pub user_id : ℕ
  pub reason : String
  pub score : ℕ
  pub created_at : ℕ
  pub snapshot : List ℕ

-- The bytes of a snapshot from index `i` on.
unfoldable pub fill : ℕ → ℕ → List ℕ
fill zero i = []
fill (suc left) i = i % 256 ∷ fill left (i + 1)

-- riskProfileCache, and riskProfileCache[key] = p
abbrev pub RiskCache : Type 0
RiskCache = List (String × RiskProfile)

unfoldable pub put_profile : String → RiskProfile → RiskCache → RiskCache
put_profile key p [] = (key, p) ∷ []
put_profile key p ((k, q) ∷ c) =
    let rest = put_profile key p c in if str_eq k key then (key, p) ∷ c else (k, q) ∷ rest

-- cacheRiskProfile
unfoldable pub cache_risk_profile :
    Env → (String → Option ℤ) → ℕ → ℕ → CreateOrderRequest → String → RiskCache → RiskCache
unfolding positive_or fill put_profile
cache_risk_profile env atoi now user_id req key c =
    let key = if str_eq key "" then concat req.sku (concat "|" req.product_name) else key in
    put_profile key
      (record {
        user_id = user_id;
        reason = "auto-cached";
        score = 0;
        created_at = now;
        snapshot = fill (positive_or env atoi "BUG_MEMLEAK_BYTES" 32_768) 0;
      })
      c
