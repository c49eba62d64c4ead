-- ===== src/Client.antt =====
-- common/client/retry.go: a call to another service is tried three times while it fails for a
-- moment.
pub mod Calls
use Prim.Native.Char.{code}
use Prim.Native.String
use micro_go_lab.Base.{
  String, ℕ, zero, suc, ◌+◌, ◌*◌, ◌^◌, Bool, true, false, Option, none, some, List, [], ◌∷◌, ◌==◌,
  ◌||◌, if◌then◌else◌,
}
use micro_go_lab.Errors.{Error, status, wrap}

abbrev pub max_retry_attempts : ℕ
max_retry_attempts = 3

-- baseBackoff << i, in milliseconds
abbrev pub backoff : ℕ → ℕ
backoff i = 100 * 2 ^ i

-- isRetryable: Unavailable, DeadlineExceeded, ResourceExhausted. status.FromError unwraps.
unfoldable pub is_retryable : Error → Bool
is_retryable (status c) = c == 14 || c == 4 || c == 8
is_retryable (wrap e) = is_retryable e
is_retryable _ = false

-- The loop from attempt `i` on, `left` attempts before its bound. `invoke i` is what the call returns
-- at attempt `i`, `done i` the context's error if that ends the wait after it. With the error that is
-- returned come the waits that were begun.
unfoldable pub attempt_from :
    (invoke : ℕ → Option Error) (done : ℕ → Option Error)
    → ℕ
    → ℕ
    → Option Error
    → Option Error × List ℕ
attempt_from invoke done zero i last = (last, [])
attempt_from invoke done (suc left) i last =
    let rest = attempt_from invoke done left (i + 1) (invoke i) in
    elim (invoke i) [
      | none ↦ (none, [])
      | some e ↦
          if is_retryable e
          then (if i + 1 == max_retry_attempts then (some e, []) else elim (done i) [
            | some x ↦ (some x, backoff i ∷ [])
            | none ↦ (rest.0, backoff i ∷ rest.1)
          ])
          else (some e, [])
    ]

-- RetryUnaryInterceptor
unfoldable pub retry_unary_interceptor :
    (ℕ → Option Error) → (ℕ → Option Error) → Option Error × List ℕ
unfolding attempt_from
retry_unary_interceptor invoke done = attempt_from invoke done max_retry_attempts 0 none

-- What follows the last "/" of a text, if it has one.
abbrev pub after_last : String → Option String
after_last String.[] = none
after_last (String.◌∷◌ c s) = elim (after_last s) [
  | some t ↦ some t
  | none ↦ elim (code c == 47) [ true ↦ some s | false ↦ none ]
]

-- shortMethod
unfoldable pub short_method : String → String
short_method method = elim (after_last method) [ some name ↦ name | none ↦ method ]
