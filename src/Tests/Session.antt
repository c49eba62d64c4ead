-- ===== src/Tests/Session.antt =====
-- A user who registers, logs in and asks for the profile.
use micro_go_lab.Base.{
  ℕ, zero, suc, ◌≡◌, ◌⊎◌, arith, refl, sym, ap, true, Option, some, none, String, [], pos,
}
use micro_go_lab.Errors.{Result, ok}
use micro_go_lab.Http.{
  Claim, json_number, get_user_id, ok_json, created_json, not_found, internal_error,
}
use micro_go_lab.User.Rpc.{create_user, authenticate, get_user}
use micro_go_lab.User.Api.{
  Claims, expiry, login_handler, register_handler, register, register_reply, profile_handler,
}
use micro_go_lab.User.Session.{IsTokens, register-login}
use micro_go_lab.Tests.Data.{ambient, users, users-IsService}
use micro_go_lab.Tests.Infrastructure.{no_users, request, registered_db, reply, registers}

-- A token of as many characters as the number of its user.
abbrev tally : ℕ → String
tally zero = String.[]
tally (suc n) = String.◌∷◌ "x" (tally n)

abbrev count : String → ℕ
count String.[] = zero
count (String.◌∷◌ c s) = suc (count s)

count-tally : (n : ℕ) → count (tally n) ≡ n
count-tally zero = refl
count-tally (suc n) = ap suc (count-tally n)

abbrev sign : Claims → Result String
sign c = ok (tally c.user_id)

abbrev verify : ℕ → String → Option Claim
verify now token = some (json_number (ok (pos (count token))))

tally-IsTokens : IsTokens sign verify
tally-IsTokens = record {
  reads_back = λ c token now expires e _ _ _. back c token e;
  is_uncoded = λ c x e. cc;
}
  where
    back :
        (c : Claims) (token : String)
        → sign c ≡ ok token
        → some (json_number (ok (pos (count token)))) ≡ some (json_number (ok (pos c.user_id)))
    back c token e =
        let same : tally c.user_id ≡ token = cc in rw (sym same) (rw (count-tally c.user_id) refl)

register-login_example :
    let answer =
      login_handler true
        (pos 60)
        1_000_000_000_000
        sign
        (authenticate users "ann" "secret" registered_db) in
    (answer ≡ internal_error)
    ⊎ ((token : String) × (answer ≡ ok_json token)
        × (let shown =
              profile_handler
                (get_user users (get_user_id none (verify 1059 token)) registered_db) in
            (shown ≡ ok_json reply) ⊎ (shown ≡ not_found)))
unfolding created_json register_handler register register_reply expiry
register-login_example =
    register-login users users-IsService ambient request no_users registered_db reply created
      (ap (λ x. x.1) registers) (pos 60) 1_000_000_000_000 sign verify tally-IsTokens registered_db
      registered_db [] [] 1059 refl refl (omega arith) (omega arith) (omega arith)
  where
    created :
        register_handler true (create_user users ambient request no_users).0 ≡ created_json reply
    created = rw registers refl
