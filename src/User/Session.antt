-- ===== src/User/Session.antt =====
-- service/user: a client of the api registers, logs in and asks for its profile.
use micro_go_lab.Base.{
  ℕ, ℤ, ◌≡◌, ◌<◌, ◌⊎◌, ◌+◌, ◌*◌, ◌/◌, ◌%◌, ◌+ℤ◌, int64, ltb, ◌^◌, ◌∙◌, ◌==◌, refl, sym, ap, inl,
  inr, arith, Bool, true, false, Bool-cases, pos, Option, none, some, String, List, [], ◌∷◌, ◌++◌,
  find, eq_refl, find-append_some, find-append_none, if◌then◌else◌,
}
use micro_go_lab.Errors.{
  Error, Result, ok, err, status, mysql, coded, record_not_found, breaker_open, canceled,
  cache_miss, json_error, other, wrap, is_coded, is_record_not_found,
}
use micro_go_lab.Http.{
  Claim, json_number, get_user_id, parse_user_id, ok_json, created_json, error_json, not_found,
  internal_error,
}
use micro_go_lab.Sql.{Firsted}
use micro_go_lab.Outbox.{Ambient}
use micro_go_lab.User.{User, Db, Service, IsService, users_schema}
use micro_go_lab.User.Rpc.{
  CreateUserRequest, UserResponse, create_user, authenticate, get_user, find_by_id, rpc_internal,
  rpc_not_found,
}
use micro_go_lab.User.Api.{
  Claims, expiry, lifetime, unix, login, login_reply, login_handler, register, register_reply,
  register_handler, profile, profile_reply, profile_handler,
}
use micro_go_lab.User.Registration.{
  named, numbered, stored, RegisterOutcome, create_user-RegisterOutcome, authenticate-known,
}

-- The token library and the middleware that reads a token: `verify` at a time is the value under
-- user_id of a token that it lets pass. Documented: a signed token is read back before the second at
-- which it expires, a number within int64 as that number; the errors of the library carry no code of this program.
pub record IsTokens (sign : Claims → Result String) (verify : ℕ → String → Option Claim)
    : Type 0 where
  pub reads_back :
      (c : Claims) (token : String) (now expires : ℕ)
      → sign c ≡ ok token
      → c.exp ≡ pos expires
      → now < expires
      → c.user_id < 2 ^ 63
      → verify now token ≡ some (json_number (ok (pos c.user_id)))
  pub is_uncoded : (c : Claims) (e : Error) → sign c ≡ err e → is_coded 200002 e ≡ false

-- A lifetime that fits int64 is added to the second of the login.
unix-lifetime :
    (access_expire : ℤ) (now : ℕ)
    → expiry access_expire * 1_000_000_000 < 2 ^ 63
    → unix (pos now +ℤ lifetime access_expire) ≡ pos (now / 1_000_000_000 + expiry access_expire)
unfolding unix lifetime int64 ◌+ℤ◌
unix-lifetime access_expire now within =
    let e = expiry access_expire in
    let bits : e * 1_000_000_000 % 2 ^ 64 ≡ e * 1_000_000_000 = omega arith in
    let small : ltb (e * 1_000_000_000) (2 ^ 63) ≡ true = ground arith in
    let life : lifetime access_expire ≡ pos (e * 1_000_000_000) =
      rw (lifetime, int64, bits, small) refl in
    let sum : pos now +ℤ pos (e * 1_000_000_000) ≡ pos (now + e * 1_000_000_000) = ground arith in
    rw (life, sum) (ap pos (omega arith))

-- A row under its number: the profile shows it, or the look-up has failed.
get_user-known :
    (sc : Service) (law : IsService sc) (s : Db) (u : User)
    → find (numbered u.id) s.users ≡ some u
    → (get_user sc u.id s ≡ ok (record { id = u.id; username = u.username; email = u.email }))
      ⊎ (get_user sc u.id s ≡ err rpc_internal)
unfolding get_user find_by_id
get_user-known sc law s u present =
    looked (sc.users.first (numbered u.id) s) (law.users.first_law (numbered u.id) s)
  where
    looked :
        (r : Result User)
        → Firsted users_schema (numbered u.id) s r
        → let answer : Result UserResponse = (elim r [
          | err e ↦ if is_record_not_found e then err rpc_not_found else err rpc_internal
          | ok v ↦ ok (record { id = v.id; username = v.username; email = v.email })
        ]) in
          (answer ≡ ok (record { id = u.id; username = u.username; email = u.email }))
          ⊎ (answer ≡ err rpc_internal)
    looked (ok v) f =
        let one : some v ≡ some u = rw f at present in let it : v ≡ u = cc in inl (rw it refl)
    looked (err x) f = elim (Bool-cases (is_record_not_found x)) [
      | inl gone ↦ (let bad : none ≡ some u = rw (f gone) at present in absurd (cc))
      | inr failed ↦ rw failed (inr refl)
    ]

-- A registration that is answered with 201 is one that CreateUser has made.
register_handler-created :
    (r : Result UserResponse) (resp : UserResponse)
    → register_handler true r ≡ created_json resp
    → r ≡ ok resp
unfolding register_handler register register_reply created_json error_json internal_error is_coded
register_handler-created (ok v) resp h =
    let same : some v ≡ some resp = ap (λ x. x.body) h in let it : v ≡ resp = cc in rw it refl
register_handler-created (err e) resp h = absurd (failed e h)
  where
    refused : (b : Bool) → (if b then error_json 409 else internal_error) ≡ created_json resp → ⊥
    refused true h = let bad : ◌≡◌ {A = ℕ} 409 201 = ap (λ x. x.http_status) h in omega arith
    refused false h = let bad : ◌≡◌ {A = ℕ} 500 201 = ap (λ x. x.http_status) h in omega arith

    failed : (e : Error) → register_reply (register (err e)) ≡ created_json resp → ⊥
    failed (status c) h = elim (Bool-cases (c == 6)) [
      | inl taken ↦ refused true (rw taken at h)
      | inr not ↦ refused false (rw not at h)
    ]
    failed record_not_found h = refused false h
    failed (mysql n) h = refused false h
    failed (coded n) h = refused (n == 200001) h
    failed breaker_open h = refused false h
    failed canceled h = refused false h
    failed cache_miss h = refused false h
    failed json_error h = refused false h
    failed (other m) h = refused false h
    failed (wrap e) h = refused (is_coded 200001 e) h

module _ (sc : Service) (law : IsService sc) (a : Ambient) (req : CreateUserRequest) (s s' : Db)
    (resp : UserResponse)
    (registered : register_handler true (create_user sc a req s).0 ≡ created_json resp)
    (is : (create_user sc a req s).1 ≡ s') where
  -- The row that the registration has put into the table, which no later row hides.
  registered-stored :
      (t : Db) (more : List User)
      → t.users ≡ s'.users ++ more
      → (hashed : String) × (sc.hash req.password ≡ ok hashed)
        × (resp ≡ record { id = resp.id; username = req.username; email = req.email })
        × (find (named req.username) t.users ≡ some (stored req resp.id hashed))
        × (find (numbered resp.id) t.users ≡ some (stored req resp.id hashed))
  unfolding find
  registered-stored t more grown =
      let answer : (create_user sc a req s).0 ≡ ok resp =
        register_handler-created (create_user sc a req s).0 resp registered in
      let whole : create_user sc a req s ≡ (ok resp, s') = cc in
      placed (rw whole at (create_user-RegisterOutcome sc law a req s))
    where
      row :
          (v : User) (p : User → Bool)
          → s'.users ≡ s.users ++ v ∷ []
          → find p s.users ≡ none
          → p v ≡ true
          → find p t.users ≡ some v
      row v p put none_yet is_it =
          let last : find p (v ∷ []) ≡ some v = rw is_it refl in
          let placed : find p s'.users ≡ some v =
            rw put (find-append_none p s.users (v ∷ []) none_yet ∙ last) in
          rw grown (find-append_some p s'.users more v placed)

      placed :
          RegisterOutcome sc a req s (ok resp, s')
          → (hashed : String) × (sc.hash req.password ≡ ok hashed)
            × (resp ≡ record { id = resp.id; username = req.username; email = req.email })
            × (find (named req.username) t.users ≡ some (stored req resp.id hashed))
            × (find (numbered resp.id) t.users ≡ some (stored req resp.id hashed))
      placed (id, k, hashed, made, fresh, alone, same, put) =
          let number : id ≡ resp.id = sym (ap (λ r. r.id) same) in
          let users : s'.users ≡ s.users ++ stored req resp.id hashed ∷ [] =
            rw put (rw number refl) in
          let alone' : find (numbered resp.id) s.users ≡ none = rw number at alone in
          (
            hashed,
            made,
            rw number at same,
            row (stored req resp.id hashed) (named req.username) users fresh (eq_refl req.username),
            row (stored req resp.id hashed) (numbered resp.id) users alone' (ground arith),
          )

  -- A client registers and is answered with 201. It logs in with that name and password, whatever users
  -- have registered since: the answer is 200 with a token, or an internal error. Where it is a token
  -- and the client asks with it for its profile before AccessExpire seconds, a day where that is not
  -- above 0, have passed, the answer is the registered user as the registration answered it, or 404
  -- where the look-up fails. AccessExpire in nanoseconds fits int64, the user's number is below
  -- 2 ^ 63, and the tables, the hash and the tokens are as documented.
  pub register-login :
      (access_expire : ℤ) (now : ℕ) (sign : Claims → Result String)
      (verify : ℕ → String → Option Claim) (tokens : IsTokens sign verify) (t u : Db)
      (more more' : List User) (later : ℕ)
      → t.users ≡ s'.users ++ more
      → u.users ≡ s'.users ++ more'
      → resp.id < 2 ^ 63
      → expiry access_expire * 1_000_000_000 < 2 ^ 63
      → later < now / 1_000_000_000 + expiry access_expire
      → let answer =
          login_handler true access_expire now sign (authenticate sc req.username req.password t) in
        (answer ≡ internal_error)
        ⊎ ((token : String) × (answer ≡ ok_json token)
            × (let shown =
                  profile_handler (get_user sc (get_user_id none (verify later token)) u) in
                (shown ≡ ok_json resp) ⊎ (shown ≡ not_found)))
  unfolding login_handler login login_reply get_user_id parse_user_id profile_handler profile
      profile_reply is_coded
  register-login access_expire now sign verify tokens t u more more' later grown grown' small within
        before =
      let (hashed, made, shape, by_name, _) = registered-stored t more grown in
      let (hashed', _, _, _, by_number) = registered-stored u more' grown' in
      elim (authenticate-known sc law req.username req.password t (stored req resp.id hashed)
        by_name (law.hash_law req.password hashed made)) [
          | inr failed ↦ inl (rw failed refl)
          | inl known ↦ rw known (
              signed (get_user-known sc law u (stored req resp.id hashed') by_number) shape
                (sign claims) refl)
        ]
    where
      claims : Claims
      claims = record {
        user_id = resp.id;
        username = req.username;
        exp = unix (pos now +ℤ lifetime access_expire);
      }

      signed :
          (get_user sc resp.id u
              ≡ ok (record { id = resp.id; username = req.username; email = req.email }))
            ⊎ (get_user sc resp.id u ≡ err rpc_internal)
          → resp ≡ record { id = resp.id; username = req.username; email = req.email }
          → (r : Result String) → sign claims ≡ r
          → (login_reply r ≡ internal_error)
            ⊎ ((token : String) × (login_reply r ≡ ok_json token)
                × (let shown =
                      profile_handler (get_user sc (get_user_id none (verify later token)) u) in
                    (shown ≡ ok_json resp) ⊎ (shown ≡ not_found)))
      signed known shape (err e) made = inl (rw (tokens.is_uncoded claims e made) refl)
      signed known shape (ok token) made =
          let read : verify later token ≡ some (json_number (ok (pos resp.id))) =
            tokens.reads_back claims token later (now / 1_000_000_000 + expiry access_expire) made
              (unix-lifetime access_expire now within) before small in
          inr (
            token,
            refl,
            rw read (elim known [
              | inl there ↦ inl (rw there (ap ok_json (sym shape)))
              | inr failed ↦ inr (rw failed refl)
            ]),
          )
