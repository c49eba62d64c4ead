-- ===== src/Stream/Restarts.antt =====
-- common/xstream/stream.go: a consumer of several partitions that runs, stops at any point and is
-- started again. The calls and the steps are what a consumer promises of its handler and of its
-- commits.
use micro_go_lab.Base.{
  ℕ, suc, ◌≡◌, ◌⊎◌, inl, inr, refl, none, some, List, [], ◌∷◌, ◌==◌, if◌then◌else◌, Bool-cases, min,
  ◌*◌,
}
use micro_go_lab.Errors.{Error}
use micro_go_lab.Stream.{Message}
use micro_go_lab.Stream.Consumer.{
  Broker, Handled, returned, panicked, Fetched, message, failed, commit_handled, consume_one,
  consume, is_canceled, second, max_backoff,
}

-- A commit moves its own partition past the message or, if it fails, may leave it; it moves no
-- other partition.
pub record IsGroup {B : Type 0} (k : Broker B) : Type 0 where
  pub commit_law :
      (m : Message) (b : B) (p : ℕ)
      → (k.resumes (k.commit m b).1 p ≡ k.resumes b p)
        ⊎ ((p ≡ m.partition) × (k.resumes (k.commit m b).1 p ≡ suc m.offset))

-- What the handler works on, what the broker keeps, and the offset that FetchMessage returns next of
-- each partition.
pub record Run (S B : Type 0) : Type 0 where
  pub state : S
  pub broker : B
  pub position : ℕ → ℕ

-- The position after a message.
unfoldable pub moved : (ℕ → ℕ) → Message → ℕ → ℕ
moved position m p = if p == m.partition then suc m.offset else position p

-- The fetched messages of each partition follow one another from the position on.
abbrev pub InOrder : (ℕ → ℕ) → List Fetched → Type 0
InOrder position [] = Unit
InOrder position (message m ∷ fs) =
    (m.offset ≡ position m.partition) × InOrder (moved position m) fs
InOrder position (failed e ∷ fs) = InOrder position fs

-- The messages that are fetched before an error ends the loop.
unfoldable pub given_of : List Fetched → List Message
unfolding is_canceled
given_of [] = []
given_of (message m ∷ fs) = m ∷ given_of fs
given_of (failed e ∷ fs) = let rest = given_of fs in if is_canceled e then [] else rest

module _ {S B : Type 0} (handler : Message → S → Handled × S) (k : Broker B) where
  -- The next message of its partition is given to the handler, and is committed after that and only
  -- if the handler returns no error.
  pub data Call (r : Run S B) (m : Message) : Run S B → Type 0 where
    succeeds :
        (s : S)
        → m.offset ≡ r.position m.partition
        → handler m r.state ≡ (returned none, s)
        → Call r m
            (record { state = s; broker = (k.commit m r.broker).1; position = moved r.position m })
    fails :
        (e : Error) (s : S)
        → m.offset ≡ r.position m.partition
        → handler m r.state ≡ (returned (some e), s)
        → Call r m (record { state = s; broker = r.broker; position = moved r.position m })
    panics :
        (s : S)
        → m.offset ≡ r.position m.partition
        → handler m r.state ≡ (panicked, s)
        → Call r m (record { state = s; broker = r.broker; position = moved r.position m })

  -- A list of messages, each given to the handler once, in the order of the list.
  pub data Calls : Run S B → List Message → Run S B → Type 0 where
    none_left : {r : Run S B} → Calls r [] r
    call :
        {r t u : Run S B} {m : Message} {ms : List Message}
        → Call r m t
        → Calls t ms u
        → Calls r (m ∷ ms) u

  -- A call; or the process stops while it has no message, or after the handler and before the commit;
  -- it is started again and each partition is resumed where the broker says.
  pub data Step : Run S B → Run S B → Type 0 where
    calls : {r t : Run S B} {m : Message} → Call r m t → Step r t
    restarts : (r : Run S B) → Step r (record r { position = k.resumes r.broker })
    stops_short :
        (r : Run S B) (m : Message)
        → m.offset ≡ r.position m.partition
        → Step r (record {
          state = (handler m r.state).1;
          broker = r.broker;
          position = k.resumes r.broker;
        })

  pub data Reach (r : Run S B) : Run S B → Type 0 where
    here : Reach r r
    step : {t u : Run S B} → Reach r t → Step t u → Reach r u

  pub Reach-first : {r t u : Run S B} → Step r t → Reach t u → Reach r u
  Reach-first first here = step here first
  Reach-first first (step way last) = step (Reach-first first way) last

  pub Reach-trans : {r t u : Run S B} → Reach r t → Reach t u → Reach r u
  Reach-trans way here = way
  Reach-trans way (step way' last) = step (Reach-trans way way') last

  pub Calls-Reach : {r : Run S B} {ms : List Message} {t : Run S B} → Calls r ms t → Reach r t
  Calls-Reach none_left = here
  Calls-Reach (call c cs) = Reach-first (calls c) (Calls-Reach cs)

  pub consume_one-Call :
      (r : Run S B) (m : Message)
      → m.offset ≡ r.position m.partition
      → let end = consume_one handler k m (r.state, r.broker) in
        Call r m (record { state = end.0; broker = end.1; position = moved r.position m })
  unfolding consume_one commit_handled
  consume_one-Call r m next = go (handler m r.state) refl
    where
      go :
          (h : Handled × S)
          → handler m r.state ≡ h
          → let end = commit_handled handler k m r.broker h in
            Call r m (record { state = end.0; broker = end.1; position = moved r.position m })
      go (returned none, s) e = succeeds s next e
      go (returned (some x), s) e = fails x s next e
      go (panicked, s) e = panics s next e

  -- The loop of consume, over what FetchMessage returns, its errors included, where the messages of
  -- each partition follow one another from the position of the process on: it gives the handler
  -- each message that is fetched before a cancelled context ends the loop, once and in the order in
  -- which they are fetched, goes on after a handler that fails or panics, and commits a message
  -- after its handler if that has returned no error, and no other; with the state and the
  -- committed offsets that these calls leave, it ends.
  pub consume-Calls :
      (fs : List Fetched) (r : Run S B) (backoff : ℕ)
      → InOrder r.position fs
      → let end = consume handler k fs (r.state, r.broker) backoff in
        (t : Run S B) × Calls r (given_of fs) t × (t.state ≡ end.0) × (t.broker ≡ end.1)
  unfolding consume given_of
  consume-Calls [] r backoff ordered = (r, none_left, refl, refl)
  consume-Calls (message m ∷ fs) r backoff (next, ordered) =
      let one = consume_one handler k m (r.state, r.broker) in
      let (t, way, state, broker) =
        consume-Calls fs (record { state = one.0; broker = one.1; position = moved r.position m })
          second ordered in
      (t, call (consume_one-Call r m next) way, state, broker)
  consume-Calls (failed e ∷ fs) r backoff ordered =
      let more = consume-Calls fs r (min (backoff * 2) max_backoff) ordered in
      elim (Bool-cases (is_canceled e)) [
        | inl stop ↦ rw stop (r, none_left, refl, refl)
        | inr go_on ↦ rw go_on more
      ]
