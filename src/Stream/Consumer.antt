-- ===== src/Stream/Consumer.antt =====
-- common/xstream/stream.go: the loop of a consumer, and common/xstream/recover.go. The group's
-- committed offsets are the broker's, a parameter.
use micro_go_lab.Base.{
  ℕ, suc, ◌*◌, ◌<◌, ◌≡◌, refl, Bool, true, false, Option, none, some, List, [], ◌∷◌, min, arith,
  if◌then◌else◌,
}
use micro_go_lab.Errors.{Error, canceled, wrap}
use micro_go_lab.Stream.{Message}

abbrev pub second : ℕ
second = 1_000_000_000

abbrev pub max_backoff : ℕ
max_backoff = 10 * second

-- CommitMessages, and the offset at which a restarted consumer resumes a partition.
pub record Broker (B : Type 0) : Type 0 where
  pub commit : Message → B → Option Error × B
  pub resumes : B → ℕ → ℕ

-- A commit of a message moves its partition past it.
pub record IsBroker {B : Type 0} (k : Broker B) : Type 0 where
  pub commit_law :
      (m : Message) (b b' : B) → k.commit m b ≡ (none, b') → k.resumes b' m.partition ≡ suc m.offset

-- A handler returns an error or nil, or panics.
pub data Handled : Type 0 where
  returned : Option Error → Handled
  panicked : Handled

-- What FetchMessage returns.
pub data Fetched : Type 0 where
  message : Message → Fetched
  failed : Error → Fetched

-- errors.Is(err, context.Canceled)
unfoldable pub is_canceled : Error → Bool
is_canceled canceled = true
is_canceled (wrap e) = is_canceled e
is_canceled _ = false

module _ {S B : Type 0} (handler : Message → S → Handled × S) (k : Broker B) where
  -- What follows the handler, in RunWithRecover. A failed commit is logged and passed over.
  unfoldable pub commit_handled : Message → B → Handled × S → S × B
  commit_handled m b (returned none, s) = (s, (k.commit m b).1)
  commit_handled m b (returned (some e), s) = (s, b)
  commit_handled m b (panicked, s) = (s, b)

  unfoldable pub consume_one : Message → S × B → S × B
  unfolding commit_handled
  consume_one m (s, b) = commit_handled m b (handler m s)

  -- The loop of consume, over what FetchMessage returns in turn: the state, and the backoff at which
  -- it stands.
  unfoldable pub consume : List Fetched → S × B → ℕ → S × B × ℕ
  unfolding consume_one is_canceled
  consume [] (s, b) backoff = (s, b, backoff)
  consume (message m ∷ fs) (s, b) backoff = consume fs (consume_one m (s, b)) second
  consume (failed e ∷ fs) (s, b) backoff =
      let rest = consume fs (s, b) (min (backoff * 2) max_backoff) in
      if is_canceled e then (s, b, backoff) else rest

  -- A message whose handler fails is not committed, yet the next message of its partition, if its
  -- handler and its commit succeed, moves the partition past both: a consumer that restarts
  -- resumes after the message that failed.
  pub consume-passes_over :
      (law : IsBroker k) (m m' : Message) (s s' s'' : S) (b b' : B) (backoff : ℕ) (e : Error)
      → m'.partition ≡ m.partition
      → m.offset < m'.offset
      → handler m s ≡ (returned (some e), s')
      → handler m' s' ≡ (returned none, s'')
      → k.commit m' b ≡ (none, b')
      → let after = consume (message m ∷ message m' ∷ []) (s, b) backoff in
        (after.0 ≡ s'') × (m.offset < k.resumes after.1 m.partition)
  unfolding consume consume_one commit_handled
  consume-passes_over law m m' s s' s'' b b' backoff e same lt h h' c =
      let past = law.commit_law m' b b' c in
      let one : consume_one m (s, b) ≡ (s', b) = rw (h, consume_one) refl in
      let two : consume_one m' (s', b) ≡ (s'', b') = rw (h', c, consume_one) refl in
      let here : k.resumes b' m.partition ≡ suc m'.offset = rw same at past in
      rw (one, two) (refl, omega arith)
