-- ===== src/Outbox/Polling.antt =====
-- The loop of common/xstream/poller.go (NewPoller, poll), and what becomes of a row that the broker refuses.
use micro_go_lab.Base.{
  ℕ, suc, ◌+◌, ◌≤◌, ◌<◌, ◌≡◌, ◌≢◌, inl, inr, Bool, true, false, some, List, [], ◌∷◌, ◌==◌,
  update_where, All, arith, Bool-cases,
}
use micro_go_lab.Errors.{Error, Result, ok, err}
use micro_go_lab.Outbox.{OutboxEvent, max_retries, sent}
use micro_go_lab.Outbox.Sent.{Has}

-- The fields of a Poller, but for the repository and the producer. The interval is in nanoseconds.
pub record Poller : Type 0 where
  pub interval : ℕ
  pub batch_size : ℕ

-- NewPoller
unfoldable pub new_poller : ℕ → ℕ → Poller
new_poller interval batch_size = record { interval = interval; batch_size = batch_size }

-- Which case a select takes: the timer or ticker, or ctx.Done().
pub data Signal : Type 0 where
  fired done : Signal

module _ {S : Type 0} (ticks : ℕ → S → S) where
  -- The endless loop of poll, over the cases that its select takes in turn: whether it has
  -- returned, and what the ticks, of which `n` came before, leave behind.
  unfoldable pub poll_from : ℕ → List Signal → S → Bool × S
  poll_from n [] s = (false, s)
  poll_from n (done ∷ signals) s = (true, s)
  poll_from n (fired ∷ signals) s = poll_from (suc n) signals (ticks n s)

  -- poll. `jitter` is what rand.Int answers: on an error there is no first wait.
  unfoldable pub poll : Result ℕ → List Signal → S → Bool × S
  unfolding poll_from
  poll (err e) signals s = poll_from 0 signals s
  poll (ok jitter) [] s = (false, s)
  poll (ok jitter) (done ∷ signals) s = (true, s)
  poll (ok jitter) (fired ∷ signals) s = poll_from 0 signals s

  poll_from-keeps :
      (P : S → Type 0)
      → ((n : ℕ) (s : S) → P s → P (ticks n s))
      → (n : ℕ) (signals : List Signal) (s : S) → P s
      → P (poll_from n signals s).1
  unfolding poll_from
  poll_from-keeps P keep n [] s h = h
  poll_from-keeps P keep n (done ∷ signals) s h = h
  poll_from-keeps P keep n (fired ∷ signals) s h =
      poll_from-keeps P keep (suc n) signals (ticks n s) (keep n s h)

  pub poll-keeps :
      (P : S → Type 0)
      → ((n : ℕ) (s : S) → P s → P (ticks n s))
      → (jitter : Result ℕ) (signals : List Signal) (s : S) → P s
      → P (poll jitter signals s).1
  unfolding poll
  poll-keeps P keep (err e) signals s h = poll_from-keeps P keep 0 signals s h
  poll-keeps P keep (ok jitter) [] s h = h
  poll-keeps P keep (ok jitter) (done ∷ signals) s h = h
  poll-keeps P keep (ok jitter) (fired ∷ signals) s h = poll_from-keeps P keep 0 signals s h

-- No event of the list has the id of another.
abbrev pub DistinctIds : List OutboxEvent → Type 0
DistinctIds [] = Unit
DistinctIds (e ∷ es) = ((i : ℕ) → Has i es → e.id ≢ i) × DistinctIds es

-- A row that has been tried at most MaxRetries times, and fewer times if it is in the batch.
abbrev pub IsTriable : List OutboxEvent → OutboxEvent → Type 0
IsTriable batch r = (r.retry_count ≤ max_retries) × (Has r.id batch → r.retry_count < max_retries)

-- What the query returns: rows of the condition, each once; a row of the table whose id is among
-- them satisfies it.
abbrev pub Locks : (OutboxEvent → Bool) → List OutboxEvent → Result (List OutboxEvent) → Type 0
Locks p rows (err e) = Unit
Locks p rows (ok batch) = DistinctIds batch × All (λ r. Has r.id batch → p r ≡ true) rows

-- Tried at most MaxRetries times.
abbrev pub IsBounded : OutboxEvent → Type 0
IsBounded r = r.retry_count ≤ max_retries

pub counted_once :
    (x : Error) (e : OutboxEvent) (es rows : List OutboxEvent)
    → ((i : ℕ) → Has i es → e.id ≢ i)
    → All (IsTriable (e ∷ es)) rows
    → All (IsTriable es) (
        update_where
          (λ r. r.id == e.id)
          (λ r. record r { retry_count = r.retry_count + 1; last_error = some x })
          rows)
unfolding update_where
counted_once x e es [] alone h = tt
counted_once x e es (r ∷ rows) alone (h, hs) =
    let rest = counted_once x e es rows alone hs in
    elim (Bool-cases (r.id == e.id)) [
      | inl hit ↦
          let same : e.id ≡ r.id = ground arith in
          let few = h.1 (inl same) in
          rw hit ((omega arith, λ later. absurd (alone r.id later same)), rest)
      | inr miss ↦ rw miss ((h.0, λ later. h.1 (inr later)), rest)
    ]

pub sent_once :
    (now : ℕ) (e : OutboxEvent) (es rows : List OutboxEvent)
    → All (IsTriable (e ∷ es)) rows
    → All (IsTriable es) (
        update_where (λ r. r.id == e.id) (λ r. record r { status = sent; sent_at = some now }) rows)
unfolding update_where
sent_once now e es [] h = tt
sent_once now e es (r ∷ rows) (h, hs) =
    let rest = sent_once now e es rows hs in
    elim (Bool-cases (r.id == e.id)) [
      | inl hit ↦ rw hit ((h.0, λ later. h.1 (inr later)), rest)
      | inr miss ↦ rw miss ((h.0, λ later. h.1 (inr later)), rest)
    ]
