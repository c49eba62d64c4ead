-- ===== src/Tests/Restarts.antt =====
-- A consumer of one topic that is started, fails once, goes on, is started again and dies.
use micro_go_lab.Base.{ℕ, suc, ◌≡◌, refl, some, none, List, [], ◌∷◌, ◌==◌, Exists, if◌then◌else◌}
use micro_go_lab.Errors.{other}
use micro_go_lab.Stream.{Message}
use micro_go_lab.Stream.Consumer.{
  Broker, Handled, returned, Fetched, message, failed, consume, is_canceled,
}
use micro_go_lab.Stream.Restarts.{Run, moved, given_of, Calls, consume-Calls}
use micro_go_lab.Tests.Infrastructure.{at_offset}

-- The committed offset of each partition.
abbrev group : Broker (ℕ → ℕ)
group = record {
  commit = λ m b. (none, λ p. if p == m.partition then suc m.offset else b p);
  resumes = λ b p. b p;
}

abbrev fresh : ℕ → ℕ
fresh p = 4

-- A handler that keeps the offsets that it is called with, and fails the first time.
abbrev keep : Message → List ℕ → Handled × List ℕ
keep m [] = (returned (some (other "failed")), m.offset ∷ [])
keep m (i ∷ is) = (returned none, m.offset ∷ i ∷ is)

abbrev Keeps : Message → List ℕ → Type 0
Keeps m is = Exists (λ i. i ≡ m.offset) is

abbrev fetched : List Fetched
fetched = message (at_offset 4) ∷ failed (other "eof") ∷ message (at_offset 5) ∷ []

consume-Calls_example :
    let end = consume keep group fetched ([], fresh) 1 in
    (t : Run (List ℕ) (ℕ → ℕ)) × Calls keep group
      (record { state = []; broker = fresh; position = fresh })
      (at_offset 4 ∷ at_offset 5 ∷ [])
      t
    × (t.state ≡ end.0)
    × (t.broker ≡ end.1)
unfolding moved given_of is_canceled
consume-Calls_example =
    consume-Calls keep group fetched (record { state = []; broker = fresh; position = fresh }) 1
      (refl, (refl, tt))
