-- ===== src/Stream/Given.antt =====
-- common/xstream/stream.go: what the handler has been given when consume is stopped and started
-- again, by a process that ends its loop or that dies while it handles a message.
use micro_go_lab.Base.{ℕ, ◌<◌, ◌≤◌, ◌≡◌, false, List, [], ◌∷◌}
use micro_go_lab.Stream.{Message}
use micro_go_lab.Stream.Consumer.{
  Broker, Handled, Fetched, message, failed, consume, is_canceled, second,
}
use micro_go_lab.Stream.Restarts.{IsGroup, Run, moved, InOrder}

-- The position after the messages of a list.
abbrev pub position_after : (ℕ → ℕ) → List Fetched → ℕ → ℕ
position_after position [] = position
position_after position (message m ∷ fs) = position_after (moved position m) fs
position_after position (failed e ∷ fs) = position_after position fs

-- No error among those that FetchMessage returns ends the loop.
abbrev pub IsRunning : List Fetched → Type 0
IsRunning [] = Unit
IsRunning (message m ∷ fs) = IsRunning fs
IsRunning (failed e ∷ fs) = (is_canceled e ≡ false) × IsRunning fs

module _ {S B : Type 0} (handler : Message → S → Handled × S) (k : Broker B) where
  -- Process after process, from a state and what the broker keeps: each resumes where the broker
  -- says and runs consume, over messages of which those of each partition follow one another; it
  -- ends with the loop, after however many messages, or it dies after one more call of the handler.
  pub data Lives (s : S) (b : B) : S → B → Type 0 where
    born : Lives s b s b
    ran :
        {s' : S} {b' : B}
        → Lives s b s' b'
        → (fs : List Fetched) → InOrder (k.resumes b') fs
        → Lives s b
            (consume handler k fs (s', b') second).0
            (consume handler k fs (s', b') second).1
    died :
        {s' : S} {b' : B}
        → Lives s b s' b'
        → (fs : List Fetched) (m : Message) → InOrder (k.resumes b') fs
        → IsRunning fs
        → m.offset ≡ position_after (k.resumes b') fs m.partition
        → Lives s b
            (handler m (consume handler k fs (s', b') second).0).1
            (consume handler k fs (s', b') second).1

  abbrev pub started : S → B → Run S B
  started s b = record { state = s; broker = b; position = k.resumes b }

  -- Seen is what the handler leaves of a call with a message: any call leaves it, whatever the handler
  -- returns, and no later call takes it away.
  module _ (law : IsGroup k) (Seen : Message → S → Type 0)
      (leaves : (m : Message) (s : S) → Seen m (handler m s).1)
      (lasts : (m m' : Message) (s : S) → Seen m s → Seen m (handler m' s).1) where
    abbrev pub IsSeen : ℕ → ℕ → S → Type 0
    IsSeen p i s = (m : Message) × (m.partition ≡ p) × (m.offset ≡ i) × Seen m s

    module _ (base : ℕ → ℕ) where
      -- Whatever is behind the position of the process, or behind the offset at which the broker
      -- would resume it, has been seen, from the offsets `base` on.
      abbrev IsCovered : Run S B → Type 0
      IsCovered r =
          ((p i : ℕ) → base p ≤ i → i < r.position p → IsSeen p i r.state)
          × ((p i : ℕ) → base p ≤ i → i < k.resumes r.broker p → IsSeen p i r.state)

      module _ (r : Run S B) (m : Message) (next : m.offset ≡ r.position m.partition)
          (c : IsCovered r) where
        called : S
        called = (handler m r.state).1
