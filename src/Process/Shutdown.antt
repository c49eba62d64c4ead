-- ===== src/Process/Shutdown.antt =====
-- Stop of the three services (servicecontext.go, serviceContext.go) and the shutdown listeners of their
-- mains, against the goroutines that their wait group counts: poll (common/xstream/poller.go) and
-- consume (common/xstream/stream.go). What such a goroutine does is taken from those loops as a step:
-- it works off ticks or messages, and it may return once its context is cancelled.
use micro_go_lab.Base.{
  ◌≡◌, ◌≢◌, ◌⊎◌, refl, sym, ◌∙◌, inl, inr, Bool, true, false, List, [], ◌∷◌, ◌++◌, Exists,
}
use micro_go_lab.Process.{Context, Goroutine}

-- How far Stop has come: not called; its context cancelled, in wg.Wait(); past it; the producer closed.
pub data Phase : Type 0 where
  serving waiting waited stopped : Phase

-- `log` holds a goroutine for each tick and each message that it has worked off.
pub record Process : Type 0 where
  pub running : List Goroutine
  pub cancelled : Bool
  pub phase : Phase
  pub producer_open : Bool
  pub connections_open : Bool
  pub log : List Goroutine

-- The process once its service is started.
abbrev pub launched : Context → Process
launched sc = record {
  running = sc.running;
  cancelled = false;
  phase = serving;
  producer_open = true;
  connections_open = true;
  log = [];
}

pub data Step : Process → Process → Type 0 where
  -- A tick of the poller, or a message of a consumer
  works :
      (p : Process) (g : Goroutine)
      → Exists (λ h. h ≡ g) p.running
      → Step p (record p { log = p.log ++ g ∷ [] })
  -- `case <-ctx.Done(): return`, and wg.Done()
  returns :
      (p : Process) (before : List Goroutine) (g : Goroutine) (after : List Goroutine)
      → p.running ≡ before ++ g ∷ after
      → p.cancelled ≡ true
      → Step p (record p { running = before ++ after })
  -- sc.cancel()
  cancels :
      (p : Process) → p.phase ≡ serving → Step p (record p { cancelled = true; phase = waiting })
  -- sc.wg.Wait() returns
  waits : (p : Process) → p.phase ≡ waiting → p.running ≡ [] → Step p (record p { phase = waited })
  -- sc.Producer.Close()
  closes_producer :
      (p : Process)
      → p.phase ≡ waited
      → Step p (record p { phase = stopped; producer_open = false })
  -- What the listener closes after Stop: the database, and Redis and the client where there are such
  closes_connections :
      (p : Process) → p.phase ≡ stopped → Step p (record p { connections_open = false })

pub data Reach (p : Process) : Process → Type 0 where
  here : Reach p p
  next : {q r : Process} → Reach p q → Step q r → Reach p r

abbrev Waits : Phase → Bool → List Goroutine → Type 0
Waits serving cancelled running = Unit
Waits waiting cancelled running = cancelled ≡ true
Waits waited cancelled running = running ≡ []
Waits stopped cancelled running = running ≡ []

record IsOrderly (p : Process) : Type 0 where
  by_phase : Waits p.phase p.cancelled p.running
  producer : (p.producer_open ≡ true) ⊎ (p.phase ≡ stopped)
  connections : (p.connections_open ≡ true) ⊎ (p.phase ≡ stopped)
  closed : p.phase ≡ stopped → p.producer_open ≡ false

no_split :
    (before : List Goroutine) (g : Goroutine) (after : List Goroutine) → [] ≢ before ++ g ∷ after
no_split [] g after e = cc
no_split (x ∷ before) g after e = cc

returned :
    (phase : Phase) (c : Bool) (before : List Goroutine) (g : Goroutine) (after : List Goroutine)
    → Waits phase c (before ++ g ∷ after)
    → Waits phase c (before ++ after)
returned serving c before g after h = tt
returned waiting c before g after h = h
returned waited c before g after h = absurd (no_split before g after (sym h))
returned stopped c before g after h = absurd (no_split before g after (sym h))

Step-IsOrderly : {p q : Process} → Step p q → IsOrderly p → IsOrderly q
Step-IsOrderly (works p g held) h = record {
  by_phase = h.by_phase;
  producer = h.producer;
  connections = h.connections;
  closed = h.closed;
}
Step-IsOrderly (returns p before g after e done) h = record {
  by_phase = returned p.phase p.cancelled before g after (rw e at h.by_phase);
  producer = h.producer;
  connections = h.connections;
  closed = h.closed;
}
Step-IsOrderly (cancels p e) h = record {
  by_phase = refl;
  producer = still p.producer_open e h.producer;
  connections = still p.connections_open e h.connections;
  closed = λ s. let no : waiting ≡ stopped = s in absurd (cc);
}
  where
    still :
        (b : Bool)
        → p.phase ≡ serving
        → (b ≡ true) ⊎ (p.phase ≡ stopped)
        → (b ≡ true) ⊎ (waiting ≡ stopped)
    still b e (inl o) = inl o
    still b e (inr s) = let both : serving ≡ stopped = sym e ∙ s in absurd (cc)
Step-IsOrderly (waits p e none_left) h = record {
  by_phase = none_left;
  producer = still p.producer_open e h.producer;
  connections = still p.connections_open e h.connections;
  closed = λ s. let no : waited ≡ stopped = s in absurd (cc);
}
  where
    still :
        (b : Bool)
        → p.phase ≡ waiting
        → (b ≡ true) ⊎ (p.phase ≡ stopped)
        → (b ≡ true) ⊎ (waited ≡ stopped)
    still b e (inl o) = inl o
    still b e (inr s) = let both : waiting ≡ stopped = sym e ∙ s in absurd (cc)
Step-IsOrderly (closes_producer p e) h = record {
  by_phase = rw e at h.by_phase;
  producer = inr refl;
  connections = inr refl;
  closed = λ s. refl;
}
Step-IsOrderly (closes_connections p e) h = record {
  by_phase = h.by_phase;
  producer = h.producer;
  connections = inr e;
  closed = h.closed;
}

Reach-IsOrderly : (sc : Context) {p : Process} → Reach (launched sc) p → IsOrderly p
Reach-IsOrderly sc here = record {
  by_phase = tt;
  producer = inl refl;
  connections = inl refl;
  closed = λ s. let no : serving ≡ stopped = s in absurd (cc);
}
Reach-IsOrderly sc (next r st) = Step-IsOrderly st (Reach-IsOrderly sc r)

-- Nothing runs any more, and the producer is closed.
abbrev IsOver : Process → Type 0
IsOver p = (p.phase ≡ stopped) × (p.running ≡ [])

Step-IsOver : {p q : Process} → Step p q → IsOver p → IsOver q × (q.log ≡ p.log)
Step-IsOver (works p g held) (s, none_left) =
    let gone : Exists (λ h. h ≡ g) [] = rw none_left at held in absurd (cc)
Step-IsOver (returns p before g after e done) (s, none_left) =
    absurd (no_split before g after (sym none_left ∙ e))
Step-IsOver (cancels p e) (s, none_left) = let both : serving ≡ stopped = sym e ∙ s in absurd (cc)
Step-IsOver (waits p e l) (s, none_left) = let both : waiting ≡ stopped = sym e ∙ s in absurd (cc)
Step-IsOver (closes_producer p e) (s, none_left) =
    let both : waited ≡ stopped = sym e ∙ s in absurd (cc)
Step-IsOver (closes_connections p e) (s, none_left) = ((s, none_left), refl)

Reach-IsOver : {p q : Process} → Reach p q → IsOver p → IsOver q × (q.log ≡ p.log)
Reach-IsOver here h = (h, refl)
Reach-IsOver (next r st) h =
    let (over, same) = Reach-IsOver r h in
    let (over', same') = Step-IsOver st over in (over', same' ∙ same)

-- A started service, whatever its goroutines do and whenever Stop is called: once the producer or a
-- connection is closed, no poller ticks and no consumer handles a message any more.
pub Reach-stays :
    (sc : Context) (p q : Process)
    → Reach (launched sc) p
    → (p.producer_open ≡ false) ⊎ (p.connections_open ≡ false)
    → Reach p q
    → q.log ≡ p.log
Reach-stays sc p q r closed r' =
    let h = Reach-IsOrderly sc r in
    let end : p.phase ≡ stopped = over h closed in (Reach-IsOver r' (end, rw end at h.by_phase)).1
  where
    over :
        IsOrderly p → (p.producer_open ≡ false) ⊎ (p.connections_open ≡ false) → p.phase ≡ stopped
    over h (inl c) = elim h.producer [ inl o ↦ absurd (cc) | inr s ↦ s ]
    over h (inr c) = elim h.connections [ inl o ↦ absurd (cc) | inr s ↦ s ]
