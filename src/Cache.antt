-- ===== src/Cache.antt =====
-- common/xcache/cache.go: a cache in front of a loader. Redis, and how a value is written to it, are
-- parameters; one request is followed, so singleflight runs its function.
pub mod Coherence
use micro_go_lab.Base.{
  Bool, true, false, Option, none, some, String, List, [], ◌∷◌, map, str_eq, if◌then◌else◌,
}
use micro_go_lab.Errors.{Error, Result, ok, err, cache_miss, wrap}

-- errors.Is(err, ErrMiss)
unfoldable pub is_miss : Error → Bool
is_miss cache_miss = true
is_miss (wrap e) = is_miss e
is_miss _ = false

abbrev pub negative_marker : String
negative_marker = "__negative__"

-- Get, Set and Del; the errors of the last two are logged and passed over.
pub record Store (C : Type 0) : Type 0 where
  pub get : String → C → Result String
  pub set : String → String → C → C
  pub del : List String → C → C

module _ {C T : Type 0} (redis : Store C) (full : String) where
  -- What singleflight runs, given what the loader returns.
  unfoldable pub load : (T → Result String) → Result T → C → Result T × C
  unfolding is_miss
  load marshal (err e) c =
      if is_miss e then (err cache_miss, redis.set full negative_marker c) else (err e, c)
  load marshal (ok v) c = (ok v, elim (marshal v) [ err e ↦ c | ok b ↦ redis.set full b c ])

  -- What follows Get, with a cache behind it.
  unfoldable pub looked_up :
      (T → Result String) → (String → Result T) → Result T → Result String → C → Result T × C
  unfolding load
  looked_up marshal unmarshal loader (err e) c = load marshal loader c
  looked_up marshal unmarshal loader (ok val) c =
      if str_eq val negative_marker then (err cache_miss, c) else elim (unmarshal val) [
        | ok v ↦ (ok v, c)
        | err e ↦ load marshal loader (redis.del (full ∷ []) c)
      ]

-- GetOrLoad: `none` is a nil Redis, and `loader` what the loader returns.
unfoldable pub get_or_load :
    {C T : Type 0}
    → Option (Store C)
    → String
    → (T → Result String)
    → (String → Result T)
    → Result T
    → C
    → Result T × C
unfolding looked_up
get_or_load none full marshal unmarshal loader c = (loader, c)
get_or_load (some redis) full marshal unmarshal loader c =
    looked_up redis full marshal unmarshal loader (redis.get full c) c

-- Invalidate: `key` puts the prefix before a key.
unfoldable pub invalidate :
    {C : Type 0} → Option (Store C) → (String → String) → List String → C → C
invalidate none key ks c = c
invalidate (some redis) key [] c = c
invalidate (some redis) key (k ∷ ks) c = redis.del (map key (k ∷ ks)) c
