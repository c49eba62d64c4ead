-- ===== src/Cache/Coherence.antt =====
-- The cache is not seen: GetOrLoad answers what the loader does, and leaves the cache so.
use micro_go_lab.Base.{
  ◌≡◌, ◌⊎◌, refl, sym, inl, inr, true, false, some, String, [], ◌∷◌, str_eq, if◌then◌else◌,
  Bool-cases,
}
use micro_go_lab.Errors.{Error, Result, ok, err, cache_miss}
use micro_go_lab.Cache.{Store, is_miss, negative_marker, load, looked_up, get_or_load}

-- The loader's answer, whose ErrMiss comes unwrapped.
unfoldable pub answer : {T : Type 0} → Result T → Result T
unfolding is_miss
answer (ok v) = ok v
answer (err e) = if is_miss e then err cache_miss else err e

-- What stands under the key, if anything is read there, is the loader's answer.
abbrev pub Agrees : {T : Type 0} → (String → Result T) → Result T → Result String → Type 0
Agrees unmarshal loader (err e) = Unit
Agrees unmarshal loader (ok val) =
    ((str_eq val negative_marker ≡ true) × (answer loader ≡ err cache_miss))
    ⊎ ((str_eq val negative_marker ≡ false)
        × (((e : Error) × (unmarshal val ≡ err e))
            ⊎ ((v : _) × (unmarshal val ≡ ok v) × (answer loader ≡ ok v))))

-- Get after Set reads what was set, or what was there before (Set failed), or nothing; Get after
-- Del reads what was there before (Del failed), or nothing.
pub record IsStore {C : Type 0} (redis : Store C) (full : String) : Type 0 where
  pub set_law :
      (b : String) (c : C)
      → (redis.get full (redis.set full b c) ≡ ok b)
        ⊎ ((redis.get full (redis.set full b c) ≡ redis.get full c)
            ⊎ ((e : Error) × (redis.get full (redis.set full b c) ≡ err e)))
  pub del_law :
      (c : C)
      → (redis.get full (redis.del (full ∷ []) c) ≡ redis.get full c)
        ⊎ ((e : Error) × (redis.get full (redis.del (full ∷ []) c) ≡ err e))

-- What is written of a value is read as the value, and is not the marker.
pub record IsFormat {T : Type 0} (marshal : T → Result String) (unmarshal : String → Result T)
    : Type 0 where
  pub reads_back : (v : T) (b : String) → marshal v ≡ ok b → unmarshal b ≡ ok v
  pub is_marked : (v : T) (b : String) → marshal v ≡ ok b → str_eq b negative_marker ≡ false

module _ {C T : Type 0} (redis : Store C) (full : String) (marshal : T → Result String)
    (unmarshal : String → Result T) (store : IsStore redis full)
    (format : IsFormat marshal unmarshal) (loader : Result T) where
  Coherent : C → Type 0
  Coherent c = Agrees unmarshal loader (redis.get full c)

  set-Coherent :
      (b : String) (c : C)
      → Coherent c
      → Agrees unmarshal loader (ok b)
      → Coherent (redis.set full b c)
  unfolding Coherent
  set-Coherent b c k h = go (store.set_law b c)
    where
      go :
          (redis.get full (redis.set full b c) ≡ ok b)
            ⊎ ((redis.get full (redis.set full b c) ≡ redis.get full c)
                ⊎ ((e : Error) × (redis.get full (redis.set full b c) ≡ err e)))
          → Agrees unmarshal loader (redis.get full (redis.set full b c))
      go (inl e) = rw e h
      go (inr (inl e)) = rw e k
      go (inr (inr (x, e))) = rw e tt

  del-Coherent : (c : C) → Coherent c → Coherent (redis.del (full ∷ []) c)
  unfolding Coherent
  del-Coherent c k = go (store.del_law c)
    where
      go :
          (redis.get full (redis.del (full ∷ []) c) ≡ redis.get full c)
            ⊎ ((e : Error) × (redis.get full (redis.del (full ∷ []) c) ≡ err e))
          → Agrees unmarshal loader (redis.get full (redis.del (full ∷ []) c))
      go (inl e) = rw e k
      go (inr (x, e)) = rw e tt

module _ {C T : Type 0} (redis : Store C) (full : String) (marshal : T → Result String)
    (unmarshal : String → Result T) (store : IsStore redis full)
    (format : IsFormat marshal unmarshal) where
  abbrev Transparent : Result T → Result T × C → Type 0
  Transparent loader (r, c') = (r ≡ answer loader) × Agrees unmarshal loader (redis.get full c')

  load-Transparent :
      (loader : Result T) (c : C)
      → Agrees unmarshal loader (redis.get full c)
      → Transparent loader (load redis full marshal loader c)
  unfolding load answer Coherent
  load-Transparent (err e) c k = elim (Bool-cases (is_miss e)) [
    | inl miss ↦ rw miss (
      refl,
      set-Coherent redis full marshal unmarshal store format (err e) negative_marker c k
          (inl (refl, rw miss refl)),
    )
    | inr other ↦ rw other (refl, k)
  ]
  load-Transparent (ok v) c k = go (marshal v) refl
    where
      go :
          (r : Result String)
          → marshal v ≡ r
          → Transparent (ok v) (ok v, elim r [ err e ↦ c | ok b ↦ redis.set full b c ])
      go (err e) h = (refl, k)
      go (ok b) h = (
        refl,
        set-Coherent redis full marshal unmarshal store format (ok v) b c k
            (inr (format.is_marked v b h, inr (v, format.reads_back v b h, refl))),
      )

  -- With a cache that agrees with the loader: GetOrLoad answers what the loader does, hit or
  -- miss, and the cache agrees with it after.
  pub get_or_load-Transparent :
      (loader : Result T) (c : C)
      → Agrees unmarshal loader (redis.get full c)
      → ((get_or_load (some redis) full marshal unmarshal loader c).0 ≡ answer loader)
        × Agrees unmarshal loader
            (redis.get full (get_or_load (some redis) full marshal unmarshal loader c).1)
  unfolding get_or_load looked_up Coherent
  get_or_load-Transparent loader c k = go (redis.get full c) refl k
    where
      cleaned : C
      cleaned = redis.del (full ∷ []) c

      go :
          (r : Result String)
          → redis.get full c ≡ r
          → Agrees unmarshal loader r
          → Transparent loader (looked_up redis full marshal unmarshal loader r c)
      go (err e) h a = load-Transparent loader c k
      go (ok val) h (inl (marker, a)) = rw marker (sym a, k)
      go (ok val) h (inr (plain, inr (v, u, a))) = rw (plain, u) (sym a, k)
      go (ok val) h (inr (plain, inl (e, u))) =
          rw (plain, u)
            (load-Transparent loader cleaned
              (del-Coherent redis full marshal unmarshal store format loader c k))
