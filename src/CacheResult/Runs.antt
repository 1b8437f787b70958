-- ===== src/CacheResult/Runs.antt =====
-- A cached function and its `cache_info` and `cache_clear`, called any number of times, over the two
-- backends of the module.
use pydecorators.Prelude.{
  ◌≡◌, Bool, true, false, Option, none, some, List, [], ◌∷◌, All, inl, inr, Bool-cases,
  Option-cases, if◌then◌else◌, Hashable, ◌==◌, string_eq,
}
use pydecorators.Prelude.Int.{ℤ}
use pydecorators.Prelude.Bytes.{Bytes, bytes_eq}
use pydecorators.Prelude.Effect.{Outcome, returned, raised, Action}
use pydecorators.Exceptions.{Exn, cache_serialization_error, cache_backend_closed_error}
use pydecorators.MemoryCache.{Memory, has_passed}
use pydecorators.MemoryCache.Backend.{memory_backend, memory_backend-IsLawful, empty_cache_holds}
use pydecorators.CacheBackend.{CacheBackend, IsLawful}
use pydecorators.DiskCache.{Settings, Disk, Row, find_row, get_payload, get_row}
use pydecorators.DiskCache
use pydecorators.DiskCache.Backend.{
  disk_backend, disk_backend-IsLawful, empty_table_holds, PicklesApart, LoadsDumped,
}
use pydecorators.CacheResult.{Config, Times, wrapper}
use pydecorators.CacheResult.Transparency.{
  passed_on, RaisesOnly, IsExpected, IsTolerated, IsRight, Answers, RespectsKeys, wrapper-IsDone,
}

pub data Request (A : Type 0) : Type 0 where
  call : Times → A → Request A
  cache_clear : Request A
  cache_info : ℤ → Request A

module _ {S W K A O : Type 0} (config : Config S W K A O) where
  -- The arguments and the result of each call, in order.
  abbrev pub run : List (Request A) → S × W → List (A × Outcome (Exn O) O)
  run [] state = []
  run (call times args ∷ rs) state =
      let (r, state') = wrapper config times args state in (args, r) ∷ run rs state'
  run (cache_clear ∷ rs) (s, w) = run rs ((config.backend.clear s).1, w)
  run (cache_info now ∷ rs) (s, w) = run rs ((config.backend.info now s).1, w)

  -- Every call has a key.
  abbrev pub HasKeys : Type 0
  HasKeys = (args : A) → (key : K) × (config.make_key args ≡ returned key)

  module _ (answer : A → Outcome O O) (Tolerated : Exn O → Type 0)
      (lawful : IsLawful config.backend) (tolerated : IsTolerated config.backend Tolerated)
      (respects : RespectsKeys config answer) (answers : Answers config answer)
      (keys : HasKeys) where
    abbrev pub IsExpectedCall : A × Outcome (Exn O) O → Type 0
    IsExpectedCall done = IsExpected Tolerated (answer done.0) done.1

    pub run-IsExpected :
        (rs : List (Request A)) (s : S) (w : W)
        → lawful.Holds (IsRight config answer) s
        → All IsExpectedCall (run rs (s, w))
    run-IsExpected [] s w h = tt
    run-IsExpected (call times args ∷ rs) s w h =
        let (key, made) = keys args in
        let done =
          wrapper-IsDone config answer Tolerated lawful tolerated respects times args key s w
            answers made h in
        let (s', w') = (wrapper config times args (s, w)).1 in
        (done.0, run-IsExpected rs s' w' done.1)
    run-IsExpected (cache_clear ∷ rs) s w h =
        run-IsExpected rs (config.backend.clear s).1 w
          (lawful.clear_holds (IsRight config answer) s h)
    run-IsExpected (cache_info now ∷ rs) s w h =
        run-IsExpected rs (config.backend.info now s).1 w
          (lawful.info_holds (IsRight config answer) now s h)

memory_raises_nothing :
    {K O : Type 0} ⦃e : Hashable K⦄ → IsTolerated (memory_backend {K = K} {O = O}) (λ _. ⊥)
memory_raises_nothing = record {
  get_raises = λ now key s. tt;
  set_value_raises = λ now key v s. tt;
  set_exception_raises = λ now key x s. tt;
}

module _ {A O : Type 0} (answer : A → Outcome O O) where
  abbrev pub GivesAnswer : A × Outcome (Exn O) O → Type 0
  GivesAnswer done = done.1 ≡ passed_on (answer done.0)

  exactly_answers :
      (done : List (A × Outcome (Exn O) O))
      → All (λ d. IsExpected (λ _. ⊥) (answer d.0) d.1) done
      → All GivesAnswer done
  exactly_answers [] h = tt
  exactly_answers (d ∷ ds) (inl same, h) = (same, exactly_answers ds h)
  exactly_answers (d ∷ ds) (inr (x, same, never), h) = absurd never

-- What a disk backend may raise: that a key or a payload is not serializable, or that it is closed.
abbrev pub IsDiskError : {O : Type 0} → Exn O → Type 0
IsDiskError (cache_serialization_error _) = Unit
IsDiskError (cache_backend_closed_error _) = Unit
IsDiskError _ = ⊥

module _ {K O : Type 0} (settings : Settings K O) where
  get_payload_raises :
      (now : ℤ) (key : K) (k : Bytes) (row : Row) (o : Option O) (d : Disk K)
      → RaisesOnly {O = O} IsDiskError (get_payload settings now key k row o d).0
  get_payload_raises now key k row none d = elim (Bool-cases settings.drop_corrupt_rows) [
    | inl drop ↦ rw drop tt
    | inr keep ↦ rw keep tt
  ]
  get_payload_raises now key k row (some v) d = tt

  get_row_raises :
      (now : ℤ) (key : K) (k : Bytes) (o : Option Row) (d : Disk K)
      → RaisesOnly {O = O} IsDiskError (get_row settings now key k o d).0
  get_row_raises now key k none d = tt
  get_row_raises now key k (some row) d = elim (Bool-cases (has_passed now row.expires_at)) [
    | inl old ↦ rw old tt
    | inr live ↦
        elim (Bool-cases (row.serializer_content_type == settings.serializer.content_type)) [
          | inl same ↦
              rw (live, same)
                (get_payload_raises now key k row (settings.serializer.loads row.payload) d)
          | inr other ↦ rw (live, other) tt
        ]
  ]

  guarded_raises :
      {B : Type 0} (b : Bool) (d : Disk K) (m : Outcome (Exn O) B × Disk K)
      → RaisesOnly IsDiskError m.0
      → RaisesOnly IsDiskError
          (if b then (raised (cache_backend_closed_error "cache backend is closed"), d) else m).0
  guarded_raises true d m h = tt
  guarded_raises false d m h = h

  get_raises :
      (now : ℤ) (key : K) (d : Disk K)
      → RaisesOnly {O = O} IsDiskError (DiskCache.get settings now key d).0
  unfolding DiskCache.get
  get_raises now key d = elim (Option-cases (settings.pickle_key key)) [
    | inl bad ↦ rw bad tt
    | inr (k, pickled) ↦
        rw pickled
          (guarded_raises d.closed d _ (get_row_raises now key k (find_row k d.cache_entries) d))
  ]

  set_entry_raises :
      (now : ℤ) (key : K) (v : O) (b : Bool) (d : Disk K)
      → RaisesOnly {O = O} IsDiskError (DiskCache.set_entry settings now key v b d).0
  unfolding DiskCache.set_entry
  set_entry_raises now key v b d = elim (Option-cases (settings.pickle_key key)) [
    | inl bad ↦ rw bad tt
    | inr (k, pickled) ↦ elim (Option-cases (settings.serializer.dumps v)) [
      | inl bad ↦ rw (pickled, bad) tt
      | inr (payload, dumped) ↦ rw (pickled, dumped) (guarded_raises d.closed d _ tt)
    ]
  ]

  disk_raises : IsTolerated (disk_backend settings) IsDiskError
  disk_raises = record {
    get_raises = get_raises;
    set_value_raises = λ now key v d. set_entry_raises now key v false d;
    set_exception_raises = λ now key x d. set_entry_raises now key x true d;
  }

module _ {W K A O : Type 0} (make_key : A → Outcome (Exn O) K) (func : A → Action W O O)
    (is_exception : O → Bool) (cache_exceptions : Bool) where
  -- The decorator over some backend.
  abbrev pub over : {S : Type 0} → CacheBackend S K O → Config S W K A O
  over backend = record {
    backend = backend;
    make_key = make_key;
    func = func;
    is_exception = is_exception;
    cache_exceptions = cache_exceptions;
  }

  -- Over the in-memory backend caching is transparent: in any run of calls, `cache_info` and
  -- `cache_clear` on an empty cache of any size and lifetime, every call returns or raises exactly what
  -- the function does. The function gives one answer for one key, and every call has a key.
  pub memory_transparent :
      ⦃e : Hashable K⦄ (answer : A → Outcome O O) (rs : List (Request A)) (s : Memory K O) (w : W)
      → s.cache ≡ []
      → RespectsKeys (over memory_backend) answer
      → Answers (over memory_backend) answer
      → HasKeys (over memory_backend)
      → All (GivesAnswer answer) (run (over memory_backend) rs (s, w))
  memory_transparent answer rs s w empty respects answers keys =
      exactly_answers answer (run (over memory_backend) rs (s, w)) (
        run-IsExpected (over memory_backend) answer (λ _. ⊥) memory_backend-IsLawful
          memory_raises_nothing respects answers keys rs s w
          (empty_cache_holds (IsRight (over memory_backend) answer) s empty))

  -- Over the disk backend, on a new file and with serializers that give back what they were given, every
  -- call in any run returns or raises what the function does, or raises that a key or payload cannot be
  -- serialized or that the backend is closed. The function gives one answer for one key, and every call
  -- has a key.
  pub disk_transparent :
      (settings : Settings K O) (answer : A → Outcome O O) (rs : List (Request A)) (d : Disk K)
      (w : W)
      → d.cache_entries ≡ []
      → PicklesApart settings
      → LoadsDumped settings
      → RespectsKeys (over (disk_backend settings)) answer
      → Answers (over (disk_backend settings)) answer
      → HasKeys (over (disk_backend settings))
      → All
          (λ done. IsExpected IsDiskError (answer done.0) done.1)
          (run (over (disk_backend settings)) rs (d, w))
  disk_transparent settings answer rs d w empty apart loads respects answers keys =
      run-IsExpected (over (disk_backend settings)) answer IsDiskError
        (disk_backend-IsLawful settings apart loads) (disk_raises settings) respects answers keys rs
        d w
        (empty_table_holds settings apart loads (IsRight (over (disk_backend settings)) answer) d
          empty)
