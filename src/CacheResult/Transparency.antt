-- ===== src/CacheResult/Transparency.antt =====
-- Caching is transparent: what a cached function gives is what the function gives, for any backend that
-- keeps the laws of `CacheBackend`, and up to the exceptions that the backend itself raises.
use pydecorators.Prelude.{
  ◌≡◌, refl, Bool, true, false, Option, none, some, ◌⊎◌, inl, inr, Bool-cases, sym, ap, ◌∙◌,
  if◌then◌else◌,
}
use pydecorators.Prelude.Int.{ℤ}
use pydecorators.Prelude.Effect.{Outcome, returned, raised, Action, resume, raise, pure}
use pydecorators.Exceptions.{Exn, foreign}
use pydecorators.MemoryCache.{CacheEntry}
use pydecorators.CacheBackend.{CacheBackend, Policy, IsAnswer, IsLawful}
use pydecorators.CacheResult.{Config, Times, store_outcome, on_lookup, wrapper}

-- The exception of the function, as the wrapper's caller sees it.
abbrev pub passed_on : {O : Type 0} → Outcome O O → Outcome (Exn O) O
passed_on (returned v) = returned v
passed_on (raised x) = raised (foreign x)

abbrev pub outcome_of : {O : Type 0} → Bool → O → Outcome O O
outcome_of true x = raised x
outcome_of false v = returned v

-- An operation raises only what is tolerated.
abbrev pub RaisesOnly : {O B : Type 0} → (Exn O → Type 0) → Outcome (Exn O) B → Type 0
RaisesOnly Tolerated (returned b) = Unit
RaisesOnly Tolerated (raised e) = Tolerated e

-- A result is the one expected, or a tolerated exception.
abbrev pub IsExpected : {O : Type 0} → (Exn O → Type 0) → Outcome O O → Outcome (Exn O) O → Type 0
IsExpected Tolerated expected result =
    (result ≡ passed_on expected) ⊎ ((e : _) × (result ≡ raised e) × Tolerated e)

-- What a backend may raise.
pub record IsTolerated {S K O : Type 0} (b : CacheBackend S K O) (Tolerated : Exn O → Type 0)
    : Type 0 where
  pub get_raises : (now : ℤ) (key : K) (s : S) → RaisesOnly Tolerated (b.get now key s).0
  pub set_value_raises :
      (now : ℤ) (key : K) (v : O) (s : S) → RaisesOnly Tolerated (b.set_value now key v s).0
  pub set_exception_raises :
      (now : ℤ) (key : K) (x : O) (s : S) → RaisesOnly Tolerated (b.set_exception now key x s).0

module _ {S W K A O : Type 0} (config : Config S W K A O) (answer : A → Outcome O O) where
  -- What may be cached under a key is the answer for every call with this key.
  abbrev pub IsRight : Policy K O
  IsRight key b v = (args : A) → config.make_key args ≡ returned key → answer args ≡ outcome_of b v

  -- The function always gives its answer, whatever it does to the world.
  abbrev pub Answers : Type 0
  Answers = (args : A) (w : W) → (config.func args w).0 ≡ answer args

  -- Calls with one key have one answer.
  abbrev pub RespectsKeys : Type 0
  RespectsKeys =
      (args args' : A) (key : K)
      → config.make_key args ≡ returned key
      → config.make_key args' ≡ returned key
      → answer args ≡ answer args'

  module _ (Tolerated : Exn O → Type 0) (lawful : IsLawful config.backend)
      (tolerated : IsTolerated config.backend Tolerated) (respects : RespectsKeys) where
    abbrev IsDone : A → Outcome (Exn O) O × (S × W) → Type 0
    IsDone args done = IsExpected Tolerated (answer args) done.0 × lawful.Holds IsRight done.1.0

    value-IsDone :
        (args : A) (b : Bool) (v : O) (s : S) (w : W)
        → answer args ≡ outcome_of b v
        → lawful.Holds IsRight s
        → IsDone args ((if b then raise (foreign v) else pure v) (s, w))
    value-IsDone args true v s w same h = (inl (sym (ap passed_on same)), h)
    value-IsDone args false v s w same h = (inl (sym (ap passed_on same)), h)

    stored-IsDone :
        {B : Type 0} (args : A) (r : Outcome (Exn O) B × S) (w : W) (f : Action (S × W) (Exn O) O)
        → RaisesOnly Tolerated r.0
        → lawful.Holds IsRight r.1
        → ((s : S) → lawful.Holds IsRight s → IsDone args (f (s, w)))
        → IsDone args (resume (λ _. f) (r.0, (r.1, w)))
    stored-IsDone args (returned b, s) w f t h k = k s h
    stored-IsDone args (raised e, s) w f t h k = (inr (e, refl, t), h)

    outcome-IsRight :
        (args : A) (key : K) (b : Bool) (v : O)
        → config.make_key args ≡ returned key
        → answer args ≡ outcome_of b v
        → IsRight key b v
    outcome-IsRight args key b v made same args' made' = respects args' args key made' made ∙ same

    store_outcome-IsDone :
        (args : A) (key : K) (now : ℤ) (o : Outcome O O) (s : S) (w : W)
        → config.make_key args ≡ returned key
        → answer args ≡ o
        → lawful.Holds IsRight s
        → IsDone args (store_outcome config now key o (s, w))
    store_outcome-IsDone args key now (returned v) s w made same h =
        stored-IsDone args (config.backend.set_value now key v s) w (pure v)
          (tolerated.set_value_raises now key v s)
          (lawful.set_value_holds IsRight now key v s (outcome-IsRight args key false v made same)
            h)
          (λ s' h'. (inl (sym (ap passed_on same)), h'))
    store_outcome-IsDone args key now (raised x) s w made same h =
        elim (Bool-cases (config.is_exception x)) [
          | inr other ↦ rw other (inl (sym (ap passed_on same)), h)
          | inl ordinary ↦ elim (Bool-cases config.cache_exceptions) [
            | inr uncached ↦ rw (ordinary, uncached) (inl (sym (ap passed_on same)), h)
            | inl cached ↦
                rw (ordinary, cached)
                  (stored-IsDone args (config.backend.set_exception now key x s) w
                    (raise (foreign x)) (tolerated.set_exception_raises now key x s)
                    (lawful.set_exception_holds IsRight now key x s
                      (outcome-IsRight args key true x made same) h)
                    (λ s' h'. (inl (sym (ap passed_on same)), h')))
          ]
        ]

    looked_up-IsDone :
        (times : Times) (args : A) (key : K) (r : Outcome (Exn O) (Option (CacheEntry O)) × S)
        (w : W)
        → Answers
        → config.make_key args ≡ returned key
        → RaisesOnly Tolerated r.0
        → IsAnswer IsRight key r.0
        → lawful.Holds IsRight r.1
        → IsDone args (resume (on_lookup config times.store key args) (r.0, (r.1, w)))
    looked_up-IsDone times args key (raised e, s) w answers made t a h = (inr (e, refl, t), h)
    looked_up-IsDone times args key (returned none, s) w answers made t a h =
        let (outcome, w') = config.func args w in
        store_outcome-IsDone args key times.store outcome s w' made (sym (answers args w)) h
    looked_up-IsDone times args key (returned (some entry), s) w answers made t a h =
        value-IsDone args entry.is_exception entry.payload s w (a args made) h

    pub wrapper-IsDone :
        (times : Times) (args : A) (key : K) (s : S) (w : W)
        → Answers
        → config.make_key args ≡ returned key
        → lawful.Holds IsRight s
        → IsDone args (wrapper config times args (s, w))
    unfolding wrapper
    wrapper-IsDone times args key s w answers made h =
        let (held, answer_right) = lawful.get_holds IsRight times.lookup key s h in
        rw made (
          looked_up-IsDone times args key (config.backend.get times.lookup key s) w answers made
            (tolerated.get_raises times.lookup key s) answer_right held)
