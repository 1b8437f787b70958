-- ===== src/CacheResult/Coalescing.antt =====
-- The coalescing of misses in the wrapper of `cache_result`, with `coalesce_misses`: threads that miss
-- the same key at the same time. A step is what one thread does between two points at which another may
-- run: the code under `in_flight_lock`, a lookup, or a computation.
pub mod Producers
pub mod Finishing
pub mod Waiters
mod Tests
use pydecorators.Prelude.{
  ℕ, ◌+◌, ◌≡◌, Bool, true, Option, none, some, Hashable, ◌==◌, nat_eq, if◌then◌else◌, length,
}
use pydecorators.Prelude.Dict.{Dict, lookup, insert, erase}

-- Where a thread is: outside, before the lock after a miss, computing as the producer of an event, or
-- waiting for an event.
pub data Phase (K : Type 0) : Type 0 where
  idle : Phase K
  claiming : K → Phase K
  producing waiting : K → ℕ → Phase K

-- The closures of the decorator and the threads. Events are numbered in the order in which they are made.
pub record Flight (K : Type 0) : Type 0 where
  pub in_flight : Dict K ℕ
  pub is_set : ℕ → Bool
  pub next_event : ℕ
  pub total_waiters : ℕ
  pub phase : ℕ → Phase K

abbrev pub at_phase : {K : Type 0} → ℕ → Phase K → (ℕ → Phase K) → ℕ → Phase K
at_phase i p phase j = if j == i then p else phase j

abbrev pub mark : ℕ → (ℕ → Bool) → ℕ → Bool
mark event is_set e = if e == event then true else is_set e

module _ {K : Type 0} where
  -- a lookup that misses
  abbrev pub miss : ℕ → K → Flight K → Flight K
  miss i key f = record f { phase = at_phase i (claiming key) f.phase }

  -- `cache_coalescing_info`, without the time
  abbrev pub coalescing_info : Flight K → ℕ × ℕ
  coalescing_info f = (length f.in_flight, f.total_waiters)

  -- after `in_flight_event.wait()`: the count, and the lookup, which hits or misses
  abbrev pub wake : ℕ → K → Bool → Flight K → Flight K
  wake i key hit f = record f {
    total_waiters = f.total_waiters + 1;
    phase = at_phase i (if hit then idle else claiming key) f.phase;
  }

module _ {K : Type 0} ⦃h : Hashable K⦄ where
  -- the first block under `in_flight_lock`
  abbrev pub claim_event : ℕ → K → Flight K → Option ℕ → Flight K
  claim_event i key f none = record f {
    in_flight = insert key f.next_event f.in_flight;
    next_event = f.next_event + 1;
    phase = at_phase i (producing key f.next_event) f.phase;
  }
  claim_event i key f (some event) = record f { phase = at_phase i (waiting key event) f.phase }

  abbrev pub claim : ℕ → K → Flight K → Flight K
  claim i key f = claim_event i key f (lookup key f.in_flight)

  -- `if in_flight.get(cache_key) is in_flight_event: in_flight.pop(cache_key, None)`
  abbrev pub drop_event : K → ℕ → Dict K ℕ → Option ℕ → Dict K ℕ
  drop_event key event d none = d
  drop_event key event d (some e) = if e == event then erase key d else d

  -- the `finally` of the producer, however the computation ended
  abbrev pub finish : ℕ → K → ℕ → Flight K → Flight K
  finish i key event f = record f {
    in_flight = drop_event key event f.in_flight (lookup key f.in_flight);
    is_set = mark event f.is_set;
    phase = at_phase i idle f.phase;
  }

  -- One step of one thread.
  pub data Step : Flight K → Flight K → Type 0 where
    misses : (f : Flight K) (i : ℕ) (key : K) → f.phase i ≡ idle → Step f (miss i key f)
    claims : (f : Flight K) (i : ℕ) (key : K) → f.phase i ≡ claiming key → Step f (claim i key f)
    finishes :
        (f : Flight K) (i : ℕ) (key : K) (event : ℕ)
        → f.phase i ≡ producing key event
        → Step f (finish i key event f)
    wakes :
        (f : Flight K) (i : ℕ) (key : K) (event : ℕ) (hit : Bool)
        → f.phase i ≡ waiting key event
        → f.is_set event ≡ true
        → Step f (wake i key hit f)

  pub data Reach : Flight K → Flight K → Type 0 where
    start : (f : Flight K) → Reach f f
    next : (f g k : Flight K) → Reach f g → Step g k → Reach f k
