-- ===== src/CacheResult/Coalescing/Tests.antt =====
-- The theorem at a concrete input: two threads miss one key; one computes and the other waits.
use pydecorators.Prelude.{ℕ, ◌≡◌, refl, true, false, [], nat_eq}
use pydecorators.Prelude.Dict.{lookup, insert, erase}
use pydecorators.CacheResult.Coalescing.{
  Flight, idle, miss, claim, finish, wake, Reach, start, next, misses, claims, finishes, wakes,
  coalescing_info,
}
use pydecorators.CacheResult.Coalescing.Producers.{IsCoherent}
use pydecorators.CacheResult.Coalescing.Waiters

abbrev quiet : Flight ℕ
quiet = record {
  in_flight = [];
  is_set = λ e. false;
  next_event = 0;
  total_waiters = 0;
  phase = λ i. idle;
}

abbrev missed : Flight ℕ
missed = miss 1 7 (miss 0 7 quiet)

abbrev waited : Flight ℕ
waited = claim 1 7 (claim 0 7 missed)

abbrev woken : Flight ℕ
woken = wake 1 7 true (finish 0 7 0 waited)

missed_reached : Reach quiet missed
missed_reached =
    next _ (miss 0 7 quiet) _ (next _ quiet _ (start quiet) (misses quiet 0 7 refl))
      (misses (miss 0 7 quiet) 1 7 refl)

waited_reached : Reach quiet waited
unfolding lookup insert
waited_reached =
    next _ (claim 0 7 missed) _ (next _ missed _ missed_reached (claims missed 0 7 refl))
      (claims (claim 0 7 missed) 1 7 refl)

woken_reached : Reach quiet woken
unfolding lookup insert erase
woken_reached =
    next _ (finish 0 7 0 waited) _ (next _ waited _ waited_reached (finishes waited 0 7 0 refl))
      (wakes (finish 0 7 0 waited) 1 7 0 true refl refl)

Reach-IsCoherent_example : IsCoherent woken
Reach-IsCoherent_example = Waiters.Reach-IsCoherent quiet woken (refl, λ i. refl) woken_reached

-- Nothing is in flight afterwards, and one thread waited.
one_waiter : coalescing_info woken ≡ (0, 1)
unfolding lookup insert erase
one_waiter = refl
