-- ===== src/RateLimit/Redis/Tests.antt =====
-- The theorem at a concrete input: sorted sets in a dictionary, and two sliding windows.
use pydecorators.Prelude.{
  ℕ, suc, ◌≡◌, refl, Option, none, some, List, [], ◌∷◌, if◌then◌else◌, string_eq, nat_eq, String,
}
use pydecorators.Prelude.Int.{ℤ, pos, leb_ℤ, ltb_ℤ, ◌-ℤ◌, ◌+ℤ◌}
use pydecorators.Prelude.Dict.{Dict, lookup, insert}
use pydecorators.Prelude.Table.{delete_where}
use pydecorators.RateLimit.Ids.{WindowId, plain, id_eq}
use pydecorators.RateLimit.{NormalizedWindow, Bucket, sliding, monday}
use pydecorators.RateLimit.Redis.{
  Member, tagged, SortedSets, redis_reserve_or_delay, evaluate_script, script_check, ceil_ms,
  script_max_wait, script_used, script_wait_seconds, script_freed,
}
use pydecorators.RateLimit.Redis.Cleanup

record Sets : Type 0 where
  sets : Dict WindowId (List (ℤ × Member))
  sequence : ℕ

abbrev members : Option (List (ℤ × Member)) → List (ℤ × Member)
members none = []
members (some es) = es

abbrev zrange : WindowId → Sets → List (ℤ × Member)
zrange id s = members (lookup id s.sets)

-- By score.
abbrev place : ℤ → Member → List (ℤ × Member) → List (ℤ × Member)
place score m [] = (score, m) ∷ []
place score m (e ∷ es) =
    let rest = place score m es in if ltb_ℤ score e.0 then (score, m) ∷ e ∷ es else e ∷ rest

abbrev put : WindowId → List (ℤ × Member) → Sets → Sets
put id es s = record s { sets = insert id es s.sets }

abbrev redis : SortedSets Sets
redis = record {
  zremrangebyscore = λ id max s. put id (delete_where (λ e. leb_ℤ e.0 max) (zrange id s)) s;
  zrange = zrange;
  zadd = λ id score m s. put id (place score m (zrange id s)) s;
  pexpire = λ id ttl_ms s. s;
  incr = λ s. (suc s.sequence, record s { sequence = suc s.sequence });
  pexpire_sequence = λ ttl_ms s. s;
}

abbrev bounds : NormalizedWindow ℕ → ℤ → ℤ × ℤ
bounds window now = (now, now)

abbrev window : ℕ → ℕ → String → NormalizedWindow ℕ
window calls period window_id = record {
  calls = calls;
  period = pos period;
  window_id = window_id;
  kind = sliding;
  unit = none;
  timezone = none;
  week_start = monday;
}

abbrev config : List (NormalizedWindow ℕ)
config = window 2 10_000_000 "short" ∷ window 3 60_000_000 "long" ∷ []

-- One event of cost 2, in both.
abbrev bucket : Bucket
bucket =
    (plain "short", record { timestamp = pos 1_000_500; cost = 2 } ∷ [])
    ∷ (plain "long", record { timestamp = pos 1_000_500; cost = 2 } ∷ [])
    ∷ []

abbrev sets : Sets
sets = record {
  sets =
      (plain "short", (pos 1_000_500, tagged 2 (pos 1_000_500) 1 1) ∷ [])
      ∷ (plain "long", (pos 1_000_500, tagged 2 (pos 1_000_500) 2 1) ∷ [])
      ∷ [];
  sequence = 1;
}

-- The short window is full: nine seconds, which are rounded up to a millisecond.
rounded_up :
    (redis_reserve_or_delay redis bounds config (pos 2_000_001) 1 sets).0 ≡ some (pos 9_001)
unfolding redis_reserve_or_delay evaluate_script script_check lookup insert ceil_ms script_max_wait
    script_used script_wait_seconds script_freed ◌-ℤ◌ ◌+ℤ◌
rounded_up = refl

abbrev state : Dict ℕ Bucket
state = (5, bucket) ∷ []
