-- ===== src/RateLimit/Redis/Waits.antt =====
-- The waits of the script are those of the in-process limiter, rounded up to milliseconds.
use pydecorators.Prelude.{
  ℕ, suc, ◌+◌, ◌-◌, ◌/◌, ◌≡◌, refl, true, false, Option, none, some, List, [], ◌∷◌, map, leb, ltb,
  arith, All, sym, ap, subst, ◌∙◌, Bool-cases, inl, inr,
}
use pydecorators.Prelude.Int.{
  ℤ, pos, negsuc, ◌+ℤ◌, ◌-ℤ◌, ◌≤ℤ◌, ◌<ℤ◌, ltb_ℤ, max_ℤ, +ℤ_parts, -ℤ_parts,
}
use pydecorators.RateLimit.{
  Event, RuntimeWindow, used_cost, wait_until_freed, wait_over_limit, window_wait_seconds,
}
use pydecorators.RateLimit.Redis.{
  Member, event_cost, ceil_ms, script_used, script_freed, script_sliding_wait, reset_argument,
  script_wait_seconds, script_max_wait,
}

-- An entry of a sorted set, as an event.
abbrev pub event_of : ℤ × Member → Event
event_of entry = record { timestamp = entry.0; cost = event_cost entry.1 }

abbrev pub events_of : List (ℤ × Member) → List Event
events_of entries = map event_of entries

script_used-used_cost :
    (u : ℕ) (es : List (ℤ × Member)) → script_used u es ≡ u + used_cost (events_of es)
unfolding script_used used_cost
script_used-used_cost u [] = omega arith
script_used-used_cost u ((score, m) ∷ es) =
    omega (arith, script_used-used_cost (u + event_cost m) es)

used_cost-script_used : (es : List (ℤ × Member)) → used_cost (events_of es) ≡ script_used 0 es
used_cost-script_used es = omega (arith, script_used-used_cost 0 es)

-- What the script needs of a runtime window: it tells a calendar window from a sliding one by a reset
-- after the epoch.
abbrev IsToldBy : ℤ → RuntimeWindow → Option ℤ → Type 0
IsToldBy now w none = w.prune_before ≡ now -ℤ w.period
IsToldBy now w (some reset_at) = pos 0 <ℤ reset_at

abbrev pub IsScriptable : ℤ → RuntimeWindow → Type 0
IsScriptable now w = IsToldBy now w w.reset_at

ceil_ms_mono : (x y : ℤ) → x ≤ℤ y → ceil_ms x ≤ℤ ceil_ms y
unfolding ceil_ms
ceil_ms_mono (pos m) (pos n) h = omega (arith, h)
ceil_ms_mono (negsuc m) (pos n) h = omega (arith, h, -ℤ_parts (pos 0) (pos (suc m / 1000)))
ceil_ms_mono (pos m) (negsuc n) h = absurd (omega (arith, h))
ceil_ms_mono (negsuc m) (negsuc n) h =
    omega (arith, h, -ℤ_parts (pos 0) (pos (suc m / 1000)), -ℤ_parts (pos 0) (pos (suc n / 1000)))

le_antisym : (x y : ℤ) → x ≤ℤ y → y ≤ℤ x → x ≡ y
le_antisym (pos m) (pos n) h k = ap pos (omega (arith, h, k))
le_antisym (pos m) (negsuc n) h k = absurd (omega (arith, h, k))
le_antisym (negsuc m) (pos n) h k = absurd (omega (arith, h, k))
le_antisym (negsuc m) (negsuc n) h k = ap negsuc (omega (arith, h, k))

max_of_le : (x y : ℤ) → x ≤ℤ y → max_ℤ x y ≡ y
max_of_le x y h = elim (Bool-cases (ltb_ℤ x y)) [
  | inl less ↦ rw less refl
  | inr same ↦ rw same (le_antisym x y h (ground (arith, same)))
]

max_of_ge : (x y : ℤ) → y ≤ℤ x → max_ℤ x y ≡ x
max_of_ge x y h = ground arith

ceil_ms-max : (x y : ℤ) → ceil_ms (max_ℤ x y) ≡ max_ℤ (ceil_ms x) (ceil_ms y)
ceil_ms-max x y = elim (Bool-cases (ltb_ℤ x y)) [
  | inl less ↦
      rw less (sym (max_of_le (ceil_ms x) (ceil_ms y) (ceil_ms_mono x y (ground (arith, less)))))
  | inr more ↦
      rw more (sym (max_of_ge (ceil_ms x) (ceil_ms y) (ceil_ms_mono y x (ground (arith, more)))))
]

pub ceil_ms_zero : ceil_ms (pos 0) ≡ pos 0
unfolding ceil_ms
ceil_ms_zero = refl

pub ceil_ms-max_zero : (x : ℤ) → ceil_ms (max_ℤ (pos 0) x) ≡ max_ℤ (pos 0) (ceil_ms x)
ceil_ms-max_zero x = ceil_ms-max (pos 0) x ∙ ap (λ z. max_ℤ z (ceil_ms x)) ceil_ms_zero

pub ceil_ms_positive : (x : ℤ) → ltb_ℤ (pos 0) (ceil_ms x) ≡ ltb_ℤ (pos 0) x
unfolding ceil_ms
ceil_ms_positive (pos n) = ground arith
ceil_ms_positive (negsuc n) = ground (arith, -ℤ_parts (pos 0) (pos (suc n / 1000)))

sliding_wait_positive : (period x : ℤ) → pos 0 <ℤ x → script_sliding_wait period x ≡ x
sliding_wait_positive period (pos n) h = ground (arith, h)
sliding_wait_positive period (negsuc n) h = refl

script_freed-wait :
    (w : RuntimeWindow) (now : ℤ) (cost used freed : ℕ) (es : List (ℤ × Member))
    → All (λ e. now -ℤ w.period <ℤ e.timestamp) (events_of es)
    → wait_until_freed w now cost used freed (events_of es)
      ≡ max_ℤ
          (pos 0)
          (script_sliding_wait w.period (script_freed now w.period w.calls cost used freed es))
unfolding wait_until_freed script_freed
script_freed-wait w now cost used freed [] h = refl
script_freed-wait w now cost used freed ((score, m) ∷ es) h =
    elim (Bool-cases (leb (used - (freed + event_cost m) + cost) w.calls)) [
      | inl fits ↦
          let wait = score +ℤ w.period -ℤ now in
          let positive : pos 0 <ℤ wait = ground (
            arith,
            h.0,
            -ℤ_parts now w.period,
            +ℤ_parts score w.period,
            -ℤ_parts (score +ℤ w.period) now,
          ) in
          rw fits (ap (max_ℤ (pos 0)) (sym (sliding_wait_positive w.period wait positive)))
      | inr over ↦ rw over (script_freed-wait w now cost used (freed + event_cost m) es h.1)
    ]

script_wait_seconds-sliding :
    (w : RuntimeWindow) (now : ℤ) (cost used : ℕ) (es : List (ℤ × Member))
    → w.reset_at ≡ none
    → script_wait_seconds w now cost used es
      ≡ script_sliding_wait w.period (script_freed now w.period w.calls cost used 0 es)
unfolding script_wait_seconds
script_wait_seconds-sliding w now cost used es r = simp (r, reset_argument)

script_wait_seconds-calendar :
    (w : RuntimeWindow) (now : ℤ) (cost used : ℕ) (es : List (ℤ × Member)) (reset_at : ℤ)
    → w.reset_at ≡ some reset_at
    → pos 0 <ℤ reset_at
    → script_wait_seconds w now cost used es ≡ reset_at -ℤ now
unfolding script_wait_seconds
script_wait_seconds-calendar w now cost used es reset_at r positive =
    let later : ltb_ℤ (pos 0) reset_at ≡ true = ground (arith, positive) in
    simp (r, reset_argument, later)

-- A window that is over its limit, as the in-process limiter sees it and as the script does.
wait_over_limit-script :
    (w : RuntimeWindow) (now : ℤ) (cost : ℕ) (es : List (ℤ × Member)) (reset : Option ℤ)
    → w.reset_at ≡ reset
    → IsToldBy now w reset
    → All (λ e. w.prune_before <ℤ e.timestamp) (events_of es)
    → wait_over_limit w now cost (events_of es) reset
      ≡ max_ℤ (pos 0) (script_wait_seconds w now cost (script_used 0 es) es)
wait_over_limit-script w now cost es none r ok h =
    script_freed-wait w now cost (used_cost (events_of es)) 0 es
      (subst (λ p. All (λ e. p <ℤ e.timestamp) (events_of es)) ok h)
    ∙ ap (max_ℤ (pos 0)) (
        ap (λ u. script_sliding_wait w.period (script_freed now w.period w.calls cost u 0 es))
          (used_cost-script_used es)
        ∙ sym (script_wait_seconds-sliding w now cost (script_used 0 es) es r))
wait_over_limit-script w now cost es (some reset_at) r ok h =
    ap (max_ℤ (pos 0))
      (sym (script_wait_seconds-calendar w now cost (script_used 0 es) es reset_at r ok))

pub script_max_wait-window_wait_seconds :
    (w : RuntimeWindow) (now : ℤ) (cost : ℕ) (es : List (ℤ × Member)) (wait : ℤ)
    → IsScriptable now w
    → All (λ e. w.prune_before <ℤ e.timestamp) (events_of es)
    → pos 0 ≤ℤ wait
    → script_max_wait w now cost es (ceil_ms wait)
      ≡ ceil_ms (max_ℤ wait (window_wait_seconds (events_of es) w now cost))
unfolding script_max_wait window_wait_seconds
script_max_wait-window_wait_seconds w now cost es wait ok h positive =
    elim (Bool-cases (leb (used_cost (events_of es) + cost) w.calls)) [
      | inl fits ↦
          let within : ltb w.calls (script_used 0 es + cost) ≡ false =
            ground (arith, fits, used_cost-script_used es) in
          rw (fits, within) (ap ceil_ms (sym (max_of_ge wait (pos 0) positive)))
      | inr over ↦
          let beyond : ltb w.calls (script_used 0 es + cost) ≡ true =
            ground (arith, over, used_cost-script_used es) in
          let wait_seconds = script_wait_seconds w now cost (script_used 0 es) es in
          let same : ceil_ms (wait_over_limit w now cost (events_of es) w.reset_at)
              ≡ max_ℤ (pos 0) (ceil_ms wait_seconds) =
            ap ceil_ms (wait_over_limit-script w now cost es w.reset_at refl ok h)
            ∙ ceil_ms-max_zero wait_seconds in
          rw (over, beyond)
            (sym (
              ceil_ms-max wait (wait_over_limit w now cost (events_of es) w.reset_at)
              ∙ ap (max_ℤ (ceil_ms wait)) same))
    ]
