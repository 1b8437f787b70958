-- ===== src/CacheResult/Coalescing/Producers.antt =====
-- Producers and waiters: what is kept up when a thread moves, or becomes a producer.
use pydecorators.Prelude.{
  ℕ, ◌≡◌, ◌≢◌, refl, ◌⊎◌, inl, inr, true, none, some, arith, Hashable, ◌==◌, ==_iff, ==_refl,
  nat_eq, if◌then◌else◌, Bool-cases, sym, ap, subst, ◌∙◌,
}
use pydecorators.Prelude.Dict.{Dict, lookup, insert, IsDistinct, lookup-insert, insert-IsDistinct}
use pydecorators.CacheResult.Coalescing.{
  Phase, claiming, producing, waiting, Flight, at_phase, claim_event,
}

-- What a phase is after one thread has moved.
pub at_phase-cases :
    {K : Type 0} (i j : ℕ) (p q : Phase K) (phase : ℕ → Phase K)
    → at_phase i p phase j ≡ q
    → ((j ≡ i) × (p ≡ q)) ⊎ ((j ≢ i) × (phase j ≡ q))
at_phase-cases i j p q phase h = elim (Bool-cases (j == i)) [
  | inl same ↦ inl ((==_iff j i).0 same, subst (λ b. (if b then p else phase j) ≡ q) same h)
  | inr other ↦
      inr (ground (arith, ==_iff j i, other), subst (λ b. (if b then p else phase j) ≡ q) other h)
]

pub at_phase_other :
    {K : Type 0} (i j : ℕ) (p : Phase K) (phase : ℕ → Phase K)
    → j ≢ i
    → at_phase i p phase j ≡ phase j
at_phase_other i j p phase h = ground (arith, ==_iff j i)

at_phase_self : {K : Type 0} (i : ℕ) (p : Phase K) (phase : ℕ → Phase K) → at_phase i p phase i ≡ p
at_phase_self i p phase = rw (==_refl i) refl

pub none_is_not_some : {A : Type 0} (a : A) → none ≡ some a → ⊥
none_is_not_some a h = cc h

module _ {K : Type 0} ⦃h : Hashable K⦄ where
  -- An event is set, or some thread will set it.
  abbrev pub IsAwaited : Flight K → K → ℕ → Type 0
  IsAwaited f key e = (f.is_set e ≡ true) ⊎ ((j : ℕ) × (f.phase j ≡ producing key e))

  -- The producers are the entries of `in_flight`, one for each key, and no thread waits for an event
  -- that nobody will set.
  pub record IsCoherent (f : Flight K) : Type 0 where
    pub distinct : IsDistinct f.in_flight
    pub owns :
        (i : ℕ) (key : K) (e : ℕ) → f.phase i ≡ producing key e → lookup key f.in_flight ≡ some e
    pub owned :
        (key : K) (e : ℕ)
        → lookup key f.in_flight ≡ some e
        → (i : ℕ) × (f.phase i ≡ producing key e)
    pub alone :
        (i j : ℕ) (key : K) (e e' : ℕ)
        → f.phase i ≡ producing key e
        → f.phase j ≡ producing key e'
        → i ≡ j
    pub awaited : (i : ℕ) (key : K) (e : ℕ) → f.phase i ≡ waiting key e → IsAwaited f key e

  module _ (f : Flight K) (i : ℕ) (p : Phase K) (coherent : IsCoherent f)
      (before : (key : K) (e : ℕ) → f.phase i ≢ producing key e) where
    abbrev moved_phase : ℕ → Phase K
    moved_phase = at_phase i p f.phase

    still_produces :
        (j : ℕ) (key : K) (e : ℕ) → f.phase j ≡ producing key e → moved_phase j ≡ producing key e
    still_produces j key e h =
        at_phase_other i j p f.phase (λ same. before key e (ap f.phase (sym same) ∙ h)) ∙ h

    still_awaited :
        (key : K) (e : ℕ)
        → IsAwaited f key e
        → (f.is_set e ≡ true) ⊎ ((j : ℕ) × (moved_phase j ≡ producing key e))
    still_awaited key e (inl done) = inl done
    still_awaited key e (inr (j, h)) = inr (j, still_produces j key e h)

    module _ (n : ℕ) (after : (key : K) (e : ℕ) → p ≢ producing key e)
        (waits : (key : K) (e : ℕ) → p ≡ waiting key e → IsAwaited f key e) where
      was_producing :
          (j : ℕ) (key : K) (e : ℕ) → moved_phase j ≡ producing key e → f.phase j ≡ producing key e
      was_producing j key e h = elim (at_phase-cases i j p (producing key e) f.phase h) [
        | inl (same, new) ↦ absurd (after key e new)
        | inr (ne, old) ↦ old
      ]

      -- A thread that was not a producer moves, and does not become one.
      pub moved-IsCoherent : IsCoherent (record f { phase = moved_phase; total_waiters = n })
      moved-IsCoherent = record {
        distinct = coherent.distinct;
        owns = λ j key e h. coherent.owns j key e (was_producing j key e h);
        owned = λ key e h. let (j, old) = coherent.owned key e h in (j, still_produces j key e old);
        alone = λ j k key e e' h h'.
            coherent.alone j k key e e' (was_producing j key e h) (was_producing k key e' h');
        awaited = λ j key e h. elim (at_phase-cases i j p (waiting key e) f.phase h) [
          | inl (same, new) ↦ still_awaited key e (waits key e new)
          | inr (ne, old) ↦ still_awaited key e (coherent.awaited j key e old)
        ];
      }

  lookup-inserted : (key : K) (n : ℕ) (d : Dict K ℕ) → lookup key (insert key n d) ≡ some n
  lookup-inserted key n d = lookup-insert key key n d ∙ rw (==_refl key) refl

  lookup_other :
      (key k : K) (n : ℕ) (d : Dict K ℕ) → k ≢ key → lookup k (insert key n d) ≡ lookup k d
  lookup_other key k n d ne = lookup-insert key k n d ∙ ground (arith, ==_iff k key, ne)

  module _ (f : Flight K) (i : ℕ) (key : K) (coherent : IsCoherent f)
      (claiming_key : f.phase i ≡ claiming key) (free : lookup key f.in_flight ≡ none) where
    not_producing : (k : K) (e : ℕ) → f.phase i ≢ producing k e
    not_producing k e h = cc (claiming_key, h)

    -- No thread produces for a key that is free.
    nobody_produces : (j : ℕ) (k : K) (e : ℕ) → f.phase j ≡ producing k e → k ≢ key
    nobody_produces j k e h same =
        none_is_not_some e
          (sym free ∙ ap (λ x. lookup x f.in_flight) (sym same) ∙ coherent.owns j k e h)

    abbrev new_phase : ℕ → Phase K
    new_phase = at_phase i (producing key f.next_event) f.phase

    claimed_alone :
        (j m : ℕ) (k : K) (e e' : ℕ)
        → new_phase j ≡ producing k e
        → new_phase m ≡ producing k e'
        → j ≡ m
    claimed_alone j m k e e' h h' =
        elim (at_phase-cases i j (producing key f.next_event) (producing k e) f.phase h) [
          | inl (same, new) ↦
              elim (at_phase-cases i m (producing key f.next_event) (producing k e') f.phase h') [
                | inl (same', new') ↦ same ∙ sym same'
                | inr (ne', old') ↦ absurd (nobody_produces m k e' old' (cc new))
              ]
          | inr (ne, old) ↦
              elim (at_phase-cases i m (producing key f.next_event) (producing k e') f.phase h') [
                | inl (same', new') ↦ absurd (nobody_produces j k e old (cc new'))
                | inr (ne', old') ↦ coherent.alone j m k e e' old old'
              ]
        ]

    pub claimed-IsCoherent : IsCoherent (claim_event i key f none)
    claimed-IsCoherent = record {
      distinct = insert-IsDistinct key f.next_event f.in_flight coherent.distinct;
      owns = λ j k e h.
          elim (at_phase-cases i j (producing key f.next_event) (producing k e) f.phase h) [
            | inl (same, new) ↦
                subst (λ x. lookup x (insert key f.next_event f.in_flight) ≡ some e) (cc new)
                  (lookup-inserted key f.next_event f.in_flight ∙ cc new)
            | inr (ne, old) ↦
                lookup_other key k f.next_event f.in_flight (nobody_produces j k e old)
                ∙ coherent.owns j k e old
          ];
      owned = λ k e h. elim (Bool-cases (k == key)) [
        | inl same ↦
            let k_same : k ≡ key = (==_iff k key).0 same in
            let found : some f.next_event ≡ some e =
              sym (lookup-inserted key f.next_event f.in_flight)
              ∙ ap (λ x. lookup x (insert key f.next_event f.in_flight)) (sym k_same)
              ∙ h in
            (i, at_phase_self i (producing key f.next_event) f.phase ∙ cc (found, k_same))
        | inr other ↦
            let ne : k ≢ key = ground (arith, ==_iff k key, other) in
            let (j, old) =
              coherent.owned k e (sym (lookup_other key k f.next_event f.in_flight ne) ∙ h) in
            (j, still_produces f i (producing key f.next_event) coherent not_producing j k e old)
      ];
      alone = claimed_alone;
      awaited = λ j k e h.
          elim (at_phase-cases i j (producing key f.next_event) (waiting k e) f.phase h) [
            | inl (same, new) ↦ absurd (cc new)
            | inr (ne, old) ↦
                still_awaited f i (producing key f.next_event) coherent not_producing k e
                  (coherent.awaited j k e old)
          ];
    }
