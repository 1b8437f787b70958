-- ===== src/CacheResult/Coalescing/Finishing.antt =====
-- A producer ends: its event is set, and its key is free.
use pydecorators.Prelude.{
  ℕ, ◌≡◌, ◌≢◌, refl, inl, inr, true, none, some, arith, Hashable, ◌==◌, ==_iff, ==_refl, nat_eq,
  Bool-cases, sym, ap, subst, ◌∙◌,
}
use pydecorators.Prelude.Dict.{lookup, erase, lookup-erase, erase-IsDistinct}
use pydecorators.CacheResult.Coalescing.{
  Phase, idle, producing, waiting, Flight, at_phase, mark, drop_event, finish,
}
use pydecorators.CacheResult.Coalescing.Producers.{
  at_phase-cases, at_phase_other, none_is_not_some, IsAwaited, IsCoherent,
}

module _ {K : Type 0} ⦃h : Hashable K⦄ where
  module _ (f : Flight K) (i : ℕ) (key : K) (event : ℕ) (coherent : IsCoherent f)
      (producing_key : f.phase i ≡ producing key event) where
    abbrev end_phase : ℕ → Phase K
    end_phase = at_phase i idle f.phase

    dropped : drop_event key event f.in_flight (lookup key f.in_flight) ≡ erase key f.in_flight
    dropped =
        ap (drop_event key event f.in_flight) (coherent.owns i key event producing_key)
        ∙ rw (==_refl event) refl

    lookup_kept : (k : K) → k ≢ key → lookup k (erase key f.in_flight) ≡ lookup k f.in_flight
    lookup_kept k ne =
        lookup-erase key k f.in_flight coherent.distinct ∙ ground (arith, ==_iff k key, ne)

    lookup_dropped : lookup key (erase key f.in_flight) ≡ none
    lookup_dropped = lookup-erase key key f.in_flight coherent.distinct ∙ rw (==_refl key) refl

    -- Who produces afterwards did so before, for another key.
    did_produce :
        (j : ℕ) (k : K) (e : ℕ)
        → end_phase j ≡ producing k e
        → (f.phase j ≡ producing k e) × (k ≢ key)
    did_produce j k e h = elim (at_phase-cases i j idle (producing k e) f.phase h) [
      | inl (same, new) ↦ absurd (cc new)
      | inr (ne, old) ↦ (
        old,
        λ same. ne (
            coherent.alone j i k e event old
              (producing_key ∙ ap (λ x. producing x event) (sym same))),
      )
    ]

    does_produce :
        (j : ℕ) (k : K) (e : ℕ) → f.phase j ≡ producing k e → j ≢ i → end_phase j ≡ producing k e
    does_produce j k e old ne = at_phase_other i j idle f.phase ne ∙ old

    abbrev ended : Flight K
    ended = record f {
      in_flight = erase key f.in_flight;
      is_set = mark event f.is_set;
      phase = end_phase;
    }

    event_set : mark event f.is_set event ≡ true
    event_set = rw (==_refl event) refl

    stays_set : (e : ℕ) → f.is_set e ≡ true → mark event f.is_set e ≡ true
    stays_set e set = ground (arith, set)

    ended-IsAwaited : (k : K) (e : ℕ) → IsAwaited f k e → IsAwaited ended k e
    ended-IsAwaited k e (inl set) = inl (stays_set e set)
    ended-IsAwaited k e (inr (j, old)) = elim (Bool-cases (j == i)) [
      | inl same ↦
          let both : producing key event ≡ producing k e =
            sym producing_key ∙ ap f.phase (sym ((==_iff j i).0 same)) ∙ old in
          inl (subst (λ x. mark event f.is_set x ≡ true) (cc both) event_set)
      | inr other ↦ inr (j, does_produce j k e old (ground (arith, ==_iff j i, other)))
    ]

    ended_owned :
        (k : K) (e : ℕ)
        → lookup k (erase key f.in_flight) ≡ some e
        → (j : ℕ) × (end_phase j ≡ producing k e)
    ended_owned k e h = elim (Bool-cases (k == key)) [
      | inl same ↦ absurd (
          none_is_not_some e (
            sym lookup_dropped
            ∙ ap (λ x. lookup x (erase key f.in_flight)) (sym ((==_iff k key).0 same))
            ∙ h))
      | inr other ↦
          let ne : k ≢ key = ground (arith, ==_iff k key, other) in
          let (j, old) = coherent.owned k e (sym (lookup_kept k ne) ∙ h) in
          (
            j,
            does_produce j k e old
                (λ same. ne (cc (sym producing_key ∙ ap f.phase (sym same) ∙ old))),
          )
    ]

    ended-IsCoherent : IsCoherent ended
    ended-IsCoherent = record {
      distinct = erase-IsDistinct key f.in_flight coherent.distinct;
      owns = λ j k e h.
          let (old, ne) = did_produce j k e h in lookup_kept k ne ∙ coherent.owns j k e old;
      owned = ended_owned;
      alone = λ j m k e e' h h'.
          coherent.alone j m k e e' (did_produce j k e h).0 (did_produce m k e' h').0;
      awaited = λ j k e h. elim (at_phase-cases i j idle (waiting k e) f.phase h) [
        | inl (same, new) ↦ absurd (cc new)
        | inr (ne, old) ↦ ended-IsAwaited k e (coherent.awaited j k e old)
      ];
    }

    pub finish-IsCoherent : IsCoherent (finish i key event f)
    finish-IsCoherent =
        subst
          (λ d.
            IsCoherent
              (record f { in_flight = d; is_set = mark event f.is_set; phase = end_phase }))
          (sym dropped) ended-IsCoherent
