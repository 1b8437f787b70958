-- ===== src/CacheResult/Coalescing/Waiters.antt =====
-- Any interleaving of threads: one producer for a key, and no thread waits in vain.
use pydecorators.Prelude.{
  ℕ, ◌+◌, ◌≡◌, inl, inr, Bool, true, false, [], Hashable, nat_eq, Option-cases, sym, ap, subst, ◌∙◌,
}
use pydecorators.Prelude.Dict.{lookup, IsDistinct}
use pydecorators.CacheResult.Coalescing.{
  idle, claiming, waiting, Flight, wake, claim_event, claim, Step, misses, claims, finishes, wakes,
  Reach, start, next,
}
use pydecorators.CacheResult.Coalescing.Producers.{IsCoherent, moved-IsCoherent, claimed-IsCoherent}
use pydecorators.CacheResult.Coalescing.Finishing.{finish-IsCoherent}

module _ {K : Type 0} ⦃h : Hashable K⦄ where
  claim-IsCoherent :
      (f : Flight K) (i : ℕ) (key : K)
      → IsCoherent f
      → f.phase i ≡ claiming key
      → IsCoherent (claim i key f)
  claim-IsCoherent f i key coherent at = elim (Option-cases (lookup key f.in_flight)) [
    | inl free ↦
        subst (λ o. IsCoherent (claim_event i key f o)) (sym free)
          (claimed-IsCoherent f i key coherent at free)
    | inr (event, found) ↦
        subst (λ o. IsCoherent (claim_event i key f o)) (sym found)
          (moved-IsCoherent f i (waiting key event) coherent (λ k e now. cc (at, now))
            f.total_waiters (λ k e new. cc new)
            (λ k e new. let (j, owner) = coherent.owned key event found in inr (j, owner ∙ cc new)))
  ]

  wake-IsCoherent :
      (f : Flight K) (i : ℕ) (key : K) (event : ℕ) (hit : Bool)
      → IsCoherent f
      → f.phase i ≡ waiting key event
      → IsCoherent (wake i key hit f)
  wake-IsCoherent f i key event true coherent at =
      moved-IsCoherent f i idle coherent (λ k e now. cc (at, now)) (f.total_waiters + 1)
        (λ k e new. cc new) (λ k e new. absurd (cc new))
  wake-IsCoherent f i key event false coherent at =
      moved-IsCoherent f i (claiming key) coherent (λ k e now. cc (at, now)) (f.total_waiters + 1)
        (λ k e new. cc new) (λ k e new. absurd (cc new))

  Step-IsCoherent : (f g : Flight K) → Step f g → IsCoherent f → IsCoherent g
  Step-IsCoherent f g (misses _ i key at) coherent =
      moved-IsCoherent f i (claiming key) coherent (λ k e now. cc (at, now)) f.total_waiters
        (λ k e new. cc new) (λ k e new. absurd (cc new))
  Step-IsCoherent f g (claims _ i key at) coherent = claim-IsCoherent f i key coherent at
  Step-IsCoherent f g (finishes _ i key event at) coherent =
      finish-IsCoherent f i key event coherent at
  Step-IsCoherent f g (wakes _ i key event hit at set) coherent =
      wake-IsCoherent f i key event hit coherent at

  -- No key is in flight, and no thread is in a call.
  abbrev pub IsQuiet : Flight K → Type 0
  IsQuiet f = (f.in_flight ≡ []) × ((i : ℕ) → f.phase i ≡ idle)

  quiet-IsCoherent : (f : Flight K) → IsQuiet f → IsCoherent f
  unfolding lookup
  quiet-IsCoherent f quiet = record {
    distinct = subst IsDistinct (sym quiet.0) tt;
    owns = λ i key e now. absurd (cc (quiet.1 i, now));
    owned = λ key e found. absurd (cc (sym (ap (lookup key) quiet.0) ∙ found));
    alone = λ i j key e e' now now'. absurd (cc (quiet.1 i, now));
    awaited = λ i key e now. absurd (cc (quiet.1 i, now));
  }

  -- However the threads interleave, from a decorator that no thread is in: a key is in flight exactly
  -- if some thread computes for it, and that thread is the only one for this key; and every event that
  -- a thread waits for is set, or a thread computes for it, and will set it.
  pub Reach-IsCoherent : (f g : Flight K) → IsQuiet f → Reach f g → IsCoherent g
  Reach-IsCoherent f g quiet (start _) = quiet-IsCoherent f quiet
  Reach-IsCoherent f g quiet (next _ mid _ reach step) =
      Step-IsCoherent mid g step (Reach-IsCoherent f mid quiet reach)
