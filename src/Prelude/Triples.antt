-- ===== src/Prelude/Triples.antt =====
-- Triples for actions: what holds of the state before and after, of a result and of an exception.
use pydecorators.Prelude.Effect.{Outcome, returned, raised, Action, resume, ◌>>=◌}

module _ {W E : Type 0} where
  abbrev pub Meets :
      {A : Type 0} → (W → Type 0) → (A → Type 0) → (E → Type 0) → Outcome E A × W → Type 0
  Meets H Q R (returned a, w) = Q a × H w
  Meets H Q R (raised e, w) = R e × H w

  -- From a state with `H`, the action ends in one with `H`, with a `Q` or with an exception in `R`.
  abbrev pub Triple :
      {A : Type 0} → (W → Type 0) → (A → Type 0) → (E → Type 0) → Action W E A → Type 0
  Triple H Q R m = (w : W) → H w → Meets H Q R (m w)

  module _ (H : W → Type 0) (R : E → Type 0) where
    pub resume-Meets :
        {A B : Type 0} (P : A → Type 0) (Q : B → Type 0) (f : A → Action W E B)
        (r : Outcome E A × W)
        → Meets H P R r
        → ((a : A) → P a → Triple H Q R (f a))
        → Meets H Q R (resume f r)
    resume-Meets P Q f (returned a, w) h k = k a h.0 w h.1
    resume-Meets P Q f (raised e, w) h k = h

    pub bind-Triple :
        {A B : Type 0} (P : A → Type 0) (Q : B → Type 0) (m : Action W E A) (f : A → Action W E B)
        → Triple H P R m
        → ((a : A) → P a → Triple H Q R (f a))
        → Triple H Q R (m >>= f)
    bind-Triple P Q m f h k w hw = resume-Meets P Q f (m w) (h w hw) k

    pub holds_after : {A : Type 0} (Q : A → Type 0) (r : Outcome E A × W) → Meets H Q R r → H r.1
    holds_after Q (returned a, w) h = h.1
    holds_after Q (raised e, w) h = h.1

  pub raises-Meets :
      {A : Type 0} (H : W → Type 0) (Q : A → Type 0) (R R' : E → Type 0) (r : Outcome E A × W)
      → ((e : E) → R e → R' e)
      → Meets H Q R r
      → Meets H Q R' r
  raises-Meets H Q R R' (returned a, w) k h = h
  raises-Meets H Q R R' (raised e, w) k h = (k e h.0, h.1)
