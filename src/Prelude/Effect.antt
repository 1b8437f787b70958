-- ===== src/Prelude/Effect.antt =====
-- Python code with side effects: a state of the world, which stays changed after a raise, and a
-- result or an exception.

use mathlib.Core.Path.{◌≡◌, ap}

pub data Outcome (E A : Type 0) : Type 0 where
  returned : A → Outcome E A
  raised : E → Outcome E A

abbrev pub Action : Type 0 → Type 0 → Type 0 → Type 0
Action W E A = W → Outcome E A × W

module _ {W E : Type 0} where
  abbrev pub pure : {A : Type 0} → A → Action W E A
  pure a w = (returned a, w)

  abbrev pub raise : {A : Type 0} → E → Action W E A
  raise e w = (raised e, w)

  -- go on with a result, pass an exception on
  abbrev pub resume : {A B : Type 0} → (A → Action W E B) → Outcome E A × W → Outcome E B × W
  resume f (returned a, w) = f a w
  resume f (raised e, w) = (raised e, w)

  infixl 5 ◌>>=◌ ◌>>◌
  abbrev pub ◌>>=◌ : {A B : Type 0} → Action W E A → (A → Action W E B) → Action W E B
  ◌>>=◌ m f w = resume f (m w)

  abbrev pub ◌>>◌ : {A B : Type 0} → Action W E A → Action W E B → Action W E B
  m >> k = m >>= λ _. k

  pub bind_returned :
      {A B : Type 0} (m : Action W E A) (f : A → Action W E B) (w w' : W) (a : A)
      → m w ≡ (returned a, w')
      → (m >>= f) w ≡ f a w'
  bind_returned m f w w' a h = ap (resume f) h
