-- ===== src/Prelude/Equality.antt =====
-- Hashable values, of which the code uses that `==` decides equality.
use Prim.Native.Nat.{ℕ}
use Prim.Native.String.{String}
use mathlib.Core.Bool.{Bool, true}
use mathlib.Core.Logic.{◌↔◌}
use mathlib.Core.Path.{◌≡◌, refl}
use text.Mathlib.Text
use text.Mathlib.TextEquality.{eq_iff}
use pydecorators.Prelude.Tests.{nat_beq, nat_beq_iff}

-- Keys of dictionaries.
pub record Hashable {ℓ} (K : Type ℓ) : Type ℓ where
  pub equals : K → K → Bool
  pub equals_iff : (x y : K) → (equals x y ≡ true) ↔ (x ≡ y)

infix 50 ◌==◌
abbrev pub ◌==◌ {ℓ} : {K : Type ℓ} ⦃h : Hashable K⦄ → K → K → Bool
◌==◌ ⦃h⦄ x y = h.equals x y

pub ==_iff {ℓ} : {K : Type ℓ} ⦃h : Hashable K⦄ (x y : K) → ((x == y) ≡ true) ↔ (x ≡ y)
==_iff ⦃h⦄ x y = h.equals_iff x y

pub ==_refl {ℓ} : {K : Type ℓ} ⦃h : Hashable K⦄ (x : K) → (x == x) ≡ true
==_refl x = (==_iff x x).1 refl

instance abbrev pub string_eq : Hashable String
string_eq = record { equals = λ s t. Text.◌==◌ s t; equals_iff = eq_iff }

instance abbrev pub nat_eq : Hashable ℕ
nat_eq = record { equals = nat_beq; equals_iff = nat_beq_iff }
