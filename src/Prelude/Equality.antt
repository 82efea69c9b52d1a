-- ===== src/Prelude/Equality.antt =====
-- Python's `==` on ids and texts, as an interface with its two instances.
use Prim.Native.Nat.{ℕ}
use Prim.Native.String.{String}
use mathlib.Core.Path.{◌≡◌}
use mathlib.Core.Logic.{◌↔◌}
use mathlib.Core.Bool.{Bool, true}
use text.Mathlib.Text
use text.Mathlib.TextEquality.{eq_iff}
use sieshka.Prelude.Tests.{nat_beq, nat_beq_iff}

-- A test on keys, and that it decides their equality.
pub record Eq {ℓ} (K : Type ℓ) : Type ℓ where
  pub same : K → K → Bool
  pub same_iff : (j k : K) → (same j k ≡ true) ↔ (j ≡ k)

instance abbrev pub string_eq : Eq String
string_eq = record { same = Text.◌==◌; same_iff = eq_iff }

instance abbrev pub nat_eq : Eq ℕ
nat_eq = record { same = nat_beq; same_iff = nat_beq_iff }

module _ {ℓ} {K : Type ℓ} ⦃e : Eq K⦄ where
  infix 50 ◌==◌
  abbrev pub ◌==◌ : K → K → Bool
  j == k = e.same j k
