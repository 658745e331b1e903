-- ===== src/Base/Maps.antt =====
-- A JavaScript `Map`: an association list in insertion order. `K` is the type of keys, and the
-- program compares keys for equality only.
use mathlib.Core.Path.{◌≡◌}
use mathlib.Core.Logic.{◌↔◌}
use mathlib.Core.Bool.{Bool, true}
use mathlib.Core.Option.{Option, none, some}
use mathlib.Core.List.{List, [], ◌∷◌}
use Prim.Native.Nat.{ℕ}
use native.Mathlib.Omega.{arith}
use festival.Base.Tests.{◌==◌, ==_iff, pair_eq, if◌then◌else◌}

pub record Eq {ℓ} (K : Type ℓ) : Type ℓ where
  pub beq : K → K → Bool
  pub beq_iff : (a b : K) → (beq a b ≡ true) ↔ (a ≡ b)

pub pair_eq_iff : (a b : ℕ × ℕ) → (pair_eq a b ≡ true) ↔ (a ≡ b)
pair_eq_iff a b = ground arith

instance abbrev pub nat_eq : Eq ℕ
nat_eq = record { beq = ◌==◌; beq_iff = ==_iff }

instance abbrev pub nat_pair_eq : Eq (ℕ × ℕ)
nat_pair_eq = record { beq = pair_eq; beq_iff = pair_eq_iff }

abbrev pub Dict {ℓ κ} : Type ℓ → Type κ → Type (ℓ ⊔ κ)
Dict K V = List (K × V)

module _ {ℓ κ} {K : Type ℓ} {V : Type κ} ⦃e : Eq K⦄ where
  -- `m.get(k)`
  abbrev pub lookup : K → Dict K V → Option V
  lookup k [] = none
  lookup k ((j, v) ∷ m) = let rest = lookup k m in if e.beq j k then some v else rest

  -- `m.set(k, v)`
  abbrev pub insert : K → V → Dict K V → Dict K V
  insert k v [] = (k, v) ∷ []
  insert k v ((j, w) ∷ m) =
      let rest = insert k v m in if e.beq j k then (k, v) ∷ m else (j, w) ∷ rest

  -- `[...m.values()]`
  abbrev pub values : Dict K V → List V
  values [] = []
  values ((j, v) ∷ m) = v ∷ values m
