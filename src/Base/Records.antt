-- ===== src/Base/Records.antt =====
-- A `Map` whose records hold their own key, and no key twice.
use mathlib.Core.Path.{◌≡◌, refl}
use mathlib.Core.Logic.{inl, inr}
use mathlib.Core.Option.{none, some}
use mathlib.Core.List.{[], ◌∷◌}
use Prim.Native.Nat.{ℕ}
use native.Mathlib.Omega.{arith}
use festival.Base.Tests.{Bool-cases, ◌==◌, if◌then◌else◌}
use festival.Base.Lists.{All, All-map}
use festival.Base.Maps.{Dict, lookup, insert, values, nat_eq}
use festival.Base.Dicts.{lookup-insert_ne}

module _ {ℓ} {V : Type ℓ} where
  -- `m.delete(k)`
  abbrev pub remove : ℕ → Dict ℕ V → Dict ℕ V
  remove k [] = []
  remove k ((j, w) ∷ m) = let rest = remove k m in if j == k then rest else (j, w) ∷ rest

  abbrev pub Keyed : (V → ℕ) → Dict ℕ V → Type ℓ
  Keyed key [] = Unit
  Keyed key ((k, v) ∷ m) = (key v ≡ k) × (lookup k m ≡ none) × Keyed key m

module _ {ℓ} {V : Type ℓ} (key : V → ℕ) where
  pub insert-Keyed :
      (k : ℕ) (v : V) (m : Dict ℕ V) → key v ≡ k → Keyed key m → Keyed key (insert k v m)
  insert-Keyed k v [] e h = (e, refl, tt)
  insert-Keyed k v ((j, w) ∷ m) e (kw, fresh, rest) = elim (Bool-cases (j == k)) [
    | inl q ↦ ground (arith, e, kw, fresh, rest)
    | inr q ↦ ground (arith, kw, fresh, insert-Keyed k v m e rest, lookup-insert_ne k j v m)
  ]

  pub lookup_key : (k : ℕ) (v : V) (m : Dict ℕ V) → Keyed key m → lookup k m ≡ some v → key v ≡ k
  lookup_key k v [] h e = ground arith
  lookup_key k v ((j, w) ∷ m) (kw, fresh, rest) e = ground (arith, kw, lookup_key k v m rest)

  -- Every value is found under its key.
  pub Keyed-found : (m : Dict ℕ V) → Keyed key m → All (λ v. lookup (key v) m ≡ some v) (values m)
  Keyed-found [] h = tt
  Keyed-found ((k, w) ∷ m) (kw, fresh, rest) = (
    ground (arith, kw),
    All-map (λ v e. ground (arith, e, fresh)) (values m) (Keyed-found m rest),
  )
