-- ===== src/Base/Dicts.antt =====
-- Laws of a `Map` as an association list: what is read after a write, and the values as a list.
use mathlib.Core.Path.{◌≡◌}
use mathlib.Core.Bool.{Bool, false}
use mathlib.Core.Option.{some}
use mathlib.Core.List.{[], ◌∷◌}
use Prim.Native.Nat.{ℕ, ◌+◌}
use native.Mathlib.Omega.{arith}
use festival.Base.Tests.{◌==◌, if◌then◌else◌}
use festival.Base.Lists.{count}
use festival.Base.Maps.{Dict, lookup, insert, values, nat_eq, nat_pair_eq}

module _ {ℓ} {V : Type ℓ} where
  pub lookup-insert : (k : ℕ) (v : V) (m : Dict ℕ V) → lookup k (insert k v m) ≡ some v
  lookup-insert k v [] = ground arith
  lookup-insert k v ((j, w) ∷ m) = ground (arith, lookup-insert k v m)

  pub lookup-insert_pair :
      (k : ℕ × ℕ) (v : V) (m : Dict (ℕ × ℕ) V) → lookup k (insert k v m) ≡ some v
  lookup-insert_pair k v [] = ground arith
  lookup-insert_pair k v ((j, w) ∷ m) = ground (arith, lookup-insert_pair k v m)

  pub lookup-insert_ne :
      (k j : ℕ) (v : V) (m : Dict ℕ V) → k == j ≡ false → lookup j (insert k v m) ≡ lookup j m
  lookup-insert_ne k j v [] h = ground arith
  lookup-insert_ne k j v ((i, w) ∷ m) h = ground (arith, lookup-insert_ne k j v m h)

  -- A write to a key that is there replaces its value among the values.
  pub count-values-insert :
      (p : V → Bool) (k : ℕ) (old v : V) (m : Dict ℕ V)
      → lookup k m ≡ some old
      → count p (values (insert k v m)) + (if p old then 1 else 0)
        ≡ count p (values m) + (if p v then 1 else 0)
  count-values-insert p k old v [] h = cc
  count-values-insert p k old v ((j, w) ∷ m) h = ground (arith, count-values-insert p k old v m)
