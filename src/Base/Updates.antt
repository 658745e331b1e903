-- ===== src/Base/Updates.antt =====
-- A map whose values are all passed through a function, and a value that is written in its place.
use mathlib.Core.Path.{◌≡◌, refl}
use mathlib.Core.Bool.{Bool, true, false}
use mathlib.Core.Option.{none, some}
use mathlib.Core.List.{[], ◌∷◌}
use mathlib.Core.Logic.{inl, inr}
use Prim.Native.Nat.{ℕ}
use native.Mathlib.Omega.{arith}
use festival.Base.Tests.{Bool-cases}
use festival.Base.Lists.{count, find?}
use festival.Base.Maps.{Dict, lookup, insert, values, nat_eq}
use festival.Base.Records.{Keyed}

module _ {ℓ} {V : Type ℓ} where
  abbrev pub map_values : (V → V) → Dict ℕ V → Dict ℕ V
  map_values f [] = []
  map_values f ((k, v) ∷ m) = (k, f v) ∷ map_values f m

  pub lookup-map_values-none :
      (f : V → V) (k : ℕ) (m : Dict ℕ V) → lookup k m ≡ none → lookup k (map_values f m) ≡ none
  lookup-map_values-none f k [] h = refl
  lookup-map_values-none f k ((j, v) ∷ m) h = ground (arith, h, lookup-map_values-none f k m)

  pub lookup-map_values :
      (f : V → V) (k : ℕ) (v : V) (m : Dict ℕ V)
      → lookup k m ≡ some v
      → lookup k (map_values f m) ≡ some (f v)
  lookup-map_values f k v [] h = ground (arith, h)
  lookup-map_values f k v ((j, w) ∷ m) h = ground (arith, h, lookup-map_values f k v m)

  pub map_values-Keyed :
      (key : V → ℕ) (f : V → V) (m : Dict ℕ V)
      → ((v : V) → key (f v) ≡ key v)
      → Keyed key m
      → Keyed key (map_values f m)
  map_values-Keyed key f [] same h = tt
  map_values-Keyed key f ((k, v) ∷ m) same (e, fresh, rest) =
      ground
        (arith, e, same v, lookup-map_values-none f k m fresh, map_values-Keyed key f m same rest)

  pub count-map_values :
      (p q : V → Bool) (f : V → V) (m : Dict ℕ V)
      → ((v : V) → p (f v) ≡ q v)
      → count p (values (map_values f m)) ≡ count q (values m)
  count-map_values p q f [] h = refl
  count-map_values p q f ((k, v) ∷ m) h = ground (arith, h v, count-map_values p q f m h)

  -- A value that is found by a test is found under its key.
  pub find?-lookup :
      (key : V → ℕ) (p : V → Bool) (v : V) (m : Dict ℕ V)
      → Keyed key m
      → find? p (values m) ≡ some v
      → lookup (key v) m ≡ some v
  find?-lookup key p v [] h found = ground (arith, found)
  find?-lookup key p v ((k, w) ∷ m) (e, fresh, rest) found = elim (Bool-cases (p w)) [
    | inl t ↦ ground (arith, t, found, e)
    | inr t ↦ ground (arith, t, found, e, fresh, find?-lookup key p v m rest)
  ]

  -- The value that is found first is found first in its new form.
  pub find?-insert :
      (key : V → ℕ) (p : V → Bool) (old v : V) (m : Dict ℕ V)
      → Keyed key m
      → find? p (values m) ≡ some old
      → p v ≡ true
      → find? p (values (insert (key old) v m)) ≡ some v
  find?-insert key p old v [] h found q = ground (arith, found)
  find?-insert key p old v ((k, w) ∷ m) (e, fresh, rest) found q = elim (Bool-cases (p w)) [
    | inl t ↦ ground (arith, t, found, e, q)
    | inr t ↦
        ground
          (arith, t, found, fresh, find?-lookup key p old m rest, find?-insert key p old v m rest)
  ]

  pub find?-map_values :
      (p : V → Bool) (f : V → V) (v : V) (m : Dict ℕ V)
      → ((w : V) → p (f w) ≡ p w)
      → find? p (values m) ≡ some v
      → find? p (values (map_values f m)) ≡ some (f v)
  find?-map_values p f v [] same h = ground (arith, h)
  find?-map_values p f v ((k, w) ∷ m) same h =
      ground (arith, h, same w, find?-map_values p f v m same)

  -- What is found first is still found first after another entry is added.
  pub find?-insert_new :
      (p : V → Bool) (k : ℕ) (v w : V) (m : Dict ℕ V)
      → lookup k m ≡ none
      → find? p (values m) ≡ some v
      → find? p (values (insert k w m)) ≡ some v
  find?-insert_new p k v w [] fresh h = ground (arith, h)
  find?-insert_new p k v w ((j, x) ∷ m) fresh h =
      ground (arith, fresh, h, find?-insert_new p k v w m)

  -- What is found first is still found first after another entry, told apart by a test, is written
  -- in its place.
  pub find?-insert_other :
      (p q : V → Bool) (k : ℕ) (v old w : V) (m : Dict ℕ V)
      → lookup k m ≡ some old
      → p w ≡ p old
      → q old ≡ true
      → q v ≡ false
      → find? p (values m) ≡ some v
      → find? p (values (insert k w m)) ≡ some v
  find?-insert_other p q k v old w [] there same a b h = ground (arith, h)
  find?-insert_other p q k v old w ((j, x) ∷ m) there same a b h =
      ground (arith, there, same, a, b, h, find?-insert_other p q k v old w m)
