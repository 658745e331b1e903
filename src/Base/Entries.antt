-- ===== src/Base/Entries.antt =====
-- A `Map` under writes and deletions: what holds of its values, and what is still found.
use mathlib.Core.Path.{◌≡◌, refl, subst}
use mathlib.Core.Logic.{inl, inr}
use mathlib.Core.Bool.{Bool, true, false}
use mathlib.Core.Option.{none, some}
use mathlib.Core.List.{[], ◌∷◌}
use Prim.Native.Nat.{ℕ, ◌+◌, ◌≤◌}
use native.Mathlib.Omega.{arith}
use festival.Base.Tests.{Bool-cases, is_some, ◌==◌, if◌then◌else◌}
use festival.Base.Lists.{count, All}
use festival.Base.Maps.{Dict, lookup, insert, values, nat_eq}
use festival.Base.Records.{Keyed, remove}

module _ {ℓ} {V : Type ℓ} where
  -- The loop that deletes the entries whose value passes a test: each deletes its own identifier,
  -- which is its key.
  abbrev pub discard : (V → Bool) → Dict ℕ V → Dict ℕ V
  discard p [] = []
  discard p ((k, v) ∷ m) = let rest = discard p m in if p v then rest else (k, v) ∷ rest

  pub count-values-insert_new :
      (p : V → Bool) (k : ℕ) (v : V) (m : Dict ℕ V)
      → lookup k m ≡ none
      → count p (values (insert k v m)) ≡ count p (values m) + (if p v then 1 else 0)
  count-values-insert_new p k v [] h = ground arith
  count-values-insert_new p k v ((j, w) ∷ m) h = ground (arith, count-values-insert_new p k v m)

  pub lookup-insert_some :
      (j k : ℕ) (v : V) (m : Dict ℕ V)
      → is_some (lookup j m) ≡ true
      → is_some (lookup j (insert k v m)) ≡ true
  lookup-insert_some j k v [] h = cc
  lookup-insert_some j k v ((i, w) ∷ m) h = ground (arith, lookup-insert_some j k v m)

  pub lookup-discard :
      (p : V → Bool) (k : ℕ) (v : V) (m : Dict ℕ V)
      → lookup k m ≡ some v
      → p v ≡ false
      → lookup k (discard p m) ≡ some v
  lookup-discard p k v [] h e = cc
  lookup-discard p k v ((j, w) ∷ m) h e = ground (arith, lookup-discard p k v m)

  lookup-discard-none :
      (p : V → Bool) (k : ℕ) (m : Dict ℕ V) → lookup k m ≡ none → lookup k (discard p m) ≡ none
  lookup-discard-none p k [] h = refl
  lookup-discard-none p k ((j, w) ∷ m) h = ground (arith, lookup-discard-none p k m)

  pub discard-Keyed :
      (key : V → ℕ) (p : V → Bool) (m : Dict ℕ V) → Keyed key m → Keyed key (discard p m)
  discard-Keyed key p [] h = tt
  discard-Keyed key p ((k, v) ∷ m) (e, fresh, rest) =
      ground (arith, e, fresh, discard-Keyed key p m rest, lookup-discard-none p k m fresh)

  pub count-discard :
      (q p : V → Bool) (m : Dict ℕ V) → count q (values (discard p m)) ≤ count q (values m)
  count-discard q p [] = omega arith
  count-discard q p ((k, v) ∷ m) = ground (arith, count-discard q p m)

  pub lookup-remove_ne :
      (j k : ℕ) (m : Dict ℕ V) → k == j ≡ false → lookup j (remove k m) ≡ lookup j m
  lookup-remove_ne j k [] h = refl
  lookup-remove_ne j k ((i, w) ∷ m) h = ground (arith, lookup-remove_ne j k m)

  lookup-remove-none : (j k : ℕ) (m : Dict ℕ V) → lookup j m ≡ none → lookup j (remove k m) ≡ none
  lookup-remove-none j k [] h = refl
  lookup-remove-none j k ((i, w) ∷ m) h = ground (arith, lookup-remove-none j k m)

  pub remove-Keyed : (key : V → ℕ) (k : ℕ) (m : Dict ℕ V) → Keyed key m → Keyed key (remove k m)
  remove-Keyed key k [] h = tt
  remove-Keyed key k ((j, v) ∷ m) (e, fresh, rest) =
      ground (arith, e, fresh, remove-Keyed key k m rest, lookup-remove-none j k m fresh)

module _ {ℓ κ} {V : Type ℓ} (P : V → Type κ) where
  pub insert-All :
      (k : ℕ) (v : V) (m : Dict ℕ V) → P v → All P (values m) → All P (values (insert k v m))
  insert-All k v [] p h = (p, tt)
  insert-All k v ((j, w) ∷ m) p (q, h) = elim (Bool-cases (j == k)) [
    | inl e ↦ rw (insert, e) (p, h)
    | inr e ↦ rw (insert, e) (q, insert-All k v m p h)
  ]

  pub discard-All :
      (p : V → Bool) (m : Dict ℕ V)
      → All P (values m)
      → All (λ v. P v × (p v ≡ false)) (values (discard p m))
  discard-All p [] h = tt
  discard-All p ((j, w) ∷ m) (q, h) = elim (Bool-cases (p w)) [
    | inl e ↦ rw (discard, e) (discard-All p m h)
    | inr e ↦ rw (discard, e) ((q, e), discard-All p m h)
  ]

  pub remove-All : (k : ℕ) (m : Dict ℕ V) → All P (values m) → All P (values (remove k m))
  remove-All k [] h = tt
  remove-All k ((j, w) ∷ m) (q, h) = elim (Bool-cases (j == k)) [
    | inl e ↦ rw (remove, e) (remove-All k m h)
    | inr e ↦ rw (remove, e) (q, remove-All k m h)
  ]

  pub lookup-All : (k : ℕ) (v : V) (m : Dict ℕ V) → lookup k m ≡ some v → All P (values m) → P v
  lookup-All k v [] e h = cc
  lookup-All k v ((j, w) ∷ m) e (q, h) = elim (Bool-cases (j == k)) [
    | inl f ↦ subst P (ground (arith, e, f)) q
    | inr f ↦ lookup-All k v m (ground (arith, e, f)) h
  ]
