-- ===== src/Base/Sort.antt =====
-- `Array.prototype.sort`, which is stable: an insertion sort. `before a b` says that the comparison
-- of `a` with `b` is negative or zero.
use mathlib.Core.Path.{subst, ◌≡◌}
use Prim.Native.Nat.{◌+◌}
use native.Mathlib.Omega.{arith}
use festival.Base.Lists.{All-map, All-length_zero, List-cases, All, length}
use mathlib.Core.Logic.{inl, inr}
use mathlib.Core.Bool.{true, false, Bool}
use mathlib.Core.List.{List, [], ◌∷◌}
use festival.Base.Tests.{Bool-cases, if◌then◌else◌}

unfoldable pub insert_sorted {ℓ} : {A : Type ℓ} → (A → A → Bool) → A → List A → List A
insert_sorted before x [] = x ∷ []
insert_sorted before x (y ∷ ys) =
    let rest = insert_sorted before x ys in if before x y then x ∷ y ∷ ys else y ∷ rest

unfoldable pub sort {ℓ} : {A : Type ℓ} → (A → A → Bool) → List A → List A
unfolding insert_sorted
sort before [] = []
sort before (x ∷ xs) = insert_sorted before x (sort before xs)

length-insert_sorted {ℓ} :
    {A : Type ℓ} (before : A → A → Bool) (x : A) (xs : List A)
    → length (insert_sorted before x xs) ≡ length xs + 1
unfolding insert_sorted
length-insert_sorted before x [] = omega arith
length-insert_sorted before x (y ∷ ys) = ground (arith, length-insert_sorted before x ys)

pub length-sort {ℓ} :
    {A : Type ℓ} (before : A → A → Bool) (xs : List A) → length (sort before xs) ≡ length xs
unfolding sort
length-sort before [] = omega arith
length-sort before (x ∷ xs) =
    ground (arith, length-sort before xs, length-insert_sorted before x (sort before xs))

insert_sorted-All {ℓ κ} :
    {A : Type ℓ} (P : A → Type κ) (before : A → A → Bool) (x : A) (xs : List A)
    → P x
    → All P xs
    → All P (insert_sorted before x xs)
unfolding insert_sorted
insert_sorted-All P before x [] p h = (p, tt)
insert_sorted-All P before x (y ∷ ys) p (q, h) = elim (Bool-cases (before x y)) [
  | inl e ↦ rw (insert_sorted, e) (p, (q, h))
  | inr e ↦ rw (insert_sorted, e) (q, insert_sorted-All P before x ys p h)
]

pub sort-All {ℓ κ} :
    {A : Type ℓ} (P : A → Type κ) (before : A → A → Bool) (xs : List A)
    → All P xs
    → All P (sort before xs)
unfolding sort
sort-All P before [] h = tt
sort-All P before (x ∷ xs) (p, h) =
    insert_sorted-All P before x (sort before xs) p (sort-All P before xs h)

module _ {ℓ} {A : Type ℓ} (before : A → A → Bool)
    (total : (x y : A) → before x y ≡ false → before y x ≡ true)
    (refl_before : (x : A) → before x x ≡ true)
    (trans : (x y z : A) → before x y ≡ true → before y z ≡ true → before x z ≡ true) where
  -- The first of a sorted list stands before all of the list.
  pub sort_first :
      (xs : List A) (x : A) (rest : List A)
      → sort before xs ≡ x ∷ rest
      → All (λ y. before x y ≡ true) xs
  unfolding sort insert_sorted
  sort_first [] x rest h = tt
  sort_first (y ∷ ys) x rest h = elim (List-cases (sort before ys)) [
    | inl e ↦
        let y_first : y ≡ x = ground (arith, h, e) in
        subst (λ w. All (λ v. before w v ≡ true) (y ∷ ys)) y_first
          (
            refl_before y,
            All-length_zero (λ v. before y v ≡ true) ys (ground (arith, length-sort before ys, e)),
          )
    | inr (z, zs, e) ↦ elim (Bool-cases (before y z)) [
      | inl b ↦
          let y_first : y ≡ x = ground (arith, h, e, b) in
          subst (λ w. All (λ v. before w v ≡ true) (y ∷ ys)) y_first
            (refl_before y, All-map (λ v. trans y z v b) ys (sort_first ys z zs e))
      | inr b ↦
          let z_first : z ≡ x = ground (arith, h, e, b) in
          subst (λ w. All (λ v. before w v ≡ true) (y ∷ ys)) z_first
            (total y z b, sort_first ys z zs e)
    ]
  ]
