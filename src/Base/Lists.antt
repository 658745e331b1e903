-- ===== src/Base/Lists.antt =====
-- Lists measured and searched with native numbers and Boolean tests, under the library's names.
use Prim.Native.Nat.{ℕ, zero, suc, ◌+◌, ◌≤◌}
use mathlib.Core.Path.{subst, ap, ◌≡◌, refl}
use mathlib.Core.Logic.{◌⊎◌, inl, inr}
use mathlib.Core.Bool.{Bool, true, false, ◌&&◌, ◌||◌}
use mathlib.Core.Option.{Option, none, some}
use mathlib.Core.List.{map, List, [], ◌∷◌, ◌++◌}
use native.Mathlib.Omega.{arith}
use festival.Base.Tests.{Bool-cases, ◌==◌, if◌then◌else◌}

module _ {ℓ} {A : Type ℓ} where
  abbrev pub length : List A → ℕ
  length [] = 0
  length (x ∷ xs) = suc (length xs)

  -- `xs.some(p)`
  abbrev pub any : (A → Bool) → List A → Bool
  any p [] = false
  any p (x ∷ xs) = p x || any p xs

  -- `xs.every(p)`
  abbrev pub all : (A → Bool) → List A → Bool
  all p [] = true
  all p (x ∷ xs) = p x && all p xs

  -- `xs.filter(p)`
  abbrev pub filter : (A → Bool) → List A → List A
  filter p [] = []
  filter p (x ∷ xs) = let rest = filter p xs in if p x then x ∷ rest else rest

  -- `xs.filter(p).length`
  abbrev pub count : (A → Bool) → List A → ℕ
  count p [] = 0
  count p (x ∷ xs) = let rest = count p xs in if p x then suc rest else rest

  -- `xs.find(p)`
  abbrev pub find? : (A → Bool) → List A → Option A
  find? p [] = none
  find? p (x ∷ xs) = let rest = find? p xs in if p x then some x else rest

  abbrev pub take : ℕ → List A → List A
  take zero xs = []
  take (suc n) [] = []
  take (suc n) (x ∷ xs) = x ∷ take n xs

  abbrev pub All {κ} : (A → Type κ) → List A → Type κ
  All P [] = Unit
  All P (x ∷ xs) = P x × All P xs

module _ {ℓ} {A : Type ℓ} where
  pub length-append : (xs ys : List A) → length (xs ++ ys) ≡ length xs + length ys
  length-append [] ys = omega arith
  length-append (x ∷ xs) ys = omega (arith, length-append xs ys)

  pub length-filter : (p : A → Bool) (xs : List A) → length (filter p xs) ≡ count p xs
  length-filter p [] = refl
  length-filter p (x ∷ xs) = ground (arith, length-filter p xs)

  pub count-le-length : (p : A → Bool) (xs : List A) → count p xs ≤ length xs
  count-le-length p [] = omega arith
  count-le-length p (x ∷ xs) = ground (arith, count-le-length p xs)

  pub count-append : (p : A → Bool) (xs ys : List A) → count p (xs ++ ys) ≡ count p xs + count p ys
  count-append p [] ys = omega arith
  count-append p (x ∷ xs) ys = ground (arith, count-append p xs ys)

  pub any-append : (p : A → Bool) (xs ys : List A) → any p (xs ++ ys) ≡ (any p xs || any p ys)
  any-append p [] ys = refl
  any-append p (x ∷ xs) ys = ground (arith, any-append p xs ys)

-- A JavaScript `Set` of identifiers, in insertion order.
abbrev pub contains : ℕ → List ℕ → Bool
contains a = any (λ x. x == a)

-- `s.add(a)`
abbrev pub add : ℕ → List ℕ → List ℕ
add a s = if contains a s then s else s ++ a ∷ []

-- `s.delete(a)`: a set holds `a` once at most.
abbrev pub erase : ℕ → List ℕ → List ℕ
erase a [] = []
erase a (x ∷ s) = let rest = erase a s in if x == a then s else x ∷ rest

-- No identifier is listed twice.
abbrev pub Nodup : List ℕ → Type 0
Nodup [] = Unit
Nodup (x ∷ s) = (contains x s ≡ false) × Nodup s

module _ {ℓ} {A : Type ℓ} where
  pub List-cases : (xs : List A) → (xs ≡ []) ⊎ ((x : A) × (rest : List A) × (xs ≡ x ∷ rest))
  List-cases [] = inl refl
  List-cases (x ∷ xs) = inr (x, xs, refl)

contains-append : (a : ℕ) (s t : List ℕ) → contains a (s ++ t) ≡ (contains a s || contains a t)
contains-append a s t = any-append (λ x. x == a) s t

append-Nodup : (a : ℕ) (s : List ℕ) → Nodup s → contains a s ≡ false → Nodup (s ++ a ∷ [])
append-Nodup a [] h n = (refl, tt)
append-Nodup a (x ∷ s) h n = ground (arith, append-Nodup a s h.1, contains-append x s (a ∷ []))

pub add-Nodup : (a : ℕ) (s : List ℕ) → Nodup s → Nodup (add a s)
add-Nodup a s h = ground (arith, append-Nodup a s h)

pub contains-add : (b a : ℕ) (s : List ℕ) → contains b (add a s) ≡ (contains b s || a == b)
contains-add b a s = elim (Bool-cases (contains a s)) [
  | inr e ↦ ground (arith, e, contains-append b s (a ∷ []))
  | inl e ↦ elim (Bool-cases (a == b)) [
    | inl q ↦
        let same : a ≡ b = ground (arith, q) in
        let there : contains b s ≡ true = subst (λ z. contains z s ≡ true) same e in
        ground (arith, e, q, there)
    | inr q ↦ ground (arith, e, q)
  ]
]

pub length-add : (a : ℕ) (s : List ℕ) → length (add a s) ≤ length s + 1
length-add a s = ground (arith, length-append s (a ∷ []))

contains-erase_ne : (b a : ℕ) (s : List ℕ) → contains b s ≡ false → contains b (erase a s) ≡ false
contains-erase_ne b a [] h = refl
contains-erase_ne b a (x ∷ s) h = ground (arith, contains-erase_ne b a s)

pub erase-Nodup : (a : ℕ) (s : List ℕ) → Nodup s → Nodup (erase a s)
erase-Nodup a [] h = tt
erase-Nodup a (x ∷ s) h = ground (arith, erase-Nodup a s h.1, contains-erase_ne x a s)

pub length-erase : (a : ℕ) (s : List ℕ) → length (erase a s) ≤ length s
length-erase a [] = omega arith
length-erase a (x ∷ s) = ground (arith, length-erase a s)

pub length-erase_mem :
    (a : ℕ) (s : List ℕ) → contains a s ≡ true → length (erase a s) + 1 ≡ length s
length-erase_mem a [] h = cc
length-erase_mem a (x ∷ s) h = ground (arith, length-erase_mem a s)

module _ {ℓ} {A : Type ℓ} where
  -- `x` stands in `xs`, between two parts of it.
  abbrev pub Splits : A → List A → Type ℓ
  Splits x xs = (pre : List A) × (post : List A) × (xs ≡ pre ++ x ∷ post)

  pub Splits-cons : (y : A) {x : A} {xs : List A} → Splits x xs → Splits x (y ∷ xs)
  Splits-cons y (pre, post, e) = (y ∷ pre, post, ap (◌∷◌ y) e)

  pub find?-Splits :
      (p : A → Bool) {x : A} (xs : List A) → find? p xs ≡ some x → Splits x xs × (p x ≡ true)
  find?-Splits p [] h = cc
  find?-Splits p (y ∷ xs) h = elim (Bool-cases (p y)) [
    | inl e ↦ (([], xs, ground arith), ground arith)
    | inr e ↦ let (s, q) = find?-Splits p xs (ground arith) in (Splits-cons y s, q)
  ]

  pub find?-none : (p : A → Bool) (xs : List A) → find? p xs ≡ none → count p xs ≡ 0
  find?-none p [] h = refl
  find?-none p (y ∷ xs) h = ground (arith, find?-none p xs)

  pub count-split :
      (p : A → Bool) (pre : List A) (x : A) (post : List A)
      → count p (pre ++ x ∷ post) ≡ count p pre + (if p x then 1 else 0) + count p post
  count-split p pre x post = ground (arith, count-append p pre (x ∷ post))

  pub find?-none-prefix :
      (p : A → Bool) (xs ys : List A) → find? p (xs ++ ys) ≡ none → find? p xs ≡ none
  find?-none-prefix p [] ys h = refl
  find?-none-prefix p (x ∷ xs) ys h = ground (arith, find?-none-prefix p xs ys)

  pub find?-middle :
      (p : A → Bool) (pre : List A) (x : A) (post : List A)
      → find? p pre ≡ none
      → p x ≡ true
      → find? p (pre ++ x ∷ post) ≡ some x
  find?-middle p [] x post h q = rw q
  find?-middle p (y ∷ pre) x post h q = ground (arith, find?-middle p pre x post)

pub count-congr {ℓ} :
    {A : Type ℓ} (p q : A → Bool) → ((x : A) → p x ≡ q x) → (xs : List A) → count p xs ≡ count q xs
count-congr p q h [] = omega arith
count-congr p q h (x ∷ xs) = ground (arith, h x, count-congr p q h xs)

pub All-map {ℓ κ} :
    {A : Type ℓ} {P Q : A → Type κ} → ((x : A) → P x → Q x) → (xs : List A) → All P xs → All Q xs
All-map f [] h = tt
All-map f (x ∷ xs) (p, h) = (f x p, All-map f xs h)

pub All-length_zero {ℓ κ} : {A : Type ℓ} (P : A → Type κ) (xs : List A) → length xs ≡ 0 → All P xs
All-length_zero P [] h = tt
All-length_zero P (x ∷ xs) h = ground arith

pub filter-All {ℓ κ} :
    {A : Type ℓ} (P : A → Type κ) (p : A → Bool) (xs : List A)
    → All P xs
    → All (λ x. P x × (p x ≡ true)) (filter p xs)
filter-All P p [] h = tt
filter-All P p (x ∷ xs) (a, h) = elim (Bool-cases (p x)) [
  | inl e ↦ rw e ((a, e), filter-All P p xs h)
  | inr e ↦ rw e (filter-All P p xs h)
]

pub map-All {ℓ κ μ} :
    {A : Type ℓ} {B : Type κ} (P : B → Type μ) (f : A → B)
    → ((x : A) → P (f x))
    → (xs : List A) → All P (map f xs)
map-All P f h [] = tt
map-All P f h (x ∷ xs) = (h x, map-All P f h xs)

pub any-none {ℓ} : {A : Type ℓ} (p : A → Bool) (xs : List A) → any p xs ≡ false → count p xs ≡ 0
any-none p [] h = refl
any-none p (x ∷ xs) h = ground (arith, any-none p xs)

pub count_mono {ℓ} :
    {A : Type ℓ} (p q : A → Bool)
    → ((x : A) → p x ≡ true → q x ≡ true)
    → (xs : List A) → count p xs ≤ count q xs
count_mono p q h [] = omega arith
count_mono p q h (x ∷ xs) = ground (arith, h x, count_mono p q h xs)
