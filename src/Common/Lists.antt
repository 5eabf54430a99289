-- ===== src/Common/Lists.antt =====
-- Lists measured and indexed by native numbers; membership of numbers as a Boolean.
use Prim.Native.Nat.{ℕ, suc, ◌+◌}
use mathlib.Core.Path.{◌≡◌, refl}
use mathlib.Core.Logic.{◌⊎◌, inl, inr}
use mathlib.Core.Bool.{Bool, true, false, ◌||◌}
use mathlib.Core.List.{List, [], ◌∷◌, ◌++◌}
use native.Mathlib.Omega.{arith}
use bop.Common.Tests.{◌==◌}

module _ {ℓ} {A : Type ℓ} where
  abbrev pub length : List A → ℕ
  length [] = 0
  length (x ∷ xs) = suc (length xs)

  abbrev pub first : List A → A → A
  first [] d = d
  first (x ∷ xs) d = x

  abbrev pub last : List A → A → A
  last [] d = d
  last (x ∷ xs) d = last xs x

  pub length-append : (xs ys : List A) → length (xs ++ ys) ≡ length xs + length ys
  length-append [] ys = omega arith
  length-append (x ∷ xs) ys = omega (arith, length-append xs ys)

  pub last-snoc : (xs : List A) (y d : A) → last (xs ++ y ∷ []) d ≡ y
  last-snoc [] y d = refl
  last-snoc (x ∷ xs) y d = last-snoc xs y x

abbrev pub mem : ℕ → List ℕ → Bool
mem a [] = false
mem a (x ∷ xs) = a == x || mem a xs

abbrev pub Distinct : List ℕ → Type 0
Distinct [] = Unit
Distinct (x ∷ xs) = (mem x xs ≡ false) × Distinct xs

pub mem-append : (a : ℕ) (xs ys : List ℕ) → mem a (xs ++ ys) ≡ (mem a xs || mem a ys)
mem-append a [] ys = refl
mem-append a (x ∷ xs) ys = ground (arith, mem-append a xs ys)

mem-last : (x : ℕ) (xs : List ℕ) → mem (last xs x) (x ∷ xs) ≡ true
mem-last x [] = ground arith
mem-last x (y ∷ ys) = ground (arith, mem-last y ys)

pub Distinct-snoc : (xs : List ℕ) (a : ℕ) → Distinct xs → mem a xs ≡ false → Distinct (xs ++ a ∷ [])
Distinct-snoc [] a d out = (refl, tt)
Distinct-snoc (x ∷ xs) a d out =
    (ground (arith, mem-append x xs (a ∷ [])), Distinct-snoc xs a d.1 (ground arith))

pub eqb_of_mem : (a b : ℕ) (xs : List ℕ) → mem a xs ≡ false → mem b xs ≡ true → (a == b) ≡ false
eqb_of_mem a b [] out inside = cc
eqb_of_mem a b (x ∷ xs) out inside = ground (arith, eqb_of_mem a b xs)

pub eqb-last : (a x : ℕ) (xs : List ℕ) → mem a (x ∷ xs) ≡ false → (a == last xs x) ≡ false
eqb-last a x xs out = eqb_of_mem a (last xs x) (x ∷ xs) out (mem-last x xs)

pub mem_self : (a : ℕ) (xs : List ℕ) → mem a (a ∷ xs) ≡ true
mem_self a xs = ground arith

pub mem_later : (a x : ℕ) (xs : List ℕ) → mem a xs ≡ true → mem a (x ∷ xs) ≡ true
mem_later a x xs h = ground arith

pub List-cases {ℓ} :
    {A : Type ℓ} (xs : List A) → (xs ≡ []) ⊎ ((y : A) × (ys : List A) × (xs ≡ y ∷ ys))
List-cases [] = inl refl
List-cases (x ∷ xs) = inr (x, xs, refl)
