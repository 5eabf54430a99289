-- ===== src/Common/Slots.antt =====
-- A list of slots, each of which may be empty: the local variables of a program.
use Prim.Native.Nat.{ℕ, zero, suc, ◌+◌, ◌<◌}
use mathlib.Core.Path.{◌≡◌, refl, sym, ap}
use mathlib.Core.Option.{Option, none}
use mathlib.Core.List.{List, [], ◌∷◌}
use mathlib.Core.Bool.{true, false}
use native.Mathlib.Omega.{arith}
use bop.Common.Lists.{length}
use bop.Common.Tests.{is_some, ◌==◌}

module _ {A : Type 0} where
  abbrev pub slot : List (Option A) → ℕ → Option A
  slot [] i = none
  slot (x ∷ xs) zero = x
  slot (x ∷ xs) (suc i) = slot xs i

  abbrev pub set_slot : ℕ → Option A → List (Option A) → List (Option A)
  set_slot i x [] = []
  set_slot zero x (y ∷ ys) = x ∷ ys
  set_slot (suc i) x (y ∷ ys) = y ∷ set_slot i x ys

  -- The sum of `weight` over the slots.
  abbrev pub total : (Option A → ℕ) → List (Option A) → ℕ
  total weight [] = 0
  total weight (x ∷ xs) = weight x + total weight xs

  pub slot-lt : (xs : List (Option A)) (i : ℕ) → is_some (slot xs i) ≡ true → i < length xs
  slot-lt [] i there = ground arith
  slot-lt (x ∷ xs) zero there = omega arith
  slot-lt (x ∷ xs) (suc i) there = omega (arith, slot-lt xs i there)

  pub slot_self :
      (i : ℕ) (x : Option A) (xs : List (Option A)) → i < length xs → slot (set_slot i x xs) i ≡ x
  slot_self i x [] lt = absurd (omega (arith, lt))
  slot_self zero x (y ∷ ys) lt = refl
  slot_self (suc i) x (y ∷ ys) lt = slot_self i x ys (omega (arith, lt))

  pub slot_other :
      (i j : ℕ) (x : Option A) (xs : List (Option A))
      → (j == i) ≡ false
      → slot (set_slot i x xs) j ≡ slot xs j
  slot_other i j x [] ne = refl
  slot_other zero zero x (y ∷ ys) ne = ground arith
  slot_other zero (suc j) x (y ∷ ys) ne = refl
  slot_other (suc i) zero x (y ∷ ys) ne = refl
  slot_other (suc i) (suc j) x (y ∷ ys) ne = slot_other i j x ys (ground arith)

  pub set_twice :
      (i : ℕ) (x y : Option A) (xs : List (Option A))
      → set_slot i x (set_slot i y xs) ≡ set_slot i x xs
  set_twice i x y [] = refl
  set_twice zero x y (z ∷ zs) = refl
  set_twice (suc i) x y (z ∷ zs) = ap (λ l. z ∷ l) (set_twice i x y zs)

  pub set_same :
      (i : ℕ) (x : Option A) (xs : List (Option A)) → slot xs i ≡ x → set_slot i x xs ≡ xs
  set_same i x [] e = refl
  set_same zero x (y ∷ ys) e = ap (λ z. z ∷ ys) (sym e)
  set_same (suc i) x (y ∷ ys) e = ap (λ l. y ∷ l) (set_same i x ys e)

  pub total-set_slot :
      (weight : Option A → ℕ) (i : ℕ) (x : Option A) (xs : List (Option A))
      → i < length xs
      → total weight (set_slot i x xs) + weight (slot xs i) ≡ total weight xs + weight x
  total-set_slot weight i x [] lt = absurd (omega (arith, lt))
  total-set_slot weight zero x (y ∷ ys) lt = omega arith
  total-set_slot weight (suc i) x (y ∷ ys) lt =
      omega (arith, total-set_slot weight i x ys (omega (arith, lt)))

  pub length-set_slot :
      (i : ℕ) (x : Option A) (xs : List (Option A)) → length (set_slot i x xs) ≡ length xs
  length-set_slot i x [] = refl
  length-set_slot zero x (y ∷ ys) = refl
  length-set_slot (suc i) x (y ∷ ys) = ap suc (length-set_slot i x ys)
