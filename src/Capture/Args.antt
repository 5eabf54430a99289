-- ===== src/Capture/Args.antt =====
-- The list of arguments of a capture (src/main.cpp): what is set, and what is not.
use bop.Common.{
  ℕ, zero, suc, ◌+◌, ◌≤◌, ◌<◌, ◌≡◌, refl, sym, ap, false, Option, none, some, List, [], ◌∷◌, arith,
  ◌==◌, if◌then◌else◌, length, is_some,
}
use mathlib.Core.Bool.{false≢true}
use bop.Memory.{ok}
use bop.Capture.{get_arg, put_arg, no_args, unwrap}

module _ {V : Type 0} where
  abbrev pub unset : List (Option V) → ℕ
  unset [] = 0
  unset (none ∷ as') = suc (unset as')
  unset (some v ∷ as') = unset as'

  abbrev pub all_some : List V → List (Option V)
  all_some [] = []
  all_some (v ∷ vs) = some v ∷ all_some vs

  -- The value that was set last for `i`, in a history of settings, and `d` if there is none.
  abbrev pub latest : Option V → List (ℕ × V) → ℕ → Option V
  latest d [] i = d
  latest d ((j, v) ∷ sets) i = latest (if j == i then some v else d) sets i

  -- The settings are of one of `n` arguments.
  abbrev pub InRange : ℕ → List (ℕ × V) → Type 0
  InRange n [] = Unit
  InRange n ((i, v) ∷ sets) = (i < n) × InRange n sets

  -- The arguments that a history sets.
  abbrev pub indices : List (ℕ × V) → List ℕ
  indices [] = []
  indices ((i, v) ∷ sets) = i ∷ indices sets

  pub unset-put_arg :
      (as' : List (Option V)) (i : ℕ) (v : V)
      → i < length as'
      → unset as' ≡ unset (put_arg as' i v) + (if is_some (get_arg as' i) then 0 else 1)
  unset-put_arg [] i v lt = absurd (omega (arith, lt))
  unset-put_arg (none ∷ as') zero v lt = omega arith
  unset-put_arg (some w ∷ as') zero v lt = omega arith
  unset-put_arg (none ∷ as') (suc i) v lt = omega (arith, unset-put_arg as' i v (omega (arith, lt)))
  unset-put_arg (some w ∷ as') (suc i) v lt =
      omega (arith, unset-put_arg as' i v (omega (arith, lt)))

  pub length-put_arg :
      (as' : List (Option V)) (i : ℕ) (v : V) → length (put_arg as' i v) ≡ length as'
  length-put_arg [] i v = refl
  length-put_arg (a ∷ as') zero v = refl
  length-put_arg (a ∷ as') (suc i) v = ap suc (length-put_arg as' i v)

  pub get_arg-put_arg :
      (as' : List (Option V)) (i j : ℕ) (v : V)
      → i < length as'
      → get_arg (put_arg as' i v) j ≡ (if i == j then some v else get_arg as' j)
  get_arg-put_arg [] i j v lt = absurd (omega (arith, lt))
  get_arg-put_arg (a ∷ as') zero zero v lt = refl
  get_arg-put_arg (a ∷ as') zero (suc j) v lt = ground arith
  get_arg-put_arg (a ∷ as') (suc i) zero v lt = ground arith
  get_arg-put_arg (a ∷ as') (suc i) (suc j) v lt =
      ground (arith, get_arg-put_arg as' i j v (omega (arith, lt)))

  pub unset-length : (as' : List (Option V)) → unset as' ≤ length as'
  unset-length [] = omega arith
  unset-length (none ∷ as') = omega (arith, unset-length as')
  unset-length (some v ∷ as') = omega (arith, unset-length as')

  pub unwrap-all_some :
      (as' : List (Option V))
      → unset as' ≡ 0
      → (vs : List V) × (as' ≡ all_some vs) × (unwrap as' ≡ ok vs)
  unfolding unwrap
  unwrap-all_some [] e = ([], refl, refl)
  unwrap-all_some (none ∷ as') e = absurd (omega (arith, e))
  unwrap-all_some (some v ∷ as') e =
      let (vs, same, there) = unwrap-all_some as' e in (v ∷ vs, ap (λ l. some v ∷ l) same, rw there)

  pub first_unset :
      (as' : List (Option V))
      → (unset as' == 0) ≡ false
      → (i : ℕ) × (i < length as') × (get_arg as' i ≡ none)
  first_unset [] e = absurd (false≢true (sym e))
  first_unset (none ∷ as') e = (0, omega arith, refl)
  first_unset (some v ∷ as') e =
      let (i, lt, there) = first_unset as' e in (suc i, omega (arith, lt), there)

module _ (V : Type 0) where
  pub length-no_args : (n : ℕ) → length (no_args {V = V} n) ≡ n
  length-no_args zero = refl
  length-no_args (suc n) = ap suc (length-no_args n)

  pub unset-no_args : (n : ℕ) → unset (no_args {V = V} n) ≡ n
  unset-no_args zero = refl
  unset-no_args (suc n) = ap suc (unset-no_args n)

  pub get_arg-no_args : (n i : ℕ) → get_arg (no_args {V = V} n) i ≡ none
  get_arg-no_args zero i = refl
  get_arg-no_args (suc n) zero = refl
  get_arg-no_args (suc n) (suc i) = get_arg-no_args n i
