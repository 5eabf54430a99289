-- ===== src/Curry/Steps.antt =====
-- Calls in several steps against one call (src/util/curry.h).
use bop.Common.{◌≡◌, refl, false, Option, none, some, List, [], ◌∷◌, ◌++◌, if◌then◌else◌}
use bop.Curry.{Invocable, Curried, value, lambda, curry, call_curried}

module _ {A R : Type 0} (callable : Invocable A R) where
  -- The calls of a chain, each with its arguments.
  abbrev pub call_steps : Option (Curried A R) → List (List A) → Option (Curried A R)
  call_steps none steps = none
  call_steps (some c) [] = some c
  call_steps (some c) (extra ∷ steps) = call_steps (call_curried callable c extra) steps

  abbrev all_args : List A → List (List A) → List A
  all_args args [] = args
  all_args args (extra ∷ steps) = all_args (args ++ extra) steps

  -- The callable cannot be called before the last step.
  abbrev IsPartial : List A → List (List A) → Type 0
  IsPartial args [] = Unit
  IsPartial args (extra ∷ steps) = (callable.accepts args ≡ false) × IsPartial (args ++ extra) steps

  -- If the arguments before the last step are too few for the callable, the calls of curry in any
  -- number of steps, also empty ones, come to what curry gives for all the arguments at once: the
  -- result of the callable, or, if these are still too few, a lambda that holds all of them.
  pub call_steps-curry :
      (args : List A) (steps : List (List A))
      → IsPartial args steps
      → call_steps (some (curry callable args)) steps
        ≡ some (
            if callable.accepts (all_args args steps)
            then value (callable.invoke (all_args args steps))
            else lambda (all_args args steps))
  unfolding curry call_curried
  call_steps-curry args [] partial = refl
  call_steps-curry args (extra ∷ steps) (few, partial) =
      rw few (call_steps-curry (args ++ extra) steps partial)
