-- ===== src/Curry.antt =====
-- src/util/curry.h: a callable that is called with its arguments in several steps.
pub mod Steps
use bop.Common.{Bool, true, false, Option, none, some, List, ◌++◌, if◌then◌else◌}

-- A callable: for which lists of arguments it can be called, and what it returns.
pub record Invocable (A R : Type 0) : Type 0 where
  pub accepts : List A → Bool
  pub invoke : List A → R

-- What curry returns: the result of the call, or the lambda, with the arguments that it captured.
pub data Curried (A R : Type 0) : Type 0 where
  value : R → Curried A R
  lambda : List A → Curried A R

module _ {A R : Type 0} (callable : Invocable A R) where
  unfoldable pub curry : List A → Curried A R
  curry initial_args =
      if callable.accepts initial_args
      then value (callable.invoke initial_args)
      else lambda initial_args

  -- A call of what curry returned. A value is not called: that does not compile.
  unfoldable pub call_curried : Curried A R → List A → Option (Curried A R)
  unfolding curry
  call_curried (value r) extra_args = none
  call_curried (lambda initial_args) extra_args = some (curry (initial_args ++ extra_args))
