-- ===== src/ScopeGuard.antt =====
-- src/util/scope_guard.h and scope_guard.inl: a callable that runs when its scope is left. Callables
-- are numbers, and what they do is a parameter.
pub mod Scopes
use bop.Common.{ℕ}
use bop.Memory.{Run, ok, aborted, ◌>>=◌}
use bop.Job.{Outcome, returned, threw, threw_other}

-- ScopeGuard: a class derived from the lambda.
pub record ScopeGuard : Type 0 where
  pub fn : ℕ

-- The constructor moves the lambda into the base.
abbrev pub new_guard : ℕ → ScopeGuard
new_guard fn = record { fn = fn }

-- An exception that leaves a destructor ends the program.
abbrev pub in_destructor : {S : Type 0} → S × Outcome → Run S
in_destructor (s, returned) = ok s
in_destructor (s, threw what) = aborted
in_destructor (s, threw_other) = aborted

-- `~ScopeGuard`
unfoldable pub destroy_guard : {S : Type 0} → (ℕ → S → Run (S × Outcome)) → ScopeGuard → S → Run S
destroy_guard body guard s = body guard.fn s >>= in_destructor
