-- ===== src/ScopeGuard/Scopes.antt =====
-- A scope with guards (src/util/scope_guard.h): they run however the scope is left.
use bop.Common.{
  ℕ, ◌≡◌, refl, Option, none, some, List, [], ◌∷◌, inl, inr, ◌⊎◌, Option-cases, and_then,
}
use bop.Memory.{Run, ok, aborted, ◌>>=◌}
use bop.Job.{Outcome, returned, threw}
use bop.ScopeGuard.{ScopeGuard, new_guard, destroy_guard}

module _ {S : Type 0} where
  -- What the lambdas do, the last one first; `none` if one of them throws.
  abbrev pub unwound : (ℕ → S → Option S) → List ℕ → S → Option S
  unwound effect [] s = some s
  unwound effect (fn ∷ fns) s = and_then (unwound effect fns s) (effect fn)

  abbrev pub ended : Option S → Outcome → Run (S × Outcome)
  ended none out = aborted
  ended (some s) out = ok (s, out)

module _ {S : Type 0} (body : ℕ → S → Run (S × Outcome)) where
  -- The end of a scope: the guard that was made last is destroyed first.
  abbrev leave_scope : List ScopeGuard → S → Run S
  leave_scope [] s = ok s
  leave_scope (guard ∷ guards) s = do s1 ← leave_scope guards s; destroy_guard body guard s1

  -- A scope that makes a guard of each of the lambdas, does its work, and ends as that ends.
  abbrev guards_of : List ℕ → List ScopeGuard
  guards_of [] = []
  guards_of (fn ∷ fns) = new_guard fn ∷ guards_of fns

  unfoldable pub in_scope : List ℕ → (S → Run (S × Outcome)) → S → Run (S × Outcome)
  in_scope fns work s = do (s1, out) ← work s; s2 ← leave_scope (guards_of fns) s1; ok (s2, out)

  -- `effect` says what the lambdas do that return, and which ones throw.
  abbrev pub IsEffect : (ℕ → S → Option S) → Type 0
  IsEffect effect =
      (fn : ℕ) (s : S)
      → ((s1 : S) × (effect fn s ≡ some s1) × (body fn s ≡ ok (s1, returned)))
        ⊎ ((s1 : S) × (what : ℕ) × (effect fn s ≡ none) × (body fn s ≡ ok (s1, threw what)))

  abbrev left : Option S → Run S
  left none = aborted
  left (some s) = ok s

  leave_scope-unwound :
      (effect : ℕ → S → Option S) (fns : List ℕ) (s : S)
      → IsEffect effect
      → leave_scope (guards_of fns) s ≡ left (unwound effect fns s)
  unfolding destroy_guard
  leave_scope-unwound effect [] s is = refl
  leave_scope-unwound effect (fn ∷ fns) s is =
      rw (leave_scope-unwound effect fns s is) (elim (Option-cases (unwound effect fns s)) [
        | inl thrown ↦ rw thrown refl
        | inr (s1, there) ↦ rw there (elim (is fn s1) [
          | inl (s2, e, run) ↦ rw (e, run) refl
          | inr (s2, what, e, run) ↦ rw (e, run) refl
        ])
      ])

  -- Whether the work of a scope returns or throws, the lambdas of all its guards run after it, each
  -- once and the last one first, and the scope ends as its work did; if one of them throws, the
  -- program is terminated.
  in_scope-unwound :
      (effect : ℕ → S → Option S) (fns : List ℕ) (work : S → Run (S × Outcome)) (s s1 : S)
      (out : Outcome)
      → IsEffect effect
      → work s ≡ ok (s1, out)
      → in_scope fns work s ≡ ended (unwound effect fns s1) out
  unfolding in_scope
  in_scope-unwound effect fns work s s1 out is e =
      rw (e, leave_scope-unwound effect fns s1 is) (left_lem (unwound effect fns s1))
    where
      left_lem : (o : Option S) → (left o >>= λ s2. ok (s2, out)) ≡ ended o out
      left_lem none = refl
      left_lem (some s2) = refl
