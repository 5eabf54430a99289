-- ===== src/Generator/Throws/Agree.antt =====
-- A coroutine that never throws is looped over as in the model without exceptions
-- (src/job/co_generator.inl).
use bop.Common.{
  ℕ, zero, suc, ◌≡◌, refl, ap, ◌∙◌, Option, none, some, ◌==◌, if◌then◌else◌, Bool-cases,
  Option-cases, inl, inr,
}
use bop.Memory.{
  Ptr, nullptr, Heap, Run, ok, fault, stuck, aborted, ◌>>=◌, load, write, map_run, map_run-bind,
  bind-map_run,
}
use bop.Generator.{Frame, advance, resume, begin, increment, is_end, current, loop, for_each}
use bop.Generator.Throws.{
  Advance, yields, ends, Raised, returned, step_body, resumed_to, resume_raising, begin_raising,
  increment_raising, loop_raising, for_each_raising,
}

module _ {S T : Type 0} (body : S → Option (T × S)) where
  abbrev lifted_turn : Option (T × S) → Advance S T
  lifted_turn none = ends
  lifted_turn (some (v, s')) = yields v s'

  abbrev pub lifted : S → Advance S T
  lifted s = lifted_turn (body s)

  step-lifted : (f : Frame S T) → step_body (lifted f.state) f ≡ (advance body f, returned tt)
  step-lifted f = elim (Option-cases (body f.state)) [
    | inl end ↦ rw (advance, end)
    | inr ((v, s'), more) ↦ rw (advance, more)
  ]

  abbrev quietly : Heap (Frame S T) → Heap (Frame S T) × Raised (Unit {0})
  quietly h = (h, returned tt)

  abbrev at_iterator : Heap (Frame S T) × Ptr → Heap (Frame S T) × Raised Ptr
  at_iterator (h, it) = (h, returned it)

  resume-lifted :
      (h : Heap (Frame S T)) (p : Ptr)
      → resume_raising lifted h p ≡ map_run quietly (resume body h p)
  unfolding resume_raising resume
  resume-lifted h p =
      bind-map_run quietly (load h p) _ _ λ f. ap (resumed_to h p f) (step-lifted f) ∙ written f
    where
      written :
          (f : Frame S T)
          → resumed_to h p f (advance body f, returned tt)
            ≡ map_run quietly (if f.done then fault else ok (write h p (some (advance body f))))
      written f = elim (Bool-cases f.done) [ inl stop ↦ rw stop | inr more ↦ rw more ]

  begin-lifted :
      (h : Heap (Frame S T)) (p : Ptr)
      → begin_raising lifted h p ≡ map_run at_iterator (begin body h p)
  unfolding begin_raising begin
  begin-lifted h p = elim (Bool-cases (p == nullptr)) [
    | inl is_null ↦ rw is_null
    | inr ne ↦
        rw (ne, resume-lifted h p)
          (map_run-bind quietly at_iterator (resume body h p) _ _ λ g. refl)
  ]

  abbrev iterator_in : Heap (Frame S T) → Ptr → Heap (Frame S T) × Ptr
  iterator_in h it = (h, it)

  next-lifted :
      (p : Ptr) (g : Heap (Frame S T)) (r : Run (Frame S T))
      → ((r >>= λ f. ok (if f.done then nullptr else p)) >>= λ it. ok (at_iterator (g, it)))
        ≡ map_run at_iterator (r >>= λ f. ok (iterator_in g (if f.done then nullptr else p)))
  next-lifted p g (ok f) = refl
  next-lifted p g fault = refl
  next-lifted p g stuck = refl
  next-lifted p g aborted = refl

  increment-lifted :
      (h : Heap (Frame S T)) (p : Ptr)
      → increment_raising lifted h p ≡ map_run at_iterator (increment body h p)
  unfolding increment_raising increment
  increment-lifted h p =
      rw (resume-lifted h p)
        (map_run-bind quietly at_iterator (resume body h p) _ _ λ g. next-lifted p g (load g p))

  loop-lifted :
      (fuel : ℕ) (h : Heap (Frame S T)) (p : Ptr)
      → loop_raising lifted fuel h (returned p)
        ≡ map_run (λ (h', vs). (h', vs, none)) (loop body fuel h p)
  unfolding loop_raising loop
  loop-lifted zero h p = refl
  loop-lifted (suc fuel) h p =
      bind-map_run (λ (h', vs). (h', vs, none)) (is_end h p) _ _
        λ ended. elim (Bool-cases ended) [
          | inl stop ↦ rw stop
          | inr more ↦ rw more (
              bind-map_run (λ (h', vs). (h', vs, none)) (current h p) _ _
                λ v. rw (increment-lifted h p) (
                  map_run-bind at_iterator (λ (h', vs). (h', vs, none)) (increment body h p) _ _
                    λ (h1, it). rw (loop-lifted fuel h1 it) (
                      map_run-bind (λ (h', vs). (h', vs, none)) (λ (h', vs). (h', vs, none))
                        (loop body fuel h1 it) _ _ λ (h2, vs). refl)))
        ]

  -- A range-based loop over a coroutine whose body never throws has the outcome of for_each, whatever the coroutine and the fuel: the
  -- same values and the same coroutines, and no exception.
  for_each_raising-for_each :
      (fuel : ℕ) (h : Heap (Frame S T)) (p : Ptr)
      → for_each_raising lifted fuel h p
        ≡ map_run (λ (h', vs). (h', vs, none)) (for_each body fuel h p)
  unfolding for_each_raising for_each
  for_each_raising-for_each fuel h p = rw (begin-lifted h p) (
      map_run-bind at_iterator (λ (h', vs). (h', vs, none)) (begin body h p) _ _
        λ (h1, it). loop-lifted fuel h1 it)
