-- ===== src/Examples/Coroutine.antt =====
-- The theorem on awaited coroutines, at a concrete input (src/job/co_job.inl).
use bop.Common.{
  ℕ, ◌≡◌, refl, subst, ap, Option, true, false, none, some, arith, ◌==◌, if◌then◌else◌,
}
use bop.Memory.{Heap, map_run, ok, Returns}
use bop.CoJob.{
  co_job, get, throws, Turn, suspends, returns, monostate, CoFrame, delivers, await_resume,
}
use bop.CoJob.Void.{get_void}
use bop.CoJob.Erased.{is_set, erased, with_some, erased_outcome, get-erased}
use bop.CoJob.Await.{await_resume-Concludes}

-- The body is suspended once, and returns 42.
abbrev body : ℕ → Turn ℕ ℕ
body s = if s == 0 then suspends 1 else returns 42

abbrev frames : Heap (CoFrame ℕ ℕ)
frames a = if a == 6 then some (record { state = 0; payload = monostate; done = false }) else none

await_resume-Concludes_example :
    Returns
      (λ (g, d).
        (d ≡ delivers 42)
        × ((k : CoFrame ℕ ℕ) × (g 6 ≡ some k) × (k.done ≡ true))
        × ((a : ℕ) → (a == 6) ≡ false → g a ≡ frames a)
        × (await_resume body 1 g 6 ≡ ok (g, d)))
      (await_resume body 3 frames 6)
await_resume-Concludes_example =
    await_resume-Concludes body 1 3 0 frames 6
      (record { state = 0; payload = monostate; done = false }) (delivers 42) refl refl refl
      (1, refl, refl) (omega arith)

-- A coroutine of no result, which is suspended once and then throws.
abbrev failing : ℕ → Turn ℕ (Unit {0})
failing s = if s == 0 then suspends 1 else throws 3

abbrev unset_frames : Heap (CoFrame ℕ (Unit {0}))
unset_frames a =
    if a == 6 then some (record { state = 0; payload = monostate; done = false }) else none

get-erased_example :
    map_run with_some (get_void failing 3 (erased unset_frames) (co_job 6))
    ≡ map_run erased_outcome (get failing 3 unset_frames (co_job 6))
get-erased_example = get-erased failing 3 unset_frames (co_job 6) λ f found.
    subst (λ (g : CoFrame ℕ (Unit {0})). is_set g.payload ≡ g.done)
      (ap
        (λ (o : Option (CoFrame ℕ (Unit {0}))). elim o [
          | none ↦ record { state = 0; payload = monostate; done = false }
          | some g ↦ g
        ])
        found)
      refl
