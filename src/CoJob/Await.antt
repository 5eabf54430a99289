-- ===== src/CoJob/Await.antt =====
-- An awaited coroutine runs to its end (src/job/co_job.inl).
use bop.Common.{ℕ, zero, suc, ◌<◌, ◌≡◌, refl, ap, ◌∙◌, true, false, some, arith, ◌==◌}
use bop.Memory.{
  Ptr, nullptr, Heap, ok, load_lem, write, write_self, write_other, Returns, Returns-bind,
  Returns-mono,
}
use bop.CoJob.{
  Turn, suspends, returns, throws, Payload, monostate, value, exception, CoFrame, Delivery,
  delivers, rethrows, empty_state, deliver, take_turn, resume, run_to_end, await_resume,
}

module _ {S T : Type 0} (body : S → Turn S T) where
  -- From the state `s` the body is suspended `n` times more, and then ends with `out`.
  abbrev pub Finishes : ℕ → S → Payload T → Type 0
  Finishes zero s monostate = ⊥
  Finishes zero s (value v) = body s ≡ returns v
  Finishes zero s (exception e) = body s ≡ throws e
  Finishes (suc n) s out = (s' : S) × (body s ≡ suspends s') × Finishes n s' out

  -- The coroutine is at its end, with `out` in its promise, and the others have not changed.
  pub record Ended (h : Heap (CoFrame S T)) (p : Ptr) (out : Payload T) (g : Heap (CoFrame S T))
      : Type 0 where
    pub frame : (f : CoFrame S T) × (g p ≡ some f) × (f.done ≡ true) × (f.payload ≡ out)
    pub others : (a : Ptr) → (a == p) ≡ false → g a ≡ h a

  run_done :
      (fuel : ℕ) (h : Heap (CoFrame S T)) (p : Ptr) (f : CoFrame S T)
      → (p == nullptr) ≡ false
      → h p ≡ some f
      → f.done ≡ true
      → run_to_end body (suc fuel) h p ≡ ok h
  unfolding run_to_end
  run_done fuel h p f ne e stop = rw (ne, load_lem h p f ne e, stop)

  run_turn :
      (fuel : ℕ) (h : Heap (CoFrame S T)) (p : Ptr) (f g : CoFrame S T)
      → (p == nullptr) ≡ false
      → h p ≡ some f
      → f.done ≡ false
      → take_turn body f ≡ g
      → run_to_end body (suc fuel) h p ≡ run_to_end body fuel (write h p (some g)) p
  unfolding run_to_end resume
  run_turn fuel h p f g ne e more turn =
      rw (ne, load_lem h p f ne e, more)
        (ap (λ k. run_to_end body fuel (write h p (some k)) p) turn)

  last_turn :
      (s : S) (f : CoFrame S T) (out : Payload T)
      → Finishes zero f.state out
      → take_turn body f ≡ record f { payload = out; done = true }
  last_turn s f monostate e = absurd e
  last_turn s f (value v) e = rw (take_turn, e)
  last_turn s f (exception x) e = rw (take_turn, e)

  run_to_end-Ended :
      (n fuel : ℕ) (h : Heap (CoFrame S T)) (p : Ptr) (f : CoFrame S T) (out : Payload T)
      → (p == nullptr) ≡ false
      → h p ≡ some f
      → f.done ≡ false
      → Finishes n f.state out
      → suc n < fuel
      → Returns (Ended h p out) (run_to_end body fuel h p)
  run_to_end-Ended n zero h p f out ne e more ends enough = absurd (omega arith)
  run_to_end-Ended n (suc zero) h p f out ne e more ends enough = absurd (omega arith)
  run_to_end-Ended zero (suc (suc fuel)) h p f out ne e more ends enough =
      let g : CoFrame S T = record f { payload = out; done = true } in
      let h1 = write h p (some g) in
      rw
        (
          run_turn (suc fuel) h p f g ne e more (last_turn f.state f out ends),
          run_done fuel h1 p g ne (write_self h p (some g)) refl,
        )
        (record {
          frame = (g, write_self h p (some g), refl, refl);
          others = λ a miss. write_other h p (some g) a miss;
        })
  run_to_end-Ended (suc n) (suc fuel) h p f out ne e more (s', y, ends) enough =
      let g : CoFrame S T = record { state = s'; payload = f.payload; done = false } in
      let h1 = write h p (some g) in
      let turn : take_turn body f ≡ g = rw (take_turn, y) in
      rw (run_turn fuel h p f g ne e more turn) (
        Returns-mono (Ended h1 p out) _ (run_to_end body fuel h1 p)
          (run_to_end-Ended n fuel h1 p g out ne (write_self h p (some g)) refl ends
            (omega (arith, enough)))
          λ k d. record {
            frame = d.frame;
            others = λ a miss. d.others a miss ∙ write_other h p (some g) a miss;
          })

  await_resume_lem :
      (n fuel again : ℕ) (h : Heap (CoFrame S T)) (p : Ptr) (f : CoFrame S T) (out : Payload T)
      → (p == nullptr) ≡ false
      → h p ≡ some f
      → f.done ≡ false
      → Finishes n f.state out
      → suc n < fuel
      → Returns
          (λ (g, d).
            (d ≡ deliver out) × Ended h p out g × (await_resume body (suc again) g p ≡ ok (g, d)))
          (await_resume body fuel h p)
  unfolding await_resume
  await_resume_lem n fuel again h p f out ne e more ends enough =
      Returns-bind (Ended h p out) _ (run_to_end body fuel h p) _
        (run_to_end-Ended n fuel h p f out ne e more ends enough)
        λ g d.
          let (k, at, stop, same) = d.frame in
          rw (load_lem g p k ne at)
            (ap deliver same, d, rw (run_done again g p k ne at stop, load_lem g p k ne at))

  -- From the state `s` the body is suspended `n` times more, and then returns the value or throws the
  -- exception of the delivery.
  abbrev pub Concludes : ℕ → S → Delivery T → Type 0
  Concludes n s (delivers v) = Finishes n s (value v)
  Concludes n s (rethrows e) = Finishes n s (exception e)
  Concludes n s empty_state = ⊥

  -- An await of a coroutine that is not done, and whose body is suspended `n` times more and then returns or
  -- throws, delivers that value or rethrows that exception, if there is fuel for these turns. The coroutine is
  -- done then, the others have not changed, and a further await delivers the same and changes nothing.
  pub await_resume-Concludes :
      (n fuel again : ℕ) (h : Heap (CoFrame S T)) (p : Ptr) (f : CoFrame S T) (out : Delivery T)
      → (p == nullptr) ≡ false
      → h p ≡ some f
      → f.done ≡ false
      → Concludes n f.state out
      → suc n < fuel
      → Returns
          (λ (g, d).
            (d ≡ out)
            × ((k : CoFrame S T) × (g p ≡ some k) × (k.done ≡ true))
            × ((a : Ptr) → (a == p) ≡ false → g a ≡ h a)
            × (await_resume body (suc again) g p ≡ ok (g, d)))
          (await_resume body fuel h p)
  await_resume-Concludes n fuel again h p f (delivers v) ne e more ends enough =
      Returns-mono _ _ (await_resume body fuel h p)
        (await_resume_lem n fuel again h p f (value v) ne e more ends enough)
        λ (g, d) (same, ended, twice).
          let (k, at, stop, its) = ended.frame in (same, (k, at, stop), ended.others, twice)
  await_resume-Concludes n fuel again h p f (rethrows x) ne e more ends enough =
      Returns-mono _ _ (await_resume body fuel h p)
        (await_resume_lem n fuel again h p f (exception x) ne e more ends enough)
        λ (g, d) (same, ended, twice).
          let (k, at, stop, its) = ended.frame in (same, (k, at, stop), ended.others, twice)
  await_resume-Concludes n fuel again h p f empty_state ne e more ends enough = absurd ends
