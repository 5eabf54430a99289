-- ===== src/CoJob/Erased.antt =====
-- CoJob<void> does what CoJob<T> does, for a value that says nothing (src/job/co_job.inl).
use bop.Common.{
  ℕ, zero, suc, ◌≡◌, refl, sym, subst, ap, ◌∙◌, fun_ext, Bool, true, false, Option, none, some,
  ◌==◌, Bool-cases, Option-cases, inl, inr,
}
use mathlib.Core.Bool.{false≢true}
use bop.Memory.{
  write_self, Ptr, nullptr, Heap, Run, ok, fault, stuck, aborted, ◌>>=◌, load, write, map_run,
}
use bop.CoJob.{
  CoJob, Turn, suspends, returns, throws, Payload, monostate, value, exception, CoFrame, Delivery,
  delivers, rethrows, empty_state, deliver, take_turn, run_to_end, await_resume, get,
}
use bop.CoJob.Void
use bop.CoJob.Void.{
  VoidFrame, VoidDelivery, completes, deliver_void, take_void_turn, resume_void, run_void_to_end,
  await_resume_void, get_void, destroy_void_job,
}

abbrev erased_payload : Payload (Unit {0}) → Option ℕ
erased_payload monostate = none
erased_payload (value v) = none
erased_payload (exception e) = some e

-- A CoJob<void> has no delivery of std::runtime_error.
abbrev pub erased_delivery : Delivery (Unit {0}) → Option VoidDelivery
erased_delivery (delivers v) = some completes
erased_delivery (rethrows e) = some (Void.rethrows e)
erased_delivery empty_state = none

abbrev pub is_set : Payload (Unit {0}) → Bool
is_set monostate = false
is_set (value v) = true
is_set (exception e) = true

deliver-erased :
    (p : Payload (Unit {0}))
    → is_set p ≡ true
    → some (deliver_void (erased_payload p)) ≡ erased_delivery (deliver p)
deliver-erased monostate set = absurd (false≢true set)
deliver-erased (value v) set = refl
deliver-erased (exception e) set = refl

unset_of : (p : Payload (Unit {0})) → is_set p ≡ false → p ≡ monostate
unset_of monostate e = refl
unset_of (value v) e = absurd (false≢true (sym e))
unset_of (exception x) e = absurd (false≢true (sym e))

-- What holds of the result, if there is one.
Always : {A : Type 0} → (A → Type 0) → Run A → Type 0
Always P (ok a) = P a
Always P _ = Unit

module _ {S : Type 0} where
  abbrev pub erased_frame : CoFrame S (Unit {0}) → VoidFrame S
  erased_frame f = record { state = f.state; payload = erased_payload f.payload; done = f.done }

  abbrev pub erased_option : Option (CoFrame S (Unit {0})) → Option (VoidFrame S)
  erased_option none = none
  erased_option (some f) = some (erased_frame f)

  abbrev pub erased : Heap (CoFrame S (Unit {0})) → Heap (VoidFrame S)
  erased h a = erased_option (h a)

  load-erased :
      (h : Heap (CoFrame S (Unit {0}))) (p : Ptr)
      → load (erased h) p ≡ map_run erased_frame (load h p)
  unfolding load
  load-erased h p = elim (Bool-cases (p == nullptr)) [
    | inl is_null ↦ rw is_null
    | inr ne ↦ elim (Option-cases (h p)) [
      | inl gone ↦ rw (ne, gone)
      | inr (f, found) ↦ rw (ne, found)
    ]
  ]

  write-erased :
      (h : Heap (CoFrame S (Unit {0}))) (p : Ptr) (f : CoFrame S (Unit {0}))
      → write (erased h) p (some (erased_frame f)) ≡ erased (write h p (some f))
  unfolding write
  write-erased h p f =
      fun_ext λ a. elim (Bool-cases (a == p)) [ inl hit ↦ rw hit | inr miss ↦ rw miss ]

  abbrev pub with_some :
      Heap (VoidFrame S) × VoidDelivery → Heap (VoidFrame S) × Option VoidDelivery
  with_some (g, d) = (g, some d)

  abbrev pub erased_outcome :
      Heap (CoFrame S (Unit {0})) × Delivery (Unit {0}) → Heap (VoidFrame S) × Option VoidDelivery
  erased_outcome (g, d) = (erased g, erased_delivery d)

  -- A promise is empty until the coroutine is done, and then no more.
  abbrev pub IsFilled : Heap (CoFrame S (Unit {0})) → Ptr → Type 0
  IsFilled h p = (f : CoFrame S (Unit {0})) → h p ≡ some f → is_set f.payload ≡ f.done

  abbrev IsOver : Ptr → Heap (CoFrame S (Unit {0})) → Type 0
  IsOver p h =
      (f : CoFrame S (Unit {0})) → (p == nullptr) ≡ false → h p ≡ some f → is_set f.payload ≡ true

  module _ (body : S → Turn S (Unit {0})) where
    turn-erased :
        (f : CoFrame S (Unit {0}))
        → f.payload ≡ monostate
        → take_void_turn body (erased_frame f) ≡ erased_frame (take_turn body f)
    turn-erased f unset = with_turn (body f.state) refl
      where
        with_turn :
            (t : Turn S (Unit {0}))
            → body f.state ≡ t
            → take_void_turn body (erased_frame f) ≡ erased_frame (take_turn body f)
        with_turn (suspends s) e = rw (take_void_turn, take_turn, e)
        with_turn (returns v) e = rw (take_void_turn, take_turn, e, unset)
        with_turn (throws x) e = rw (take_void_turn, take_turn, e)

    turn-IsFilled :
        (f : CoFrame S (Unit {0}))
        → f.payload ≡ monostate
        → is_set (take_turn body f).payload ≡ (take_turn body f).done
    turn-IsFilled f unset = with_turn (body f.state) refl
      where
        with_turn :
            (t : Turn S (Unit {0}))
            → body f.state ≡ t
            → is_set (take_turn body f).payload ≡ (take_turn body f).done
        with_turn (suspends s) e = rw (take_turn, e, unset)
        with_turn (returns v) e = rw (take_turn, e)
        with_turn (throws x) e = rw (take_turn, e)

    next-IsFilled :
        (h : Heap (CoFrame S (Unit {0}))) (p : Ptr) (f : CoFrame S (Unit {0}))
        → f.payload ≡ monostate
        → IsFilled (write h p (some (take_turn body f))) p
    next-IsFilled h p f unset k at =
        subst (λ g. is_set g.payload ≡ g.done)
          (ap
            (λ (o : Option (CoFrame S (Unit {0}))). elim o [ none ↦ take_turn body f | some g ↦ g ])
            (sym (write_self h p (some (take_turn body f))) ∙ at))
          (turn-IsFilled f unset)

    run-erased :
        (fuel : ℕ) (h : Heap (CoFrame S (Unit {0}))) (p : Ptr)
        → IsFilled h p
        → run_void_to_end body fuel (erased h) p ≡ map_run erased (run_to_end body fuel h p)
    unfolding run_void_to_end run_to_end load
    run-erased zero h p filled = refl
    run-erased (suc fuel) h p filled = elim (Bool-cases (p == nullptr)) [
      | inl is_null ↦ rw is_null
      | inr ne ↦ elim (Option-cases (h p)) [
        | inl gone ↦ rw (ne, gone)
        | inr (f, found) ↦ elim (Bool-cases f.done) [
          | inl stop ↦ rw (ne, found, stop)
          | inr more ↦
              let g = take_turn body f in
              let unset = unset_of f.payload (filled f found ∙ more) in
              rw (ne, found, more, turn-erased f unset, write-erased h p g)
                (run-erased fuel (write h p (some g)) p (next-IsFilled h p f unset))
        ]
      ]
    ]

    run-IsOver :
        (fuel : ℕ) (h : Heap (CoFrame S (Unit {0}))) (p : Ptr)
        → IsFilled h p
        → Always (IsOver p) (run_to_end body fuel h p)
    unfolding run_to_end load Always
    run-IsOver zero h p filled = tt
    run-IsOver (suc fuel) h p filled = elim (Bool-cases (p == nullptr)) [
      | inl is_null ↦ rw is_null (λ f ne at. absurd (false≢true (sym ne ∙ is_null)))
      | inr ne ↦ elim (Option-cases (h p)) [
        | inl gone ↦ rw (ne, gone) tt
        | inr (f, found) ↦ elim (Bool-cases f.done) [
          | inl stop ↦
              rw (ne, found, stop)
                (λ k _ at.
                  filled k at
                  ∙ ap
                      (λ (o : Option (CoFrame S (Unit {0}))). elim o [
                        | none ↦ true
                        | some g ↦ g.done
                      ])
                      (sym at ∙ found)
                  ∙ stop)
          | inr more ↦
              rw (ne, found, more)
                (run-IsOver fuel (write h p (some (take_turn body f))) p
                  (next-IsFilled h p f (unset_of f.payload (filled f found ∙ more))))
        ]
      ]
    ]

    delivered :
        Heap (VoidFrame S) → Option VoidDelivery → Run (Heap (VoidFrame S) × Option VoidDelivery)
    delivered g d = ok (g, d)

    -- The payload is delivered.
    over-erased :
        (p : Ptr) (r : Run (Heap (CoFrame S (Unit {0}))))
        → Always (IsOver p) r
        → map_run with_some
            (map_run erased r >>= λ h. load h p >>= λ f. ok (h, deliver_void f.payload))
          ≡ map_run erased_outcome (r >>= λ h. load h p >>= λ f. ok (h, deliver f.payload))
    unfolding load Always delivered
    over-erased p (ok g) over = elim (Bool-cases (p == nullptr)) [
      | inl is_null ↦ rw is_null
      | inr ne ↦ elim (Option-cases (g p)) [
        | inl gone ↦ rw (ne, gone)
        | inr (f, found) ↦
            rw (ne, found) (ap (delivered (erased g)) (deliver-erased f.payload (over f ne found)))
      ]
    ]
    over-erased p fault over = refl
    over-erased p stuck over = refl
    over-erased p aborted over = refl

    -- Among coroutines whose values say nothing, where a promise is empty until its coroutine is done and then
    -- no more, and for any fuel, `get` of a CoJob<void> has the outcome that `get` of a CoJob<T> has: this one
    -- completes where that delivers the value, both rethrow the same exception, that never throws
    -- std::runtime_error, and both leave the same coroutines, or fail the same way.
    pub get-erased :
        (fuel : ℕ) (h : Heap (CoFrame S (Unit {0}))) (job : CoJob)
        → IsFilled h job.handle
        → map_run with_some (get_void body fuel (erased h) job)
          ≡ map_run erased_outcome (get body fuel h job)
    unfolding await_resume_void await_resume
    get-erased fuel h job filled = rw (run-erased fuel h job.handle filled) (
        over-erased job.handle (run_to_end body fuel h job.handle)
          (run-IsOver fuel h job.handle filled))
