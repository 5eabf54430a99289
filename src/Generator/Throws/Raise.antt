-- ===== src/Generator/Throws/Raise.antt =====
-- A range-based loop over a coroutine that throws (src/job/co_generator.inl).
use bop.Common.{
  ℕ, zero, suc, ◌<◌, ◌≡◌, refl, ap, ◌∙◌, true, false, Option, some, List, [], ◌∷◌, arith, length,
  ◌==◌,
}
use bop.Memory.{
  Ptr, nullptr, Heap, ok, ◌>>=◌, load_lem, write, write_self, write_other, Returns, Returns-bind,
  Returns-mono,
}
use bop.Generator.{Frame, is_end, current}
use bop.Generator.Throws.{
  Advance, yields, throws, Raised, returned, raised, step_body, resumed_to, yielded, resume_raising,
  begin_raising, increment_raising, loop_raising, for_each_raising,
}

module _ {S T : Type 0} (body : S → Advance S T) where
  -- From the state `s` the body yields `vs`, and then throws `e`.
  abbrev pub Raises : S → List T → ℕ → Type 0
  Raises s [] e = body s ≡ throws e
  Raises s (v ∷ vs) e = (s' : S) × (body s ≡ yields v s') × Raises s' vs e

  -- The loop saw `vs` and was left by `e`, the coroutine is done, and the other ones have not changed.
  pub record LeftBy (h : Heap (Frame S T)) (p : Ptr) (vs : List T) (e : ℕ)
      (r : Heap (Frame S T) × List T × Option ℕ) : Type 0 where
    pub values : r.1 ≡ vs
    pub exception : r.2 ≡ some e
    pub frame : (f : Frame S T) × (r.0 p ≡ some f) × (f.done ≡ true)
    pub others : (a : Ptr) → (a == p) ≡ false → r.0 a ≡ h a

  resumed :
      (h : Heap (Frame S T)) (p : Ptr) (f g : Frame S T) (r : Raised (Unit {0}))
      → (p == nullptr) ≡ false
      → h p ≡ some f
      → f.done ≡ false
      → step_body (body f.state) f ≡ (g, r)
      → resume_raising body h p ≡ ok (write h p (some g), r)
  unfolding resume_raising
  resumed h p f g r ne found more step =
      rw (load_lem h p f ne found) (ap (resumed_to h p f) step ∙ rw more)

  module _ (h : Heap (Frame S T)) (p : Ptr) (ne : (p == nullptr) ≡ false) where
    loop_throws :
        (fuel : ℕ) (s : S) (v : T) (e : ℕ)
        → h p ≡ some (yielded s v)
        → body s ≡ throws e
        → loop_raising body (suc (suc fuel)) h (returned p)
          ≡ ok (
            write h p (some (record { state = s; current_value = some v; done = true })),
            v ∷ [],
            some e,
          )
    unfolding loop_raising is_end current increment_raising
    loop_throws fuel s v e found throwing = rw (
      ne,
      load_lem h p (yielded s v) ne found,
      resumed h p (yielded s v) (record { state = s; current_value = some v; done = true })
          (raised e) ne found refl (ap (λ t. step_body t (yielded s v)) throwing),
    )

    loop_yields :
        (fuel : ℕ) (s s' : S) (v w : T)
        → h p ≡ some (yielded s v)
        → body s ≡ yields w s'
        → loop_raising body (suc fuel) h (returned p) ≡ (
            loop_raising body fuel (write h p (some (yielded s' w))) (returned p) >>= λ (h2, vs, e).
            ok (h2, v ∷ vs, e))
    unfolding loop_raising is_end current increment_raising
    loop_yields fuel s s' v w found next = rw (
      ne,
      load_lem h p (yielded s v) ne found,
      resumed h p (yielded s v) (yielded s' w) (returned tt) ne found refl
          (ap (λ t. step_body t (yielded s v)) next),
      load_lem (write h p (some (yielded s' w))) p (yielded s' w) ne
          (write_self h p (some (yielded s' w))),
    )

  loop-LeftBy :
      (fuel : ℕ) (h : Heap (Frame S T)) (p : Ptr) (s : S) (v : T) (vs : List T) (e : ℕ)
      → (p == nullptr) ≡ false
      → h p ≡ some (yielded s v)
      → Raises s vs e
      → suc (length vs) < fuel
      → Returns (LeftBy h p (v ∷ vs) e) (loop_raising body fuel h (returned p))
  loop-LeftBy zero h p s v vs e ne found raising enough = absurd (omega arith)
  loop-LeftBy (suc zero) h p s v vs e ne found raising enough = absurd (omega arith)
  loop-LeftBy (suc (suc fuel)) h p s v [] e ne found raising enough =
      let f : Frame S T = record { state = s; current_value = some v; done = true } in
      rw (loop_throws h p ne fuel s v e found raising) (record {
        values = refl;
        exception = refl;
        frame = (f, write_self h p (some f), refl);
        others = λ a miss. write_other h p (some f) a miss;
      })
  loop-LeftBy (suc (suc fuel)) h p s v (w ∷ vs) e ne found (s', next, raising) enough =
      let f = yielded s' w in
      let h1 = write h p (some f) in
      rw (loop_yields h p ne (suc fuel) s s' v w found next) (
        Returns-bind (LeftBy h1 p (w ∷ vs) e) _ (loop_raising body (suc fuel) h1 (returned p)) _
          (loop-LeftBy (suc fuel) h1 p s' w vs e ne (write_self h p (some f)) raising (omega arith))
          λ (h2, ws, x) d. record {
            values = ap (λ l. v ∷ l) d.values;
            exception = d.exception;
            frame = d.frame;
            others = λ a miss. d.others a miss ∙ write_other h p (some f) a miss;
          })

  -- A range-based loop over a coroutine that is suspended, and not done, and from there yields `vs` and
  -- then throws: with more fuel than values and one unit more, its body sees `vs`, the exception leaves the loop, and the
  -- coroutine is done. The other coroutines have not changed.
  pub for_each-LeftBy :
      (fuel : ℕ) (h : Heap (Frame S T)) (p : Ptr) (f : Frame S T) (vs : List T) (e : ℕ)
      → (p == nullptr) ≡ false
      → h p ≡ some f
      → f.done ≡ false
      → Raises f.state vs e
      → length vs < fuel
      → Returns (LeftBy h p vs e) (for_each_raising body fuel h p)
  unfolding for_each_raising begin_raising loop_raising
  for_each-LeftBy zero h p f vs e ne found more raising enough = absurd (omega arith)
  for_each-LeftBy (suc fuel) h p f [] e ne found more raising enough =
      let g : Frame S T = record {
        state = f.state;
        current_value = f.current_value;
        done = true;
      } in
      rw (ne, resumed h p f g (raised e) ne found more (ap (λ t. step_body t f) raising))
        (record {
          values = refl;
          exception = refl;
          frame = (g, write_self h p (some g), refl);
          others = λ a miss. write_other h p (some g) a miss;
        })
  for_each-LeftBy (suc fuel) h p f (v ∷ vs) e ne found more (s', next, raising) enough =
      let g = yielded s' v in
      let h1 = write h p (some g) in
      rw (ne, resumed h p f g (returned tt) ne found more (ap (λ t. step_body t f) next))
        (Returns-mono (LeftBy h1 p (v ∷ vs) e) _ (loop_raising body (suc fuel) h1 (returned p))
          (loop-LeftBy (suc fuel) h1 p s' v vs e ne (write_self h p (some g)) raising (omega arith))
          λ (h2, ws, x) d. record {
            values = d.values;
            exception = d.exception;
            frame = d.frame;
            others = λ a miss. d.others a miss ∙ write_other h p (some g) a miss;
          })
