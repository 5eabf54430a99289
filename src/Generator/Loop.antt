-- ===== src/Generator/Loop.antt =====
-- A range-based loop over a generator sees what its coroutine yields.
use bop.Common.{
  ℕ, zero, suc, ◌<◌, ◌≡◌, refl, ap, ◌∙◌, true, false, Option, none, some, List, [], ◌∷◌, arith,
  length, ◌==◌, if◌then◌else◌,
}
use bop.Memory.{
  Ptr, nullptr, Heap, ok, stuck, ◌>>=◌, load_lem, write, write_self, write_other, Returns,
  Returns-bind, Returns-mono,
}
use bop.Generator.{Frame, advance, resume, begin, increment, is_end, current, loop, for_each}

module _ {S T : Type 0} (body : S → Option (T × S)) where
  -- From the state `s` the body yields `vs`, and then returns.
  abbrev pub Yields : S → List T → Type 0
  Yields s [] = body s ≡ none
  Yields s (v ∷ vs) = (s' : S) × (body s ≡ some (v, s')) × Yields s' vs

  abbrev pub at_value : S → T → Frame S T
  at_value s v = record { state = s; current_value = some v; done = false }

  abbrev pub IsFinished : Heap (Frame S T) → Ptr → Type 0
  IsFinished h p = (s : S) × (h p ≡ some (record { state = s; current_value = none; done = true }))

  -- The coroutine is finished, the loop saw `vs`, and the other coroutines have not changed.
  pub record Looped (h : Heap (Frame S T)) (p : Ptr) (vs : List T) (r : Heap (Frame S T) × List T)
      : Type 0 where
    pub values : r.1 ≡ vs
    pub finished : IsFinished r.0 p
    pub others : (a : Ptr) → (a == p) ≡ false → r.0 a ≡ h a

  loop_at_null : (fuel : ℕ) (h : Heap (Frame S T)) → loop body (suc fuel) h nullptr ≡ ok (h, [])
  unfolding loop is_end
  loop_at_null fuel h = refl

  loop_at_done :
      (fuel : ℕ) (h : Heap (Frame S T)) (p : Ptr) (f : Frame S T)
      → (p == nullptr) ≡ false
      → h p ≡ some f
      → f.done ≡ true
      → loop body (suc fuel) h p ≡ ok (h, [])
  unfolding loop is_end
  loop_at_done fuel h p f ne e stop = rw (ne, load_lem h p f ne e, stop)

  pub resumed :
      (h : Heap (Frame S T)) (p : Ptr) (f : Frame S T)
      → (p == nullptr) ≡ false
      → h p ≡ some f
      → f.done ≡ false
      → resume body h p ≡ ok (write h p (some (advance body f)))
  unfolding resume
  resumed h p f ne e more = rw (load_lem h p f ne e, more)

  loop_round :
      (fuel : ℕ) (h : Heap (Frame S T)) (p : Ptr) (s : S) (v : T) (f : Frame S T)
      → (p == nullptr) ≡ false
      → h p ≡ some (at_value s v)
      → advance body (at_value s v) ≡ f
      → loop body (suc fuel) h p ≡ (
          loop body fuel (write h p (some f)) (if f.done then nullptr else p) >>= λ (h2, vs).
          ok (h2, v ∷ vs))
  unfolding loop is_end current increment
  loop_round fuel h p s v f ne e next = rw (
    ne,
    load_lem h p (at_value s v) ne e,
    resumed h p (at_value s v) ne e refl,
    next,
    load_lem (write h p (some f)) p f ne (write_self h p (some f)),
  )

  advance_end :
      (s : S) (v : T)
      → body s ≡ none
      → advance body (at_value s v) ≡ record { state = s; current_value = none; done = true }
  advance_end s v e = rw (advance, e)

  advance_next :
      (f : Frame S T) (s' : S) (v' : T)
      → body f.state ≡ some (v', s')
      → advance body f ≡ at_value s' v'
  advance_next f s' v' e = rw (advance, e)

  loop-Looped :
      (fuel : ℕ) (h : Heap (Frame S T)) (p : Ptr) (s : S) (v : T) (vs : List T)
      → (p == nullptr) ≡ false
      → h p ≡ some (at_value s v)
      → Yields s vs
      → suc (length vs) < fuel
      → Returns (Looped h p (v ∷ vs)) (loop body fuel h p)
  loop-Looped zero h p s v vs ne e yields enough = absurd (omega arith)
  loop-Looped (suc zero) h p s v vs ne e yields enough = absurd (omega arith)
  loop-Looped (suc (suc fuel)) h p s v [] ne e yields enough =
      let f : Frame S T = record { state = s; current_value = none; done = true } in
      rw
        (
          loop_round (suc fuel) h p s v f ne e (advance_end s v yields),
          loop_at_null fuel (write h p (some f)),
        )
        (record {
          values = refl;
          finished = (s, write_self h p (some f));
          others = λ a miss. write_other h p (some f) a miss;
        })
  loop-Looped (suc (suc fuel)) h p s v (w ∷ vs) ne e (s', y, yields) enough =
      let f = at_value s' w in
      let h1 = write h p (some f) in
      rw (loop_round (suc fuel) h p s v f ne e (advance_next (at_value s v) s' w y)) (
        Returns-bind (Looped h1 p (w ∷ vs)) _ (loop body (suc fuel) h1 p) _
          (loop-Looped (suc fuel) h1 p s' w vs ne (write_self h p (some f)) yields (omega arith))
          λ (h2, ws) d. record {
            values = ap (λ l. v ∷ l) d.values;
            finished = d.finished;
            others = λ a miss. d.others a miss ∙ write_other h p (some f) a miss;
          })

  -- A range-based loop over a coroutine that is suspended, and not done, and from there yields `vs` and
  -- then returns: with more fuel than values the loop ends, its body sees `vs`, and the coroutine is done.
  -- The other coroutines have not changed.
  pub for_each-Looped :
      (fuel : ℕ) (h : Heap (Frame S T)) (p : Ptr) (f : Frame S T) (vs : List T)
      → (p == nullptr) ≡ false
      → h p ≡ some f
      → f.done ≡ false
      → Yields f.state vs
      → length vs < fuel
      → Returns (Looped h p vs) (for_each body fuel h p)
  unfolding for_each begin
  for_each-Looped zero h p f vs ne e more yields enough = absurd (omega arith)
  for_each-Looped (suc fuel) h p f [] ne e more yields enough =
      let g : Frame S T = record { state = f.state; current_value = none; done = true } in
      let at_end : advance body f ≡ g = rw (advance, yields) in
      rw
        (
          ne,
          resumed h p f ne e more,
          at_end,
          loop_at_done fuel (write h p (some g)) p g ne (write_self h p (some g)) refl,
        )
        (record {
          values = refl;
          finished = (f.state, write_self h p (some g));
          others = λ a miss. write_other h p (some g) a miss;
        })
  for_each-Looped (suc fuel) h p f (v ∷ vs) ne e more (s', y, yields) enough =
      let g = at_value s' v in
      let h1 = write h p (some g) in
      rw (ne, resumed h p f ne e more, advance_next f s' v y)
        (Returns-mono (Looped h1 p (v ∷ vs)) _ (loop body (suc fuel) h1 p)
          (loop-Looped (suc fuel) h1 p s' v vs ne (write_self h p (some g)) yields (omega arith))
          λ (h2, ws) d. record {
            values = d.values;
            finished = d.finished;
            others = λ a miss. d.others a miss ∙ write_other h p (some g) a miss;
          })

  -- A loop over a coroutine that always yields again never ends, whatever the fuel.
  module _ (P : S → Type 0)
      (again : (s : S) → P s → (v : T) × (s' : S) × (body s ≡ some (v, s')) × P s') where
    loop_endless :
        (fuel : ℕ) (h : Heap (Frame S T)) (p : Ptr) (s : S) (v : T)
        → (p == nullptr) ≡ false
        → h p ≡ some (at_value s v)
        → P s
        → loop body fuel h p ≡ stuck
    unfolding loop
    loop_endless zero h p s v ne e more = refl
    loop_endless (suc fuel) h p s v ne e more =
        let (w, s', y, more') = again s more in
        let f = at_value s' w in
        rw (
          loop_round fuel h p s v f ne e (advance_next (at_value s v) s' w y),
          loop_endless fuel (write h p (some f)) p s' w ne (write_self h p (some f)) more',
        )

    pub for_each_endless :
        (fuel : ℕ) (h : Heap (Frame S T)) (p : Ptr) (f : Frame S T)
        → (p == nullptr) ≡ false
        → h p ≡ some f
        → f.done ≡ false
        → P f.state
        → for_each body fuel h p ≡ stuck
    unfolding for_each begin
    for_each_endless fuel h p f ne e more start =
        let (v, s', y, more') = again f.state start in
        rw (
          ne,
          resumed h p f ne e more,
          advance_next f s' v y,
          loop_endless fuel (write h p (some (at_value s' v))) p s' v ne
              (write_self h p (some (at_value s' v))) more',
        )
