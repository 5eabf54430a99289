-- ===== src/Capture/Slots.antt =====
-- CaptureSlots (src/main.cpp): its counter goes down at every setting.
use bop.Common.{
  ℕ, ◌^◌, ◌<◌, ◌≡◌, refl, sym, subst, ap, ◌∙◌, true, none, some, List, [], ◌∷◌, if◌then◌else◌,
  length, mem, Distinct, dec64, eqb_of_mem, mem_self, mem_later,
}
use bop.Memory.{fault, Returns}
use bop.Capture.{
  Capture, get_arg, put_arg, new_capture, set_arg_slots, set_arg, unwrap, call_capture,
}
use bop.Capture.Args.{
  InRange, indices, length-put_arg, get_arg-put_arg, length-no_args, get_arg-no_args,
}
use bop.Capture.Counts.{set_args, Answered, call_capture-set_args}

module _ {V T : Type 0} where
  -- A history of settings of a CaptureSlots, the first one first.
  abbrev pub set_args_slots : List (ℕ × V) → Capture V T → Capture V T
  set_args_slots [] c = c
  set_args_slots ((i, v) ∷ sets) c = set_args_slots sets (set_arg_slots i v c)

  same_sets :
      (n : ℕ) (sets : List (ℕ × V)) (c : Capture V T)
      → InRange n sets
      → Distinct (indices sets)
      → length c.args ≡ n
      → ((i : ℕ) → mem i (indices sets) ≡ true → get_arg c.args i ≡ none)
      → set_args_slots sets c ≡ set_args sets c
  unfolding set_arg set_arg_slots
  same_sets n [] c range distinct size free = refl
  same_sets n ((j, v) ∷ sets) c (lt, range) (new, distinct) size free =
      let here : get_arg c.args j ≡ none = free j (mem_self j (indices sets)) in
      rw here (
        same_sets n sets
          (record c { args = put_arg c.args j v; remaining_args = dec64 c.remaining_args }) range
          distinct (length-put_arg c.args j v ∙ size)
          (λ i m.
            get_arg-put_arg c.args j i v (rw size lt)
            ∙ ap (λ b. if b then some v else get_arg c.args i) (eqb_of_mem j i (indices sets) new m)
            ∙ free i (mem_later i j (indices sets) m)))

  -- For a CaptureSlots the same holds of a history that sets no argument twice.
  pub call_capture-set_args_slots :
      (fn : List V → T) (n : ℕ) (sets : List (ℕ × V))
      → n < 2 ^ 64
      → InRange n sets
      → Distinct (indices sets)
      → Returns (Answered fn n sets) (call_capture fn (set_args_slots sets (new_capture n)))
  call_capture-set_args_slots fn n sets small range distinct =
      subst (λ c. Returns (Answered fn n sets) (call_capture fn c))
        (sym (
          same_sets n sets (new_capture n) range distinct (length-no_args V n)
            (λ i m. get_arg-no_args V n i)))
        (call_capture-set_args fn n sets small range)

  -- The first of two arguments of a CaptureSlots that is set twice counts for both: `call` then reads
  -- the second one, which is empty.
  call_capture-set_twice :
      (fn : List V → T) (v w : V)
      → call_capture fn (set_args_slots ((0, v) ∷ (0, w) ∷ []) (new_capture 2)) ≡ fault
  unfolding call_capture unwrap set_arg_slots
  call_capture-set_twice fn v w = refl
