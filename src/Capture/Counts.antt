-- ===== src/Capture/Counts.antt =====
-- The counter of a CaptureLambda (src/main.cpp) against the arguments that are not set yet.
use bop.Common.{
  ℕ, ◌^◌, ◌<◌, ◌≡◌, refl, sym, ap, ◌∙◌, Bool, true, false, none, some, List, [], ◌∷◌, arith, ◌==◌,
  length, Bool-cases, inl, inr, ◌⊎◌,
}
use bop.Memory.{Returns}
use bop.Capture.{Capture, get_arg, new_capture, set_arg, call_capture}
use bop.Capture.Args.{
  unset, all_some, latest, InRange, unset-put_arg, length-put_arg, get_arg-put_arg, unset-length,
  unwrap-all_some, first_unset, length-no_args, unset-no_args, get_arg-no_args,
}

module _ {V T : Type 0} where
  -- The counter says how many arguments are not set. It is a std::size_t.
  pub record IsCounted (n : ℕ) (c : Capture V T) : Type 0 where
    pub count : c.remaining_args ≡ unset c.args
    pub size : length c.args ≡ n

  set_arg-IsCounted :
      (n i : ℕ) (v : V) (c : Capture V T)
      → n < 2 ^ 64
      → i < n
      → IsCounted n c
      → IsCounted n (set_arg i v c)
  unfolding set_arg
  set_arg-IsCounted n i v c small lt d = record {
    count = ground (
      arith,
      small,
      lt,
      d.count,
      d.size,
      unset-put_arg c.args i v (rw d.size lt),
      unset-length c.args,
    );
    size = length-put_arg c.args i v ∙ d.size;
  }

  -- A history of settings, the first one first.
  abbrev pub set_args : List (ℕ × V) → Capture V T → Capture V T
  set_args [] c = c
  set_args ((i, v) ∷ sets) c = set_args sets (set_arg i v c)

  -- What a history leaves.
  record WasSet (n : ℕ) (sets : List (ℕ × V)) (b c : Capture V T) : Type 0 where
    counted : IsCounted n c
    values : (i : ℕ) → get_arg c.args i ≡ latest (get_arg b.args i) sets i
    result : c.result ≡ b.result

  set_args-WasSet :
      (n : ℕ) (sets : List (ℕ × V)) (c : Capture V T)
      → n < 2 ^ 64
      → InRange n sets
      → IsCounted n c
      → WasSet n sets c (set_args sets c)
  unfolding set_arg
  set_args-WasSet n [] c small range d = record { counted = d; values = λ i. refl; result = refl }
  set_args-WasSet n ((j, v) ∷ sets) c small (lt, range) d =
      let rest =
        set_args-WasSet n sets (set_arg j v c) small range (set_arg-IsCounted n j v c small lt d) in
      record {
        counted = rest.counted;
        values = λ i.
            rest.values i ∙ ap (λ o. latest o sets i) (get_arg-put_arg c.args j i v (rw d.size lt));
        result = rest.result;
      }

  -- `call` after a history of settings of a capture of `n` arguments.
  abbrev pub Answered : (List V → T) → ℕ → List (ℕ × V) → Capture V T × Bool → Type 0
  Answered fn n sets (c, called) =
      ((called ≡ true)
        × ((vs : List V) × (length (all_some vs) ≡ n)
            × ((i : ℕ) → get_arg (all_some vs) i ≡ latest none sets i)
            × (c.result ≡ some (fn vs))))
      ⊎ ((called ≡ false) × ((i : ℕ) × (i < n) × (latest none sets i ≡ none)) × (c.result ≡ none))

  call_capture-Answered :
      (fn : List V → T) (n : ℕ) (sets : List (ℕ × V)) (c : Capture V T)
      → WasSet n sets (new_capture n) c
      → Returns (Answered fn n sets) (call_capture fn c)
  unfolding call_capture
  call_capture-Answered fn n sets c d = elim (Bool-cases (unset c.args == 0)) [
    | inl full ↦
        let (vs, same, there) = unwrap-all_some c.args (ground arith) in
        rw (d.counted.count, full, there)
          (inl (
            refl,
            (
              vs,
              ap length (sym same) ∙ d.counted.size,
              (λ i. ap (λ l. get_arg l i) (sym same) ∙ value i),
              refl,
            ),
          ))
    | inr open_args ↦
        let (i, lt, there) = first_unset c.args open_args in
        rw (d.counted.count, open_args)
          (inr (refl, (i, rw d.counted.size at lt, sym (value i) ∙ there), d.result))
  ]
    where
      value : (i : ℕ) → get_arg c.args i ≡ latest none sets i
      value i = d.values i ∙ ap (λ o. latest o sets i) (get_arg-no_args V n i)

  -- After any history of settings of the `n` arguments of a CaptureLambda, `call` returns. It returns
  -- true and leaves the result of the function at the values that were set last, if each argument was
  -- set; else it returns false, and leaves no result.
  pub call_capture-set_args :
      (fn : List V → T) (n : ℕ) (sets : List (ℕ × V))
      → n < 2 ^ 64
      → InRange n sets
      → Returns (Answered fn n sets) (call_capture fn (set_args sets (new_capture n)))
  call_capture-set_args fn n sets small range =
      call_capture-Answered fn n sets (set_args sets (new_capture n)) (
        set_args-WasSet n sets (new_capture n) small range
          (record { count = sym (unset-no_args V n); size = length-no_args V n }))
