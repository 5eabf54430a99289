-- ===== src/RecursiveSpinLock/Moves.antt =====
-- Each step of a RecursiveSpinLock (src/util/spinlock.cpp) keeps its invariant.
use bop.Common.{
  ℕ, suc, ◌+◌, ◌^◌, ◌<◌, ◌≡◌, refl, sym, ◌∙◌, true, false, ◌||◌, ltb, inc64, dec64, ◌==◌,
  if◌then◌else◌, arith, Bool-cases, eq_of_eqb, inl, inr,
}
use mathlib.Core.Bool.{false≢true}
use bop.RecursiveSpinLock.{
  Pc, idle, loading, trying, comparing, try_comparing, waiting, counting, releasing,
  RecursiveSpinLock, update, goto, get_local_hash, advance, unlock,
}
use bop.RecursiveSpinLock.Inv.{at_end, is_owner, asks, has_none, Inv, moved}

-- A thread changes its place alone.
pub goto-Inv :
    (me : ℕ) (p : Pc) (s : RecursiveSpinLock)
    → Inv s
    → is_owner (record (s.threads me) { pc = p }) ≡ is_owner (s.threads me)
    → (asks p ≡ true → ((s.threads me).hash == 0) ≡ false)
    → (has_none p ≡ true → (s.threads me).depth ≡ 0)
    → Inv (goto me p s)
goto-Inv me p s v same a n =
    moved me (record (s.threads me) { pc = p }) s.semaphore s.count s v
      (record {
        hash = refl;
        named = v.named;
        owner = λ o. v.owner me (sym same ∙ o);
        back = λ ne e. same ∙ v.back me ne e;
        others = λ k miss o. (refl, refl);
        others_back = λ k miss ne e. e;
        free = v.free;
        asked = a;
        none = n;
      })

-- The exchange of a thread that has no acquisition meets a semaphore that names nobody.
taken-Inv :
    (me : ℕ) (s : RecursiveSpinLock)
    → Inv s
    → s.semaphore ≡ 0
    → ((s.threads me).hash == 0) ≡ false
    → (s.threads me).depth ≡ 0
    → Inv (update me (record (s.threads me) { pc = counting }) (s.threads me).hash s.count s)
taken-Inv me s v clear named none =
    moved me (record (s.threads me) { pc = counting }) (s.threads me).hash s.count s v
      (record {
        hash = refl;
        named = v.ids me;
        owner = λ o. (refl, named, v.free clear ∙ sym none);
        back = λ ne e. ground arith;
        others = λ k miss o. ground (arith, v.owner k o);
        others_back = λ k miss ne e. ground (arith, v.distinct me k named e);
        free = λ e. v.free clear;
        asked = λ a. named;
        none = λ a. none;
      })

counted-Inv :
    (me : ℕ) (s : RecursiveSpinLock)
    → Inv s
    → (s.threads me).pc ≡ counting
    → (s.threads me).depth + 1 < 2 ^ 64
    → Inv (
        update me
          (record (s.threads me) { pc = idle; depth = (s.threads me).depth + 1 })
          s.semaphore
          (inc64 s.count)
          s)
counted-Inv me s v at small =
    let d = v.owner me (rw at (ground arith)) in
    moved me _ s.semaphore (inc64 s.count) s v (record {
      hash = refl;
      named = v.named;
      owner = λ o. (d.0, d.1, omega (arith, d.2, small));
      back = λ ne e. ground arith;
      others = λ k miss o. ground (arith, v.owner k o, v.distinct me k d.1, d.0);
      others_back = λ k miss ne e. e;
      free = λ e. ground (arith, d.0, d.1, e);
      asked = λ a. absurd (false≢true a);
      none = λ a. absurd (false≢true a);
    })

released-Inv :
    (me : ℕ) (s : RecursiveSpinLock)
    → Inv s
    → (s.threads me).pc ≡ releasing
    → Inv (update me (record (s.threads me) { pc = idle }) 0 s.count s)
released-Inv me s v at =
    let d = v.owner me (rw at (ground arith)) in
    let none : (s.threads me).depth ≡ 0 = v.none me (rw at refl) in
    moved me _ 0 s.count s v (record {
      hash = refl;
      named = ground (arith, v.ids me);
      owner = λ o. ground (arith, none);
      back = λ ne e. ground arith;
      others = λ k miss o. ground (arith, v.owner k o, v.distinct me k d.1, d.0);
      others_back = λ k miss ne e. ground arith;
      free = λ e. d.2 ∙ none;
      asked = λ a. absurd (false≢true a);
      none = λ a. none;
    })

pub unlock-Inv :
    (me rest : ℕ) (s : RecursiveSpinLock)
    → Inv s
    → (s.threads me).pc ≡ idle
    → (s.threads me).depth ≡ suc rest
    → suc rest < 2 ^ 64
    → Inv (unlock me rest s)
unfolding unlock
unlock-Inv me rest s v at deep small =
    let d = v.owner me (rw deep (ground arith)) in
    let left : dec64 s.count ≡ rest = omega (arith, d.2, deep, small) in
    rw left (
      moved me _ s.semaphore rest s v (record {
        hash = refl;
        named = v.named;
        owner = λ o. (d.0, d.1, refl);
        back = λ ne e. owns;
        others = λ k miss o. ground (arith, v.owner k o, v.distinct me k d.1, d.0);
        others_back = λ k miss ne e. e;
        free = λ e. ground (arith, d.0, d.1, e);
        asked = λ a. d.1;
        none = λ a. none a;
      }))
  where
    owns : ltb 0 rest || at_end (if rest == 0 then releasing else idle) ≡ true
    owns = elim (Bool-cases (rest == 0)) [
      | inl last ↦ rw last (ground arith)
      | inr more ↦ ground arith
    ]

    none : has_none (if rest == 0 then releasing else idle) ≡ true → rest ≡ 0
    none a = elim (Bool-cases (rest == 0)) [
      | inl last ↦ ground arith
      | inr more ↦ absurd (false≢true (rw more at a))
    ]

-- A thread whose hash the semaphore names has it, and may count; any other one has no acquisition.
mine-Inv :
    (me : ℕ) (s : RecursiveSpinLock)
    → Inv s
    → at_end (s.threads me).pc ≡ false
    → ((s.threads me).hash == 0) ≡ false
    → (s.semaphore == (s.threads me).hash) ≡ true
    → Inv (goto me counting s)
mine-Inv me s v away named mine =
    let o : is_owner (s.threads me) ≡ true =
      v.back me named (eq_of_eqb s.semaphore (s.threads me).hash mine) in
    goto-Inv me counting s v (ground (arith, o)) (λ a. named) (λ a. absurd (false≢true a))

depth-other :
    (me : ℕ) (s : RecursiveSpinLock)
    → Inv s
    → (s.semaphore == (s.threads me).hash) ≡ false
    → (s.threads me).depth ≡ 0
depth-other me s v other = elim (Bool-cases (ltb 0 (s.threads me).depth)) [
  | inl deep ↦ ground (arith, (v.owner me (rw deep)).0)
  | inr none ↦ ground arith
]

pub advance-Inv :
    (me : ℕ) (p : Pc) (s : RecursiveSpinLock)
    → (s.threads me).pc ≡ p
    → (s.threads me).depth + 1 < 2 ^ 64
    → Inv s
    → Inv (advance me s)
unfolding advance
advance-Inv me idle s at small v = rw (advance, at) v
advance-Inv me loading s at small v = elim (Bool-cases (s.semaphore == (s.threads me).hash)) [
  | inl mine ↦ rw (advance, at, mine) (mine-Inv me s v (rw at) (v.asked me (rw at refl)) mine)
  | inr other ↦
      rw (advance, at, other)
        (goto-Inv me comparing s v (rw at) (λ a. v.asked me (rw at refl))
          (λ a. depth-other me s v other))
]
advance-Inv me trying s at small v =
    let named = v.asked me (rw at refl) in
    elim (Bool-cases (s.semaphore == 0)) [
      | inl clear ↦
          rw (advance, at, clear)
            (goto-Inv me try_comparing s v (rw at) (λ a. named)
              (λ a. depth-other me s v (ground (arith, named))))
      | inr set ↦ elim (Bool-cases (s.semaphore == (s.threads me).hash)) [
        | inl mine ↦ rw (advance, at, set, mine) (mine-Inv me s v (rw at) named mine)
        | inr other ↦
            rw (advance, at, set, other)
              (goto-Inv me idle s v (rw at) (λ a. named) (λ a. absurd (false≢true a)))
      ]
    ]
advance-Inv me comparing s at small v = elim (Bool-cases (s.semaphore == 0)) [
  | inl clear ↦
      rw (advance, at, clear)
        (taken-Inv me s v (eq_of_eqb s.semaphore 0 clear) (v.asked me (rw at refl))
          (v.none me (rw at refl)))
  | inr set ↦
      rw (advance, at, set)
        (goto-Inv me waiting s v (rw at) (λ a. v.asked me (rw at refl))
          (λ a. v.none me (rw at refl)))
]
advance-Inv me try_comparing s at small v = elim (Bool-cases (s.semaphore == 0)) [
  | inl clear ↦
      rw (advance, at, clear)
        (taken-Inv me s v (eq_of_eqb s.semaphore 0 clear) (v.asked me (rw at refl))
          (v.none me (rw at refl)))
  | inr set ↦
      rw (advance, at, set)
        (goto-Inv me idle s v (rw at) (λ a. v.asked me (rw at refl)) (λ a. v.none me (rw at refl)))
]
advance-Inv me waiting s at small v = elim (Bool-cases (s.semaphore == 0)) [
  | inl clear ↦
      rw (advance, at, clear)
        (goto-Inv me comparing s v (rw at) (λ a. v.asked me (rw at refl))
          (λ a. v.none me (rw at refl)))
  | inr set ↦ rw (advance, at, set) v
]
advance-Inv me counting s at small v = rw (advance, at) (counted-Inv me s v at small)
advance-Inv me releasing s at small v = rw (advance, at) (released-Inv me s v at)

-- A call of get_local_hash.
pub hashed-Inv :
    (me : ℕ) (s : RecursiveSpinLock) → Inv s → s.shared_id + 1 < 2 ^ 64 → Inv (get_local_hash me s)
unfolding get_local_hash
hashed-Inv me s v small = elim (Bool-cases ((s.threads me).hash == 0)) [
  | inr known ↦ rw known v
  | inl unknown ↦ rw unknown (numbered unknown)
]
  where
    next : inc64 s.shared_id ≡ s.shared_id + 1
    next = omega (arith, small)

    numbered :
        ((s.threads me).hash == 0) ≡ true
        → Inv (record s {
          shared_id = inc64 s.shared_id;
          threads =
              λ i. if me == i then record (s.threads me) { hash = s.shared_id } else s.threads i;
        })
    numbered unknown = record {
      ids = λ i. elim (Bool-cases (me == i)) [
        | inl hit ↦ rw (hit, next) (omega arith)
        | inr miss ↦ rw (miss, next) (omega (arith, v.ids i))
      ];
      named = omega (arith, v.named, next);
      distinct = λ i j ne e. ground (arith, v.distinct i j, v.ids i, v.ids j, ne, e);
      owner = λ i. elim (Bool-cases (me == i)) [
        | inl hit ↦ rw hit (λ o. absurd (false≢true (sym (v.owner me o).1 ∙ unknown)))
        | inr miss ↦ rw miss (v.owner i)
      ];
      back = λ i. elim (Bool-cases (me == i)) [
        | inl hit ↦ rw hit (λ ne e. absurd (omega (arith, v.named, e)))
        | inr miss ↦ rw miss (v.back i)
      ];
      free = v.free;
      asked = λ i. elim (Bool-cases (me == i)) [
        | inl hit ↦ rw hit (λ a. ground (arith, v.named))
        | inr miss ↦ rw miss (v.asked i)
      ];
      none = λ i. elim (Bool-cases (me == i)) [
        | inl hit ↦ rw hit (v.none me)
        | inr miss ↦ rw miss (v.none i)
      ];
    }
