-- ===== src/Generator/Ownership.antt =====
-- The generators as owners of their coroutines: the constructors, the move assignment and the
-- destructor (src/job/co_generator.inl).
use bop.Common.{
  fun_ext, ℕ, ◌≡◌, sym, subst, Bool, true, false, ◌==◌, if◌then◌else◌, arith, Bool-cases, eqb_refl,
  inl, inr,
}
use mathlib.Core.Bool.{false≢true}
use bop.Memory.{Ptr, nullptr}

-- Which coroutines are on the heap, and m_Coroutine of each generator. A generator that is not
-- constructed, or no more, counts as one without a coroutine.
pub record Owners : Type 0 where
  pub live : Ptr → Bool
  pub coroutine : ℕ → Ptr

abbrev pub set_live : Ptr → Bool → Owners → Owners
set_live p b s = record s { live = λ a. if a == p then b else s.live a }

abbrev pub set_coroutine : ℕ → Ptr → Owners → Owners
set_coroutine g p s = record s { coroutine = λ k. if k == g then p else s.coroutine k }

-- get_return_object at a call of the coroutine function: a frame at the address `p`, owned by `g`.
unfoldable pub from_promise : ℕ → Ptr → Owners → Owners
from_promise g p s = set_coroutine g p (set_live p true s)

-- `if (m_Coroutine) m_Coroutine.destroy();`
unfoldable pub destroy : ℕ → Owners → Owners
destroy g s = if s.coroutine g == nullptr then s else set_live (s.coroutine g) false s

-- `~Generator()`; there is no generator after it.
unfoldable pub destructor : ℕ → Owners → Owners
unfolding destroy
destructor g s = set_coroutine g nullptr (destroy g s)

-- `Generator this(std::move(g))`
unfoldable pub move_construct : ℕ → ℕ → Owners → Owners
move_construct this g s = set_coroutine g nullptr (set_coroutine this (s.coroutine g) s)

-- `this = std::move(g)`
unfoldable pub move_assign : ℕ → ℕ → Owners → Owners
unfolding destroy
move_assign this g s =
    if g == this
    then s
    else let s1 = destroy this s in set_coroutine g nullptr (set_coroutine this (s1.coroutine g) s1)

-- Every coroutine on the heap has one generator that owns it, and no generator owns another one.
pub record IsOwned (s : Owners) : Type 0 where
  pub null_free : s.live nullptr ≡ false
  pub owns : (g : ℕ) → (s.coroutine g == nullptr) ≡ false → s.live (s.coroutine g) ≡ true
  pub once : (g k : ℕ) → (s.coroutine g == nullptr) ≡ false → s.coroutine g ≡ s.coroutine k → g ≡ k
  pub no_leak : (p : Ptr) → s.live p ≡ true → (g : ℕ) × (s.coroutine g ≡ p)

-- The calls of a program. A constructor works on a generator without a coroutine.
pub data Call : Type 0 where
  makes : ℕ → Ptr → Call
  moves : ℕ → ℕ → Call
  assigns : ℕ → ℕ → Call
  ends : ℕ → Call

abbrev pub step : Owners → Call → Owners
step s (makes g p) = from_promise g p s
step s (moves this g) = move_construct this g s
step s (assigns this g) = move_assign this g s
step s (ends g) = destructor g s

abbrev pub Admits : Owners → Call → Type 0
Admits s (makes g p) = (s.coroutine g ≡ nullptr) × ((p == nullptr) ≡ false) × (s.live p ≡ false)
Admits s (moves this g) = (s.coroutine this ≡ nullptr) × ((g == this) ≡ false)
Admits s (assigns this g) = Unit
Admits s (ends g) = Unit

-- The coroutine of `g` is destroyed, and `g` has none.
destroyed-IsOwned :
    (g : ℕ) (s : Owners)
    → (s.coroutine g == nullptr) ≡ false
    → IsOwned s
    → IsOwned (set_coroutine g nullptr (set_live (s.coroutine g) false s))
destroyed-IsOwned g s ne o = record {
  null_free = ground (arith, o.null_free);
  owns = λ k ne'. elim (Bool-cases (k == g)) [
    | inl hit ↦ absurd (false≢true (sym (rw hit at ne')))
    | inr miss ↦ ground (arith, o.owns k, o.once g k)
  ];
  once = λ k l ne' e. ground (arith, o.once k l);
  no_leak = λ p m. let (k, at_p) = o.no_leak p (ground arith) in (k, ground arith);
}

-- A generator without a coroutine is cleared.
cleared-IsOwned :
    (g : ℕ) (s : Owners)
    → (s.coroutine g == nullptr) ≡ true
    → IsOwned s
    → IsOwned (set_coroutine g nullptr s)
cleared-IsOwned g s e o = record {
  null_free = o.null_free;
  owns = λ k ne'. ground (arith, o.owns k);
  once = λ k l ne' e. ground (arith, o.once k l);
  no_leak = λ p m. let (k, at_p) = o.no_leak p m in (k, ground (arith, o.null_free));
}

handed_over-IsOwned :
    (this g : ℕ) (s : Owners)
    → s.coroutine this ≡ nullptr
    → (g == this) ≡ false
    → IsOwned s
    → IsOwned (set_coroutine g nullptr (set_coroutine this (s.coroutine g) s))
handed_over-IsOwned this g s e ne o = record {
  null_free = o.null_free;
  owns = λ k ne'. ground (arith, o.owns k, o.owns g);
  once = λ k l ne' e'. ground (arith, o.once k l, o.once g l, o.once k g);
  no_leak = λ p m.
      let (k, at_p) = o.no_leak p m in
      elim (Bool-cases (k == g)) [
        | inl hit ↦ (this, ground arith)
        | inr miss ↦ (k, ground (arith, o.null_free))
      ];
}

made-IsOwned :
    (g : ℕ) (p : Ptr) (s : Owners)
    → s.coroutine g ≡ nullptr
    → (p == nullptr) ≡ false
    → s.live p ≡ false
    → IsOwned s
    → IsOwned (set_coroutine g p (set_live p true s))
made-IsOwned g p s e ne new o = record {
  null_free = ground (arith, o.null_free);
  owns = λ k ne'. ground (arith, o.owns k);
  once = λ k l ne' e'. ground (arith, o.once k l, o.owns k, o.owns l);
  no_leak = λ a m. elim (Bool-cases (a == p)) [
    | inl hit ↦ (g, ground arith)
    | inr miss ↦ let (k, at_a) = o.no_leak a (ground arith) in (k, ground (arith, o.null_free))
  ];
}

destructor-IsOwned : (g : ℕ) (s : Owners) → IsOwned s → IsOwned (destructor g s)
unfolding destructor destroy
destructor-IsOwned g s o = elim (Bool-cases (s.coroutine g == nullptr)) [
  | inl e ↦ rw e (cleared-IsOwned g s e o)
  | inr ne ↦ rw ne (destroyed-IsOwned g s ne o)
]

-- An assignment destroys what `this` owned, and then hands over.
assigned-IsOwned : (this g : ℕ) (s : Owners) → IsOwned s → IsOwned (move_assign this g s)
unfolding move_assign destroy
assigned-IsOwned this g s o = elim (Bool-cases (g == this)) [
  | inl same ↦ rw same o
  | inr other ↦ elim (Bool-cases (s.coroutine this == nullptr)) [
    | inl e ↦ rw (other, e) (handed_over-IsOwned this g s (ground arith) other o)
    | inr ne ↦
        let s0 = set_live (s.coroutine this) false s in
        let cleared : IsOwned (set_coroutine this nullptr s0) = destroyed-IsOwned this s ne o in
        rw (other, ne)
          (subst (λ (f : ℕ → Ptr). IsOwned (record { live = s0.live; coroutine = f }))
            (fun_ext λ k. ground (arith, other))
            (handed_over-IsOwned this g (set_coroutine this nullptr s0) (rw (eqb_refl this)) other
              cleared))
  ]
]

-- If each constructor works on a generator without a coroutine, a coroutine is made at an unused
-- address, and no generator is moved into itself by a constructor, then after any of the calls every
-- coroutine on the heap has one generator that owns it, and no generator owns another one: none is
-- leaked, and none is destroyed twice.
pub step-IsOwned : (s : Owners) (c : Call) → Admits s c → IsOwned s → IsOwned (step s c)
unfolding from_promise move_construct
step-IsOwned s (makes g p) (e, ne, new) o = made-IsOwned g p s e ne new o
step-IsOwned s (moves this g) (e, ne) o = handed_over-IsOwned this g s e ne o
step-IsOwned s (assigns this g) adm o = assigned-IsOwned this g s o
step-IsOwned s (ends g) adm o = destructor-IsOwned g s o
