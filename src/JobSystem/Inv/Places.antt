-- ===== src/JobSystem/Inv/Places.antt =====
-- Which jobs the queues of the pool (src/job/job_system.h) hold, and that no job is in two.
use bop.Common.{
  ◌≡◌, sym, ap, subst, fun_ext, true, false, List, arith, mem, ◌∙◌, if◌then◌else◌, Bool-cases, inl,
  inr,
}
use bop.Memory.{Ptr}
use bop.JobQueue.Locked.{IsIdle}
use bop.JobSystem.State.{
  Place, global_queue, local_queue, recycling_bin, garbage_bin, same_place, System,
}

-- The jobs in each queue, front first.
abbrev pub Contents : Type 0
Contents = Place → List Ptr

pub record Inv (s : System) (c : Contents) : Type 0 where
  pub idle : (x : Place) → IsIdle s.heap (s.queues x) (c x)
  pub apart :
      (x y : Place) (p : Ptr) → mem p (c x) ≡ true → mem p (c y) ≡ true → same_place x y ≡ true

-- The contents of one place replaced.
abbrev pub put : Contents → Place → List Ptr → Contents
put c x ps y = if same_place x y then ps else c y

abbrev pub NotQueued : Contents → Ptr → Type 0
NotQueued c p = (x : Place) → mem p (c x) ≡ false

pub same_place_eq : (x y : Place) → same_place x y ≡ true → x ≡ y
same_place_eq (global_queue i) (global_queue j) e = ground arith
same_place_eq (local_queue i) (local_queue j) e = ground arith
same_place_eq (recycling_bin i) (recycling_bin j) e = ground arith
same_place_eq (garbage_bin i) (garbage_bin j) e = ground arith
same_place_eq _ _ e = cc

pub same_place_refl : (x : Place) → same_place x x ≡ true
same_place_refl (global_queue i) = ground arith
same_place_refl (local_queue i) = ground arith
same_place_refl (recycling_bin i) = ground arith
same_place_refl (garbage_bin i) = ground arith

-- No job is in two places.
abbrev pub Apart : Contents → Type 0
Apart c = (x y : Place) (p : Ptr) → mem p (c x) ≡ true → mem p (c y) ≡ true → same_place x y ≡ true

pub same_place_sym : (x y : Place) → same_place x y ≡ true → same_place y x ≡ true
same_place_sym x y e = rw (same_place_eq x y e) (same_place_refl y)

same_place_trans :
    (x y z : Place) → same_place x y ≡ true → same_place x z ≡ true → same_place y z ≡ true
same_place_trans x y z e e' = subst (λ w. same_place w z ≡ true) (same_place_eq x y e) e'

-- New contents of `x` leave the places apart, if what they hold is queued at `x` at most.
pub put-Apart :
    (c : Contents) (x : Place) (ps : List Ptr)
    → Apart c
    → ((y : Place) (p : Ptr) → mem p ps ≡ true → mem p (c y) ≡ true → same_place x y ≡ true)
    → Apart (put c x ps)
put-Apart c x ps apart own y z p = elim (Bool-cases (same_place x y)) [
  | inl e ↦ elim (Bool-cases (same_place x z)) [
    | inl e' ↦ λ _ _. same_place_trans x y z e e'
    | inr ne' ↦ rw (e, ne') (λ m m'. same_place_trans x y z e (own z p m m'))
  ]
  | inr ne ↦ elim (Bool-cases (same_place x z)) [
    | inl e' ↦ rw (ne, e') (λ m m'. same_place_sym z y (same_place_trans x z y e' (own y p m' m)))
    | inr ne' ↦ rw (ne, ne') (λ m m'. apart y z p m m')
  ]
]

-- Contents replaced by themselves.
pub put_self : (c : Contents) (x : Place) (ps : List Ptr) → c x ≡ ps → put c x ps ≡ c
put_self c x ps e = fun_ext λ y. elim (Bool-cases (same_place x y)) [
  | inl hit ↦ rw hit (sym e ∙ ap c (same_place_eq x y hit))
  | inr miss ↦ rw miss
]
