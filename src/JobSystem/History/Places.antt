-- ===== src/JobSystem/History/Places.antt =====
-- Which addresses the queues of the pool hold after a push or a pop (src/job/job_system.cpp).
use bop.Common.{
  ℕ, ◌≡◌, sym, ap, ◌∙◌, false, List, [], ◌∷◌, ◌++◌, ◌==◌, mem, mem-append, first, tail, arith,
  if◌then◌else◌, Bool-cases, List-cases, eq_of_eqb, inl, inr,
}
use bop.Memory.{Ptr}
use bop.JobSystem.State.{Place, recycling_bin, same_place, System}
use bop.JobSystem.Inv.{Contents, Inv, put, put_self, NotQueued, same_place_eq, first-NotQueued}
use bop.JobSystem.Schedule.Create.{IsFresh, bin_rest, fresh-NotQueued}

pub popped-mem :
    (s : System) (c : Contents) (x : Place) (p : Ptr) (ps : List Ptr)
    → Inv s c
    → c x ≡ p ∷ ps
    → (y : Place) (a : Ptr) → mem a (put c x ps y) ≡ (if a == p then false else mem a (c y))
popped-mem s c x p ps inv e y a = elim (Bool-cases (a == p)) [
  | inl hit ↦ rw (hit, eq_of_eqb a p hit) (first-NotQueued s c x p ps inv e y)
  | inr miss ↦ rw miss (elim (Bool-cases (same_place x y)) [
    | inl here ↦ rw (here, sym (same_place_eq x y here), e, miss)
    | inr there ↦ rw there
  ])
]

if_out :
    (p a : Ptr) (qs : List Ptr) → mem p qs ≡ false → mem a qs ≡ (if a == p then false else mem a qs)
if_out p a qs out = elim (Bool-cases (a == p)) [
  | inl hit ↦ rw hit (ap (λ b. mem b qs) (eq_of_eqb a p hit) ∙ out)
  | inr miss ↦ rw miss
]

pub pushed-mem :
    (d : Contents) (x : Place) (p : Ptr)
    → NotQueued d p
    → (y : Place) (a : Ptr)
    → mem a (put d x (d x ++ p ∷ []) y) ≡ (if a == p then same_place x y else mem a (d y))
pushed-mem d x p out y a = elim (Bool-cases (same_place x y)) [
  | inl here ↦ rw (here, sym (same_place_eq x y here), mem-append a (d x) (p ∷ [])) (ground arith)
  | inr there ↦ rw there (if_out p a (d y) (out y))
]

-- The address that create_job returns is in no queue but the recycling bin.
pub taken-mem :
    (me : ℕ) (fresh : Ptr) (s : System) (c : Contents) (p : Ptr)
    → Inv s c
    → IsFresh s fresh
    → p ≡ first (c (recycling_bin me)) fresh
    → (y : Place) (a : Ptr) → mem a (bin_rest me c y) ≡ (if a == p then false else mem a (c y))
taken-mem me fresh s c p inv new e y a = elim (List-cases (c (recycling_bin me))) [
  | inl none_there ↦
      let same : bin_rest me c ≡ c =
        ap (λ l. put c (recycling_bin me) (tail l)) none_there
        ∙ put_self c (recycling_bin me) [] none_there in
      let at_fresh : p ≡ fresh = e ∙ ap (λ l. first l fresh) none_there in
      ap (λ (k : Contents). mem a (k y)) same
      ∙ if_out p a (c y) (ap (λ b. mem b (c y)) at_fresh ∙ fresh-NotQueued s c fresh inv new.1 y)
  | inr (q, qs, some_there) ↦
      ap (λ l. mem a (put c (recycling_bin me) (tail l) y)) some_there
      ∙ popped-mem s c (recycling_bin me) q qs inv some_there y a
      ∙ ap (λ b. if a == b then false else mem a (c y))
          (sym (e ∙ ap (λ l. first l fresh) some_there))
]
