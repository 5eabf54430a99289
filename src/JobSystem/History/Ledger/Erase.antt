-- ===== src/JobSystem/History/Ledger/Erase.antt =====
-- Lists of addresses from which one is erased, and how often an address occurs in one.
use bop.Common.{
  ℕ, suc, ◌+◌, ◌≡◌, refl, ap, ◌∙◌, true, false, List, [], ◌∷◌, ◌++◌, ◌==◌, ◌||◌, mem, Distinct,
  arith, if◌then◌else◌, Bool-cases, inl, inr,
}
use bop.Memory.{Ptr}

abbrev pub erase : Ptr → List Ptr → List Ptr
erase p [] = []
erase p (a ∷ as') = if a == p then as' else a ∷ erase p as'

abbrev pub occurs : Ptr → List Ptr → ℕ
occurs p [] = 0
occurs p (a ∷ as') = if a == p then suc (occurs p as') else occurs p as'

pub occurs-append :
    (p : Ptr) (as' bs : List Ptr) → occurs p (as' ++ bs) ≡ occurs p as' + occurs p bs
occurs-append p [] bs = omega arith
occurs-append p (a ∷ as') bs = ground (arith, occurs-append p as' bs)

pub occurs-erase :
    (p q : Ptr) (as' : List Ptr)
    → mem p as' ≡ true
    → occurs q as' ≡ occurs q (erase p as') + occurs q (p ∷ [])
occurs-erase p q [] m = cc
occurs-erase p q (a ∷ as') m = elim (Bool-cases (a == p)) [
  | inl hit ↦ rw hit (ground arith)
  | inr miss ↦ rw miss (ground (arith, occurs-erase p q as'))
]

pub mem-erase_other :
    (p a : Ptr) (as' : List Ptr) → (a == p) ≡ false → mem a (erase p as') ≡ mem a as'
mem-erase_other p a [] ne = refl
mem-erase_other p a (b ∷ as') ne = elim (Bool-cases (b == p)) [
  | inl hit ↦ rw hit (ground arith)
  | inr miss ↦ rw miss (ap (λ m. a == b || m) (mem-erase_other p a as' ne))
]

pub mem-erase_self : (p : Ptr) (as' : List Ptr) → Distinct as' → mem p (erase p as') ≡ false
mem-erase_self p [] d = refl
mem-erase_self p (b ∷ as') d = elim (Bool-cases (b == p)) [
  | inl hit ↦ rw hit (ground (arith, d.0))
  | inr miss ↦ rw miss (ground (arith, mem-erase_self p as' d.1))
]

pub Distinct-erase : (p : Ptr) (as' : List Ptr) → Distinct as' → Distinct (erase p as')
Distinct-erase p [] d = tt
Distinct-erase p (b ∷ as') d = elim (Bool-cases (b == p)) [
  | inl hit ↦ rw hit d.1
  | inr miss ↦ rw miss (mem-erase_other p b as' miss ∙ d.0, Distinct-erase p as' d.1)
]
