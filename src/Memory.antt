-- ===== src/Memory.antt =====
-- Memory shared by the intrusive structures: objects at addresses, and code that may fault.
use bop.Common.{
  refl, fun_ext, ℕ, ◌≡◌, true, false, Option, none, some, arith, ◌==◌, if◌then◌else◌, is_some,
  eqb_refl, Option-cases, inl, inr, ap,
}

abbrev pub Ptr : Type 0
Ptr = ℕ

abbrev pub nullptr : Ptr
nullptr = 0

-- `none`: no object lives at the address.
abbrev pub Heap : Type 0 → Type 0
Heap N = Ptr → Option N

-- `fault`: undefined behaviour, such as a read through a dangling pointer. `stuck`: the code is
-- still in a loop when its fuel is used up, or spins on a lock that nobody gives back.
pub data Run (A : Type 0) : Type 0 where
  ok : A → Run A
  fault : Run A
  stuck : Run A
  aborted : Run A  -- std::terminate

infixl 5 ◌>>=◌ ◌>>◌
abbrev pub ◌>>=◌ : {A B : Type 0} → Run A → (A → Run B) → Run B
ok a >>= k = k a
fault >>= k = fault
stuck >>= k = stuck
aborted >>= k = aborted

abbrev pub ◌>>◌ : {B : Type 0} → Run (Unit {0}) → Run B → Run B
m >> k = m >>= λ _. k

unfoldable pub load : {N : Type 0} → Heap N → Ptr → Run N
load h p = if p == nullptr then fault else elim (h p) [ none ↦ fault | some n ↦ ok n ]

unfoldable pub write : {N : Type 0} → Heap N → Ptr → Option N → Heap N
write h p c a = if a == p then c else h a

abbrev pub IsLive : {N : Type 0} → Heap N → Ptr → Type 0
IsLive h p = ((p == nullptr) ≡ false) × (is_some (h p) ≡ true)

-- The same outcome, with another value if the code returns.
abbrev pub map_run : {A B : Type 0} → (A → B) → Run A → Run B
map_run f (ok a) = ok (f a)
map_run f fault = fault
map_run f stuck = stuck
map_run f aborted = aborted

pub map_run-bind :
    {A B C D : Type 0} (f : A → B) (g : C → D) (r : Run A) (k : A → Run C) (l : B → Run D)
    → ((a : A) → l (f a) ≡ map_run g (k a))
    → (map_run f r >>= l) ≡ map_run g (r >>= k)
map_run-bind f g (ok a) k l same = same a
map_run-bind f g fault k l same = refl
map_run-bind f g stuck k l same = refl
map_run-bind f g aborted k l same = refl

pub bind-map_run :
    {A C D : Type 0} (g : C → D) (r : Run A) (k : A → Run C) (l : A → Run D)
    → ((a : A) → l a ≡ map_run g (k a))
    → (r >>= l) ≡ map_run g (r >>= k)
bind-map_run g (ok a) k l same = same a
bind-map_run g fault k l same = refl
bind-map_run g stuck k l same = refl
bind-map_run g aborted k l same = refl

-- The code returns, without a fault, and the value meets `P`.
abbrev pub Returns : {A : Type 0} → (A → Type 0) → Run A → Type 0
Returns P (ok a) = P a
Returns P fault = ⊥
Returns P stuck = ⊥
Returns P aborted = ⊥

pub Returns-bind :
    {A B : Type 0} (P : A → Type 0) (Q : B → Type 0) (r : Run A) (k : A → Run B)
    → Returns P r
    → ((a : A) → P a → Returns Q (k a))
    → Returns Q (r >>= k)
Returns-bind P Q (ok a) k p next = next a p
Returns-bind P Q fault k p next = absurd p
Returns-bind P Q stuck k p next = absurd p
Returns-bind P Q aborted k p next = absurd p

pub bind_assoc :
    {A B C : Type 0} (r : Run A) (f : A → Run B) (g : B → Run C)
    → ((r >>= f) >>= g) ≡ (r >>= λ a. f a >>= g)
bind_assoc (ok a) f g = refl
bind_assoc fault f g = refl
bind_assoc stuck f g = refl
bind_assoc aborted f g = refl

pub bind_ext :
    {A B : Type 0} (r : Run A) (f g : A → Run B) → ((a : A) → f a ≡ g a) → (r >>= f) ≡ (r >>= g)
bind_ext r f g same = ap (λ k. r >>= k) (fun_ext same)

pub Returns-both :
    {A : Type 0} (P Q : A → Type 0) (r : Run A)
    → Returns P r
    → Returns Q r
    → Returns (λ a. P a × Q a) r
Returns-both P Q (ok a) p q = (p, q)
Returns-both P Q fault p q = p
Returns-both P Q stuck p q = p
Returns-both P Q aborted p q = p

pub Returns-mono :
    {A : Type 0} (P Q : A → Type 0) (r : Run A) → Returns P r → ((a : A) → P a → Q a) → Returns Q r
Returns-mono P Q (ok a) p weaken = weaken a p
Returns-mono P Q fault p weaken = absurd p
Returns-mono P Q stuck p weaken = absurd p
Returns-mono P Q aborted p weaken = absurd p

module _ {N : Type 0} (h : Heap N) (p : Ptr) where
  pub load_lem : (n : N) → (p == nullptr) ≡ false → h p ≡ some n → load h p ≡ ok n
  unfolding load
  load_lem n ne e = rw (ne, e)

  pub write_self : (c : Option N) → write h p c p ≡ c
  unfolding write
  write_self c = rw (eqb_refl p)

  pub write_other : (c : Option N) (a : Ptr) → (a == p) ≡ false → write h p c a ≡ h a
  unfolding write
  write_other c a ne = rw ne

  pub IsLive-cases : IsLive h p → (n : N) × (h p ≡ some n)
  IsLive-cases live = elim (Option-cases (h p)) [ inl e ↦ ground arith | inr found ↦ found ]

  pub IsLive-of_some : (n : N) → (p == nullptr) ≡ false → h p ≡ some n → IsLive h p
  IsLive-of_some n ne e = (ne, ap is_some e)
