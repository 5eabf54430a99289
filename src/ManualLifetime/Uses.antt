-- ===== src/ManualLifetime/Uses.antt =====
-- What a client of a ManualLifetime (src/util/manual_lifetime.h) relies on, of each specialization.
use bop.Common.{ℕ, zero, suc, ◌≡◌, false, none, List, [], ◌∷◌, ◌++◌, ◌==◌}
use bop.Memory.{Ptr, nullptr, Run, ok, ◌>>=◌}
use bop.ManualLifetime.{
  ManualLifetime, construct_object, destroy_object, get_object, construct_reference,
  destroy_reference, get_reference, construct_rvalue, destroy_rvalue, get_rvalue,
}

abbrev pub repeat : {X : Type 0} → ℕ → X → List X
repeat zero x = []
repeat (suc n) x = x ∷ repeat n x

abbrev pub values : {X : Type 0} → List (X × ℕ) → List X
values [] = []
values ((x, n) ∷ uses) = repeat n x ++ values uses

-- Storage `S` for an `X`, with the operations of a specialization.
module _ {S X : Type 0} (construct : X → S → S) (destroy : S → Run S) (get : S → Run X) where
  -- `get`, `n` times.
  abbrev get_times : ℕ → S → Run (List X)
  get_times zero s = ok []
  get_times (suc n) s = do x ← get s; xs ← get_times n s; ok (x ∷ xs)

  -- Lifetimes one after the other, each of a value that is constructed, read some times, and
  -- destroyed.
  abbrev pub run_lifetimes : List (X × ℕ) → S → Run (List X × S)
  run_lifetimes [] s = ok ([], s)
  run_lifetimes ((x, n) ∷ uses) s = do
    let s1 : S = construct x s
    xs ← get_times n s1
    s2 ← destroy s1
    (ys, s3) ← run_lifetimes uses s2
    ok (xs ++ ys, s3)

  -- `CanHold` says which values can be constructed, `IsEmpty` that no lifetime has begun or that the last
  -- one has ended, and `Holds` that the lifetime of a value goes on.
  record IsLifetime (CanHold : X → Type 0) (IsEmpty : S → Type 0) (Holds : X → S → Type 0)
      : Type 0 where
    construct-Holds : (x : X) (s : S) → CanHold x → IsEmpty s → Holds x (construct x s)
    get-Holds : (x : X) (s : S) → Holds x s → get s ≡ ok x
    destroy-IsEmpty : (x : X) (s : S) → Holds x s → (s1 : S) × (destroy s ≡ ok s1) × IsEmpty s1

  module _ {CanHold : X → Type 0} {IsEmpty : S → Type 0} {Holds : X → S → Type 0}
      (lifetime : IsLifetime CanHold IsEmpty Holds) where
    open lifetime use {construct-Holds, get-Holds, destroy-IsEmpty}

    abbrev AllCanHold : List (X × ℕ) → Type 0
    AllCanHold [] = Unit
    AllCanHold ((x, n) ∷ uses) = CanHold x × AllCanHold uses

abbrev IsDead : {T : Type 0} → ManualLifetime T → Type 0
IsDead s = s ≡ none

abbrev IsObject : Ptr → Type 0
IsObject p = (p == nullptr) ≡ false

abbrev pub AreObjects : List (Ptr × ℕ) → Type 0
AreObjects [] = Unit
AreObjects ((p, n) ∷ uses) = IsObject p × AreObjects uses

-- What the clients of the three kinds of storage see.
pub record Serves {T : Type 0} (objects : List (T × ℕ)) (places : List (Ptr × ℕ)) (pointer : Ptr)
    : Type 0 where
  pub object :
      run_lifetimes construct_object destroy_object get_object objects none
      ≡ ok (values objects, none)
  pub reference :
      (p : Ptr) × (run_lifetimes construct_reference destroy_reference get_reference places pointer
        ≡ ok (values places, p))
  pub rvalue :
      (p : Ptr) × (run_lifetimes construct_rvalue destroy_rvalue get_rvalue places pointer
        ≡ ok (values places, p))
