-- ===== src/Capture.antt =====
-- CaptureSlots and CaptureLambda (src/main.cpp): a call whose arguments are set one at a time. The
-- arguments are of one type here, and the function that is called is a parameter.
pub mod Args
pub mod Counts
pub mod Slots
pub mod Effects
use bop.Common.{
  ℕ, zero, suc, Bool, true, false, Option, none, some, List, [], ◌∷◌, ◌==◌, if◌then◌else◌, length,
  dec64, is_some,
}
use bop.Memory.{Run, ok, fault, ◌>>=◌}

pub record Capture (V T : Type 0) : Type 0 where
  pub result : Option T
  pub args : List (Option V)
  pub remaining_args : ℕ

-- `std::get<Idx>(m_Args)`; an index past the end does not compile.
abbrev pub get_arg : {V : Type 0} → List (Option V) → ℕ → Option V
get_arg [] i = none
get_arg (a ∷ as') zero = a
get_arg (a ∷ as') (suc i) = get_arg as' i

abbrev pub put_arg : {V : Type 0} → List (Option V) → ℕ → V → List (Option V)
put_arg [] i v = []
put_arg (a ∷ as') zero v = some v ∷ as'
put_arg (a ∷ as') (suc i) v = a ∷ put_arg as' i v

abbrev pub no_args : {V : Type 0} → ℕ → List (Option V)
no_args zero = []
no_args (suc n) = none ∷ no_args n

abbrev pub new_capture : {V T : Type 0} → ℕ → Capture V T
new_capture n = record { result = none; args = no_args n; remaining_args = n }

-- The arguments of apply_unwrap, which dereferences each. That of an empty optional is undefined.
unfoldable pub unwrap : {V : Type 0} → List (Option V) → Run (List V)
unwrap [] = ok []
unwrap (none ∷ as') = fault
unwrap (some v ∷ as') = do vs ← unwrap as'; ok (v ∷ vs)

module _ {V T : Type 0} where
  -- CaptureSlots::set_arg
  unfoldable pub set_arg_slots : ℕ → V → Capture V T → Capture V T
  set_arg_slots i v c = record c {
    args = put_arg c.args i v;
    remaining_args = dec64 c.remaining_args;
  }

  -- CaptureLambda::set_arg
  unfoldable pub set_arg : ℕ → V → Capture V T → Capture V T
  set_arg i v c =
      let remaining =
        if is_some (get_arg c.args i) then c.remaining_args else dec64 c.remaining_args in
      record c { args = put_arg c.args i v; remaining_args = remaining }

  abbrev pub has_arg : ℕ → Capture V T → Bool
  has_arg i c = is_some (get_arg c.args i)

  -- `call` of either class.
  unfoldable pub call_capture : (List V → T) → Capture V T → Run (Capture V T × Bool)
  unfolding unwrap
  call_capture fn c =
      if c.remaining_args == 0
      then (do vs ← unwrap c.args; ok (record c { result = some (fn vs) }, true))
      else ok (c, false)
