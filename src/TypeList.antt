-- ===== src/TypeList.antt =====
-- src/util/typelist.h: the head, the tail and the size of a pack of types, which may be a TypeList.
use bop.Common.{ℕ, ◌≡◌, refl, Bool, true, Option, none, some, List, [], ◌∷◌, map, length}

-- A type of a pack: another type, or a TypeList of other types.
pub data Entry (C : Type 0) : Type 0 where
  plain : C → Entry C
  type_list : List C → Entry C

module _ {C : Type 0} where
  -- Head: of one TypeList that has a first type, that type; of any other pack its first type; `none`
  -- for the empty pack, which has no `type`.
  unfoldable pub head : List (Entry C) → Option (Entry C)
  head [] = none
  head (type_list (t ∷ ts) ∷ []) = some (plain t)
  head (e ∷ es) = some e

  -- Tail: the types of the TypeList that it is.
  unfoldable pub tail_types : List (Entry C) → Option (List (Entry C))
  tail_types [] = none
  tail_types (type_list (t ∷ ts) ∷ []) = some (map plain ts)
  tail_types (e ∷ es) = some es

  -- ListSize: the size of the pack, in which a TypeList counts as one.
  abbrev list_size : List (Entry C) → ℕ
  list_size = length

  -- count_types: the overload for a TypeList takes rvalues, and is preferred for them.
  unfoldable pub count_types : (is_rvalue : Bool) → List (Entry C) → ℕ
  count_types true (type_list ts ∷ []) = length ts
  count_types is_rvalue es = length es

  -- The types that Head and Tail go by.
  abbrev types : List (Entry C) → List (Entry C)
  types (type_list (t ∷ ts) ∷ []) = plain t ∷ map plain ts
  types es = es

  abbrev join : Option (Entry C) → Option (List (Entry C)) → List (Entry C)
  join (some e) (some es) = e ∷ es
  join _ _ = []

  -- Head and Tail take a pack apart, or the TypeList that is its only type, and lose nothing.
  head-tail_types : (es : List (Entry C)) → join (head es) (tail_types es) ≡ types es
  unfolding head tail_types
  head-tail_types [] = refl
  head-tail_types (plain t ∷ es) = refl
  head-tail_types (type_list [] ∷ es) = refl
  head-tail_types (type_list (t ∷ ts) ∷ []) = refl
  head-tail_types (type_list (t ∷ ts) ∷ e ∷ es) = refl
