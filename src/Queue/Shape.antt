-- ===== src/Queue/Shape.antt =====
-- What an intrusive list stands for: the addresses of its nodes, front first.
use bop.Common.{
  List, ◌%◌, ◌^◌, ◌≡◌, refl, true, false, Option, none, some, List, [], arith, ◌==◌, Bool-cases,
  inl, inr, ap, ◌∙◌, is_some, length, first, last, mem, Distinct,
}
use bop.Memory.{Ptr, nullptr, Heap, IsLive, write, write_self, write_other}
use bop.Queue.{Linked, IntrusiveList, empty}
use bop.Queue.Links.{Links, SameOn, Links-same}

module _ {N : Type 0} (link : Linked N) where
  open link use {set_next, set_set}

  -- The two ends and the counter agree with the chain of links. The counter is a uint32_t.
  pub record IsQueue (h : Heap N) (l : IntrusiveList) (ps : List Ptr) : Type 0 where
    pub links : Links link h ps nullptr
    pub distinct : Distinct ps
    pub head : l.head ≡ first ps nullptr
    pub tail : l.tail ≡ last ps nullptr
    pub count : l.num_entries ≡ length ps % 2 ^ 32

  -- `g` has the nodes of `h`, and they differ at most in their links.
  abbrev pub unlinked : Option N → Option N
  unlinked none = none
  unlinked (some n) = some (set_next n nullptr)

  abbrev pub SameButLinks : Heap N → Heap N → Type 0
  SameButLinks h g = (a : Ptr) → unlinked (g a) ≡ unlinked (h a)

  abbrev pub SameOutside : List Ptr → Heap N → Heap N → Type 0
  SameOutside ps h g = (a : Ptr) → mem a ps ≡ false → g a ≡ h a

  pub empty-IsQueue : (h : Heap N) → IsQueue h empty []
  empty-IsQueue h = record {
    links = tt;
    distinct = tt;
    head = refl;
    tail = refl;
    count = omega arith;
  }

  -- A list does not notice a change at nodes that are not its own.
  pub IsQueue-same :
      (h g : Heap N) (l : IntrusiveList) (ps : List Ptr)
      → SameOn link h g ps
      → IsQueue h l ps
      → IsQueue g l ps
  IsQueue-same h g l ps same q = record {
    links = Links-same link h g ps nullptr same q.links;
    distinct = q.distinct;
    head = q.head;
    tail = q.tail;
    count = q.count;
  }

  pub SameButLinks-write :
      (h : Heap N) (p q : Ptr) (n : N)
      → h p ≡ some n
      → SameButLinks h (write h p (some (set_next n q)))
  SameButLinks-write h p q n e a = elim (Bool-cases (a == p)) [
    | inl hit ↦
        let same : a ≡ p = ground arith in
        rw (same, write_self h p (some (set_next n q)), e) (ap some (set_set n q nullptr))
    | inr miss ↦ rw (write_other h p (some (set_next n q)) a miss)
  ]

  pub SameButLinks-trans : (f g h : Heap N) → SameButLinks f g → SameButLinks g h → SameButLinks f h
  SameButLinks-trans f g h s t a = t a ∙ s a

  pub is_some-unlinked :
      (a b : Option N) → unlinked b ≡ unlinked a → is_some a ≡ true → is_some b ≡ true
  is_some-unlinked none b e s = cc
  is_some-unlinked (some n) none e s = cc
  is_some-unlinked (some n) (some m) e s = refl

  pub IsLive-same : (h g : Heap N) (p : Ptr) → SameButLinks h g → IsLive h p → IsLive g p
  IsLive-same h g p same (ne, live) = (ne, is_some-unlinked (h p) (g p) (same p) live)
