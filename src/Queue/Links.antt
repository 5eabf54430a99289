-- ===== src/Queue/Links.antt =====
-- Chains of links through the heap, and what a write does to them.
use bop.Common.{
  ◌≡◌, true, false, none, some, List, [], ◌∷◌, ◌++◌, arith, ◌==◌, is_some, first, last, mem,
  Distinct, mem_self, mem_later, eqb-last, eq_of_eqb, Bool-cases, inl, inr, subst, sym, ap, ◌∙◌,
}
use bop.Memory.{Ptr, nullptr, Heap, IsLive, IsLive-of_some, write, write_self, write_other}
use bop.Queue.{Linked}

module _ {N : Type 0} (link : Linked N) where
  open link use {next, set_next}

  -- The link of the node at an address.
  abbrev pub next_at : Heap N → Ptr → Ptr
  next_at h p = elim (h p) [ none ↦ nullptr | some n ↦ next n ]

  -- Every node of `ps` is live and links to the one behind it, the last one to `stop`.
  abbrev pub Links : Heap N → List Ptr → Ptr → Type 0
  Links h [] stop = Unit
  Links h (p ∷ ps) stop = IsLive h p × (next_at h p ≡ first ps stop) × Links h ps stop

  pub next_at_lem : (h : Heap N) (p : Ptr) (n : N) → h p ≡ some n → next_at h p ≡ next n
  next_at_lem h p n e = rw (next_at, e)

  -- The heaps agree at every node of `ps`.
  abbrev pub SameOn : Heap N → Heap N → List Ptr → Type 0
  SameOn h g ps = (a : Ptr) → mem a ps ≡ true → g a ≡ h a

  pub Links-same :
      (h g : Heap N) (ps : List Ptr) (stop : Ptr)
      → SameOn h g ps
      → Links h ps stop
      → Links g ps stop
  Links-same h g [] stop same l = tt
  Links-same h g (p ∷ ps) stop same l = (
    ground (arith, same p),
    ground (arith, same p),
    Links-same h g ps stop (λ a m. same a (ground arith)) l.2,
  )

  pub Links-append :
      (h : Heap N) (ps qs : List Ptr) (stop : Ptr)
      → Links h ps (first qs stop)
      → Links h qs stop
      → Links h (ps ++ qs) stop
  Links-append h [] qs stop l m = m
  Links-append h (p ∷ []) qs stop l m = (l.0, l.1, m)
  Links-append h (p ∷ q ∷ ps) qs stop l m = (l.0, l.1, Links-append h (q ∷ ps) qs stop l.2 m)

  -- The last link is turned from `old` to `new`, the other links stay.
  pub Links-retarget :
      (h g : Heap N) (p : Ptr) (ps : List Ptr) (old new : Ptr)
      → Distinct (p ∷ ps)
      → ((a : Ptr) → mem a (p ∷ ps) ≡ true → (a == last ps p) ≡ false → g a ≡ h a)
      → IsLive g (last ps p)
      → next_at g (last ps p) ≡ new
      → Links h (p ∷ ps) old
      → Links g (p ∷ ps) new
  Links-retarget h g p [] old new d same live turned l = (live, turned, tt)
  Links-retarget h g p (q ∷ ps) old new d same live turned l =
      let here : g p ≡ h p = same p (mem_self p (q ∷ ps)) (eqb-last p q ps d.0) in
      (
        rw here l.0,
        rw (next_at, here) l.1,
        Links-retarget h g q ps old new d.1 (λ a m. same a (mem_later a p (q ∷ ps) m)) live turned
            l.2,
      )

  pub Links-last :
      (h : Heap N) (p : Ptr) (ps : List Ptr) (stop : Ptr)
      → Links h (p ∷ ps) stop
      → IsLive h (last ps p)
  Links-last h p [] stop l = l.0
  Links-last h p (q ∷ ps) stop l = Links-last h q ps stop l.2

  pub Links-IsLive :
      (h : Heap N) (ps : List Ptr) (stop a : Ptr) → Links h ps stop → mem a ps ≡ true → IsLive h a
  Links-IsLive h [] stop a l m = cc
  Links-IsLive h (p ∷ ps) stop a l m = elim (Bool-cases (a == p)) [
    | inl hit ↦ subst (IsLive h) (sym (eq_of_eqb a p hit)) l.0
    | inr miss ↦ Links-IsLive h ps stop a l.2 (rw miss at m)
  ]

  -- A write that keeps the link of a live node keeps every chain.
  pub Links-relinked :
      (h : Heap N) (ps : List Ptr) (stop p : Ptr) (n m : N)
      → h p ≡ some n
      → next m ≡ next n
      → Links h ps stop
      → Links (write h p (some m)) ps stop
  Links-relinked h [] stop p n m e same l = tt
  Links-relinked h (q ∷ ps) stop p n m e same l = elim (Bool-cases (q == p)) [
    | inl hit ↦
        let g = write h p (some m) in
        let at : q ≡ p = eq_of_eqb q p hit in
        let now : write h p (some m) q ≡ some m =
          ap (write h p (some m)) at ∙ write_self h p (some m) in
        (
          IsLive-of_some g q m l.0.0 now,
          next_at_lem g q m now ∙ same ∙ sym (next_at_lem h p n e) ∙ ap (next_at h) (sym at) ∙ l.1,
          Links-relinked h ps stop p n m e same l.2,
        )
    | inr miss ↦
        let now : write h p (some m) q ≡ h q = write_other h p (some m) q miss in
        (
          (l.0.0, ap is_some now ∙ l.0.1),
          rw (next_at, now) l.1,
          Links-relinked h ps stop p n m e same l.2,
        )
  ]
