-- ===== src/Queue/Ops.antt =====
-- push, pop and clear of the intrusive list, against the list of addresses that it stands for.
use bop.Common.{
  ◌%◌, ◌^◌, ◌≡◌, refl, sym, eqb_refl, tail, false, some, List, [], ◌∷◌, ◌++◌, arith, ◌==◌, length,
  first, last, eqb-last, eqb_sym, eqb_of_mem, ◌∙◌, mem, length-append, last-snoc, Distinct-snoc,
  inc32,
}
use bop.Memory.{
  Ptr, nullptr, Heap, write, IsLive, Returns, IsLive-cases, IsLive-of_some, load_lem, write_self,
  write_other,
}
use bop.Queue.{Linked, IntrusiveList, push, pop, clear}
use bop.Queue.Links.{Links, Links-append, Links-retarget, next_at_lem, Links-last}
use bop.Queue.Shape.{
  IsQueue, empty-IsQueue, SameButLinks, SameOutside, SameButLinks-write, SameButLinks-trans,
}

module _ {N : Type 0} (link : Linked N) where
  open link use {next, set_next, next_set, set_set}

  -- What a push of `work` leaves, when the list stood for `ps`.
  pub record Pushed (h : Heap N) (ps : List Ptr) (work : Ptr) (r : Heap N × IntrusiveList)
      : Type 0 where
    pub queue : IsQueue link r.0 r.1 (ps ++ work ∷ [])
    pub frame : SameOutside link (work ∷ ps) h r.0
    pub fields : SameButLinks link h r.0

  push-nil :
      (h : Heap N) (l : IntrusiveList) (work : Ptr)
      → IsQueue link h l []
      → IsLive h work
      → Returns (Pushed h [] work) (push link h l work)
  unfolding push
  push-nil h l work q live =
      let (n, e) = IsLive-cases h work live in
      let g = write h work (some (set_next n nullptr)) in
      let self = write_self h work (some (set_next n nullptr)) in
      rw (load_lem h work n live.0 e, q.head, q.tail)
        (record {
          queue = record {
            links = (
              IsLive-of_some g work _ live.0 self,
              next_at_lem link g work _ self ∙ next_set n nullptr,
              tt,
            );
            distinct = (refl, tt);
            head = refl;
            tail = refl;
            count = rw q.count;
          };
          frame = λ a out. write_other h work _ a (ground arith);
          fields = SameButLinks-write link h work nullptr n e;
        })

  module _ (h : Heap N) (l : IntrusiveList) (work p : Ptr) (ps : List Ptr) (n t : N)
      (q : IsQueue link h l (p ∷ ps)) (live : IsLive h work) (out : mem work (p ∷ ps) ≡ false)
      (at_work : h work ≡ some n) (at_tail : h (last ps p) ≡ some t) where
    h1 : Heap N
    h1 = write h work (some (set_next n nullptr))

    h2 : Heap N
    unfolding h1
    h2 = write h1 (last ps p) (some (set_next t work))

    apart : (work == last ps p) ≡ false
    apart = eqb-last work p ps out

    h1-tail : h1 (last ps p) ≡ some t
    unfolding h1
    h1-tail = write_other h work _ (last ps p) (eqb_sym work (last ps p) apart) ∙ at_tail

    h2-work : h2 work ≡ some (set_next n nullptr)
    unfolding h2
    h2-work = write_other h1 (last ps p) _ work apart ∙ write_self h work _

    h2-tail : h2 (last ps p) ≡ some (set_next t work)
    unfolding h2
    h2-tail = write_self h1 (last ps p) _

    h2-other : (a : Ptr) → (a == work) ≡ false → (a == last ps p) ≡ false → h2 a ≡ h a
    unfolding h2
    h2-other a ne ne' = write_other h1 (last ps p) _ a ne' ∙ write_other h work _ a ne

    h2-Links : Links link h2 (p ∷ ps ++ work ∷ []) nullptr
    h2-Links =
        Links-append link h2 (p ∷ ps) (work ∷ []) nullptr
          (Links-retarget link h h2 p ps nullptr work q.distinct
            (λ a m. h2-other a (eqb_sym work a (eqb_of_mem work a (p ∷ ps) out m)))
            (IsLive-of_some h2 (last ps p) _ (Links-last link h p ps nullptr q.links).0 h2-tail)
            (next_at_lem link h2 _ _ h2-tail ∙ next_set t work) q.links)
          (
            IsLive-of_some h2 work _ live.0 h2-work,
            next_at_lem link h2 _ _ h2-work ∙ next_set n nullptr,
            tt,
          )

    h2-Pushed :
        Pushed h
          (p ∷ ps)
          work
          (h2, record { head = p; tail = work; num_entries = inc32 l.num_entries })
    unfolding h2
    h2-Pushed = record {
      queue = record {
        links = h2-Links;
        distinct = Distinct-snoc (p ∷ ps) work q.distinct out;
        head = refl;
        tail = sym (last-snoc (p ∷ ps) work nullptr);
        count = omega (arith, q.count, length-append {0} ps (work ∷ []));
      };
      frame = λ a m. h2-other a (ground arith) (eqb-last a p ps (ground arith));
      fields = h2-fields;
    }
      where
        h2-fields : SameButLinks link h h2
        h2-fields =
            SameButLinks-trans link h h1 h2 (SameButLinks-write link h work nullptr n at_work)
              (SameButLinks-write link h1 (last ps p) work t h1-tail)

    push-cons : Returns (Pushed h (p ∷ ps) work) (push link h l work)
    unfolding push h1 h2
    push-cons =
        rw
          (
            load_lem h work n live.0 at_work,
            q.tail,
            q.head,
            (Links-last link h p ps nullptr q.links).0,
            load_lem h1 (last ps p) t (Links-last link h p ps nullptr q.links).0 h1-tail,
            q.links.0.0,
          )
          h2-Pushed

  -- A push of a live node that is not in the queue puts it at the back. It writes to that node and
  -- to the nodes of the queue alone, and there to the links alone.
  pub push-snoc :
      (h : Heap N) (l : IntrusiveList) (work : Ptr) (ps : List Ptr)
      → IsQueue link h l ps
      → IsLive h work
      → mem work ps ≡ false
      → Returns (Pushed h ps work) (push link h l work)
  push-snoc h l work [] q live out = push-nil h l work q live
  push-snoc h l work (p ∷ ps) q live out =
      let (n, e) = IsLive-cases h work live in
      let (t, e') = IsLive-cases h (last ps p) (Links-last link h p ps nullptr q.links) in
      push-cons h l work p ps n t q live out e e'

  -- A pop returns the front, and a null pointer where there is none. It writes to no node.
  abbrev pub Popped : Heap N → List Ptr → IntrusiveList × Ptr → Type 0
  Popped h ps (l, p) = (p ≡ first ps nullptr) × IsQueue link h l (tail ps)

  pub pop-tail :
      (h : Heap N) (l : IntrusiveList) (ps : List Ptr)
      → IsQueue link h l ps
      → Returns (Popped h ps) (pop link h l)
  unfolding pop
  pop-tail h l [] q = simp q.head (refl, q)
  pop-tail h l (p ∷ []) q =
      let (n, e) = IsLive-cases h p q.links.0 in
      rw (q.head, q.links.0.0, load_lem h p n q.links.0.0 e, q.tail, eqb_refl p)
        (
          refl,
          record {
            links = tt;
            distinct = tt;
            head = sym (next_at_lem link h p n e) ∙ q.links.1;
            tail = refl;
            count = omega (arith, q.count);
          },
        )
  pop-tail h l (p ∷ p' ∷ ps) q =
      let (n, e) = IsLive-cases h p q.links.0 in
      rw (q.head, q.links.0.0, load_lem h p n q.links.0.0 e, q.tail, eqb-last p p' ps q.distinct.0)
        (
          refl,
          record {
            links = q.links.2;
            distinct = q.distinct.1;
            head = sym (next_at_lem link h p n e) ∙ q.links.1;
            tail = refl;
            count = omega (arith, q.count);
          },
        )

  pub clear-nil :
      (h : Heap N) (l : IntrusiveList) (ps : List Ptr)
      → IsQueue link h l ps
      → IsQueue link h (clear l).0 [] × ((clear l).1 ≡ length ps % 2 ^ 32)
  unfolding clear
  clear-nil h l ps q = (empty-IsQueue link h, q.count)
