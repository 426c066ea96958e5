-- ===== src/Heap/Fix.antt =====
-- Fix of heap.go, and the part that Remove shares with it.
use mathlib.Core.List.{Perm}
use mathlib.Core.List.Perm
use gbuf.Base.{
  ℕ, ◌-◌, ◌/◌, ◌≤◌, ◌<◌, ◌≡◌, ◌∙◌, Bool, List, arith, ltb, if◌then◌else◌, length, set, length-set,
  ok, Returns, returns, Returns-bind, Returns-map, lt-or-le, inl, inr, lt→ltb, le→ltb,
}
use gbuf.Base.Int.{pos}
use gbuf.Heap.{Interface, fix_to, fix, up}
use gbuf.Heap.Items.{at, at-set, Laws}
use gbuf.Heap.Order.{IsHeap}
use gbuf.Heap.Down.{DownInv, Sunk, down_sinks}
use gbuf.Heap.Up.{Sorted, up_raises}

module _ {H T : Type 0} {d : T} {heap : Interface H T} {items : H → List T} {lt : T → T → Bool}
    (laws : Laws d heap items lt) where
  after_down :
      (h : H) (i n : ℕ)
      → n ≤ length (items h)
      → i < n
      → DownInv d lt 0 n i (items h) i
      → (i' : ℕ) (h1 : H) → Sunk d lt 0 n i (items h) i i' (items h1)
      → Returns
          (λ h'. Sorted d lt n (items h) (items h'))
          (if ltb i i' then ok h1 else up heap h1 i)
  after_down h i n k hi v i' h1 s = elim (lt-or-le i i') [
    | inl deeper ↦ rw (lt→ltb deeper) (
        returns (record {
          heap = λ c x y z. ground (arith, s.sorted c, s.above);
          same = s.same;
          size = s.size;
          rest = s.rest;
        }))
    | inr still ↦
        let same : items h1 ≡ items h = s.still (omega (arith, s.deeper)) in
        rw (le→ltb still) (
          Returns-map
            (up_raises laws n h1 i (omega (arith, s.size)) (record {
              inside = hi;
              edges = λ c x y z. s.sorted c x y (omega arith) z;
              bridged = λ c x y z u w. rw same (v.bridged c x y z u w);
            }))
            λ h' t. record {
              heap = t.heap;
              same = Perm.trans t.same s.same;
              size = t.size ∙ s.size;
              rest = λ j y. t.rest j y ∙ s.rest j y;
            })
  ]

  -- `down` and, if that does not move, `up` of the one item that may be out of order.
  pub fix_to-Sorted :
      (h : H) (i n : ℕ)
      → n ≤ length (items h)
      → i < n
      → DownInv d lt 0 n i (items h) i
      → Returns (λ h'. Sorted d lt n (items h) (items h')) (fix_to heap h i (pos n))
  unfolding fix_to
  fix_to-Sorted h i n k hi v =
      Returns-bind (down_sinks laws n 0 i h k v)
        λ (moved, h1) (i', e, s). rw e (after_down h i n k hi v i' h1 s)

  -- Fix at an index whose item was replaced in a heap makes a heap of the items.
  pub fix_refines :
      (a : List T) (v : T) (h : H) (i : ℕ)
      → IsHeap d lt a
      → i < length a
      → items h ≡ set a i v
      → Returns (λ h'. IsHeap d lt (items h') × Perm (items h') (set a i v)) (fix heap h i)
  unfolding fix
  fix_refines a v h i sorted hi e =
      let size : length (items h) ≡ length a = rw e (length-set a i v) in
      let entry = λ (j : ℕ). at-set d a i v j hi in
      rw (laws.len_law h) (
        Returns-map
          (fix_to-Sorted h i (length (items h)) (omega arith) (omega (arith, size)) (record {
            below = omega arith;
            edges = λ c p q r t u. ground (arith, e, size, entry c, entry ((c - 1) / 2), sorted c);
            top = λ p. absurd (omega arith);
            bridged = λ c p q r t u. ground (
              arith,
              e,
              size,
              entry c,
              entry ((i - 1) / 2),
              sorted c,
              sorted i,
              laws.trans (at d a ((i - 1) / 2)) (at d a i) (at d a c),
            );
          }))
          λ h' t.
            let same : Perm (items h') (set a i v) = rw (← e) t.same in
            ((λ c p q. t.heap c p (omega (arith, t.size)) (omega arith)), same))
