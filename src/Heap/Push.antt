-- ===== src/Heap/Push.antt =====
-- Push and Init of heap.go.
use mathlib.Core.List.{Perm, perm_middle, append-nil}
use mathlib.Core.List.Perm
use gbuf.Base.{
  ℕ, zero, suc, ◌+◌, ◌-◌, ◌/◌, ◌≤◌, ◌<◌, ◌≡◌, sym, ap, Bool, List, [], ◌∷◌, ◌++◌, arith, length,
  length-append, Returns, returns, Returns-bind, Returns-map,
}
use gbuf.Base.Int.{pos}
use gbuf.Heap.{Interface, push, down, init_loop, init}
use gbuf.Heap.Items.{at, at-append, Laws}
use gbuf.Heap.Order.{IsHeap, IsHeapFrom}
use gbuf.Heap.Down.{down_sinks}
use gbuf.Heap.Up.{UpInv, up_raises}

module _ {H T : Type 0} {d : T} {heap : Interface H T} {items : H → List T} {lt : T → T → Bool}
    (laws : Laws d heap items lt) where
  append-UpInv :
      (a : List T) (x : T) → IsHeap d lt a → UpInv d lt (length a + 1) (a ++ (x ∷ [])) (length a)
  append-UpInv a x v =
      let size = length-append a (x ∷ []) in
      record {
        inside = omega (arith, size);
        edges = λ c p q r.
            let hc : c < length a = omega (arith, size) in
            ground (arith, v c, at-append d a (x ∷ []) c, at-append d a (x ∷ []) ((c - 1) / 2));
        bridged = λ c p q r. absurd (omega (arith, size));
      }

  -- Push on a heap makes a heap of its items and the new one.
  pub push_refines :
      (h : H) (x : T)
      → IsHeap d lt (items h)
      → Returns (λ h'. IsHeap d lt (items h') × Perm (items h') (x ∷ items h)) (push heap h x)
  unfolding push
  push_refines h x v = Returns-bind (laws.push_law h x) λ h1 e.
      let size : length (items h1) ≡ length (items h) + 1 =
        omega (arith, ap length e, length-append (items h) (x ∷ [])) in
      let last : heap.len h1 - 1 ≡ length (items h) = omega (arith, laws.len_law h1, size) in
      rw last (
        Returns-map
          (up_raises laws (length (items h) + 1) h1 (length (items h)) (omega (arith, size))
            (rw e (append-UpInv (items h) x v)))
          λ h' t.
            let added : Perm (items h1) (x ∷ items h) =
              rw e (rw (append-nil (items h)) at (perm_middle {a = x} (items h) [])) in
            (
              (λ c p q. t.heap c p (omega (arith, size, t.size)) (omega arith)),
              Perm.trans t.same added,
            ))

  -- A sift among all items from `i`, where the edges below later parents are in order.
  pub down-IsHeapFrom :
      (i n : ℕ) (h : H)
      → n ≤ length (items h)
      → IsHeapFrom d lt (suc i) n (items h)
      → Returns
          (λ (moved, h').
            IsHeapFrom d lt i n (items h')
            × Perm (items h') (items h)
            × (length (items h') ≡ length (items h))
            × ((j : ℕ) → n ≤ j → at d (items h') j ≡ at d (items h) j))
          (down heap h i (pos n))
  down-IsHeapFrom i n h k v =
      Returns-map
        (down_sinks laws n i i h k (record {
          below = omega arith;
          edges = λ c p q r s t. v c p q (omega arith);
          top = λ p. absurd (omega arith);
          bridged = λ c p q r s t. absurd (omega arith);
        }))
        λ (moved, h') (i', e, s).
          ((λ c p q r. s.sorted c p q r (omega arith)), s.same, s.size, s.rest)

  init_loop_orders :
      (i : ℕ) (h : H) (n : ℕ)
      → n ≡ length (items h)
      → IsHeapFrom d lt i n (items h)
      → Returns
          (λ h'.
            IsHeapFrom d lt 0 n (items h') × Perm (items h') (items h) × (length (items h') ≡ n))
          (init_loop heap i h (pos n))
  unfolding init_loop
  init_loop_orders zero h n e v = returns (v, Perm.rfl, sym e)
  init_loop_orders (suc i) h n e v =
      Returns-bind (down-IsHeapFrom i n h (omega arith) v) λ (moved, h1) (v1, same, size, rest).
        Returns-map (init_loop_orders i h1 n (omega (arith, size)) v1)
          λ h' (w, t, z). (w, Perm.trans t same, z)

  -- Init makes a heap of any items.
  pub init_refines :
      (h : H) → Returns (λ h'. IsHeap d lt (items h') × Perm (items h') (items h)) (init heap h)
  unfolding init
  init_refines h =
      let size = laws.len_law h in
      Returns-map
        (init_loop_orders (heap.len h / 2) h (heap.len h) size
          (λ c p q r. absurd (omega (arith, size))))
        λ h' (v, same, z). ((λ c p q. v c p (omega (arith, z)) (omega arith)), same)
