-- ===== src/Heap/Pop.antt =====
-- Pop and Remove of heap.go.
use mathlib.Core.List.{Perm, perm_middle, append-nil}
use mathlib.Core.List.Perm
use gbuf.Base.{
  ℕ, suc, ◌-◌, ◌/◌, ◌<◌, ◌≡◌, sym, ap, ◌∙◌, Bool, true, false, List, [], ◌∷◌, ◌++◌, arith, ◌==◌,
  length, length-append, ◌>>=◌, Returns, Returns-bind, Returns-map, lt-or-le, inl, inr,
}
use gbuf.Base.Int.{pos, ◌-ℤ◌}
use gbuf.Heap.{Interface, pop, remove, fix_to}
use gbuf.Heap.Items.{at, at-append, at-last, at-exchange, length-exchange, exchange-perm, Laws}
use gbuf.Heap.Order.{IsHeap, IsHeapFrom, root_least}
use gbuf.Heap.Push.{down-IsHeapFrom}
use gbuf.Heap.Fix.{fix_to-Sorted}

module _ {T : Type 0} (d : T) (lt : T → T → Bool) where
  -- No item of the list is below `x`.
  abbrev pub NoneBelow : T → List T → Type 0
  NoneBelow x [] = Unit
  NoneBelow x (y ∷ a) = (lt y x ≡ false) × NoneBelow x a

  NoneBelow-of_at :
      (x : T) (a : List T) → ((i : ℕ) → i < length a → lt (at d a i) x ≡ false) → NoneBelow x a
  NoneBelow-of_at x [] h = tt
  NoneBelow-of_at x (y ∷ a) h =
      (h 0 (omega arith), NoneBelow-of_at x a λ i p. h (suc i) (omega arith))

  -- What Remove owes its caller at index `i` of the heap `a`: the item there, and a heap of the
  -- others.
  abbrev pub Removed : List T → ℕ → T → List T → Type 0
  Removed a i x rest = IsHeap d lt rest × Perm (x ∷ rest) a × (x ≡ at d a i)

  -- Cutting the last item off.
  cut :
      (a b rest : List T) (x : T) (n i : ℕ)
      → b ≡ rest ++ (x ∷ [])
      → length b ≡ suc n
      → IsHeapFrom d lt 0 n b
      → Perm b a
      → at d b n ≡ at d a i
      → Removed a i x rest
  cut a b rest x n i e size v same last =
      let short : length rest ≡ n = omega (arith, ap length e, length-append rest (x ∷ [])) in
      let moved : Perm (x ∷ rest) b =
        rw e (Perm.symm (rw (append-nil rest) at (perm_middle {a = x} rest []))) in
      let taken : at d b n ≡ x = rw (e, ← short) (at-last d rest x) in
      (
        (λ c p q. ground (
          arith,
          e,
          short,
          v c,
          at-append d rest (x ∷ []) c,
          at-append d rest (x ∷ []) ((c - 1) / 2),
        )),
        Perm.trans moved same,
        sym taken ∙ last,
      )

module _ {H T : Type 0} {d : T} {heap : Interface H T} {items : H → List T} {lt : T → T → Bool}
    (laws : Laws d heap items lt) where
  -- The end of both operations.
  take_last :
      (h h2 : H) (n i : ℕ)
      → length (items h2) ≡ suc n
      → IsHeapFrom d lt 0 n (items h2)
      → Perm (items h2) (items h)
      → at d (items h2) n ≡ at d (items h) i
      → Returns (λ (x, h'). Removed d lt (items h) i x (items h')) (heap.pop h2)
  take_last h h2 n i size v same last =
      Returns-map (laws.pop_law h2 (omega (arith, size)))
        λ (x, h') e. cut d lt (items h) (items h2) (items h') x n i e size v same last

  pop-Removed :
      (h : H) (n : ℕ)
      → IsHeap d lt (items h)
      → length (items h) ≡ suc n
      → Returns (λ (x, h'). Removed d lt (items h) 0 x (items h')) (pop heap h)
  unfolding pop
  pop-Removed h n v size =
      let last : (pos (heap.len h) -ℤ pos 1) ≡ pos n = ground (arith, laws.len_law h, size) in
      let a = items h in
      let swapped = λ (j : ℕ). at-exchange d a 0 n j (omega (arith, size)) (omega (arith, size)) in
      rw last (
        Returns-bind (laws.swap_law h 0 n (omega (arith, size)) (omega (arith, size))) λ h1 e.
          let size1 : length (items h1) ≡ suc n = rw e (length-exchange d a 0 n ∙ size) in
          let same1 : Perm (items h1) a =
            rw e (exchange-perm d a 0 n (omega (arith, size)) (omega (arith, size))) in
          Returns-bind
            (down-IsHeapFrom laws 0 n h1 (omega (arith, size1))
              (λ c p q r. ground (arith, e, size, v c, swapped c, swapped ((c - 1) / 2))))
            λ (moved, h2) (v2, same2, size2, rest).
              take_last h h2 n 0 (size2 ∙ size1) v2 (Perm.trans same2 same1)
                (ground (arith, rest n, e, swapped n)))

  -- Pop on a heap that is not empty returns an item that no item of the heap is below, the one at
  -- the root, and leaves a heap of the others.
  pub pop_refines :
      (h : H)
      → IsHeap d lt (items h)
      → 0 < length (items h)
      → Returns
          (λ (x, h'). Removed d lt (items h) 0 x (items h') × NoneBelow d lt x (items h))
          (pop heap h)
  pop_refines h v p =
      Returns-map (pop-Removed h (length (items h) - 1) v (omega arith)) λ (x, h') r.
        (r, NoneBelow-of_at d lt x (items h) λ i q. rw (r.2) (root_least laws (items h) i v q))

  -- The last item put at `i`, and sifted among the others.
  replaced :
      (h : H) (n i : ℕ)
      → IsHeap d lt (items h)
      → length (items h) ≡ suc n
      → i < n
      → Returns
          (λ h2.
            (length (items h2) ≡ suc n)
            × IsHeapFrom d lt 0 n (items h2)
            × Perm (items h2) (items h)
            × (at d (items h2) n ≡ at d (items h) i))
          (heap.swap h (pos i) (pos n) >>= λ h1. fix_to heap h1 i (pos n))
  replaced h n i v size q =
      let a = items h in
      let swapped = λ (j : ℕ). at-exchange d a i n j (omega (arith, size)) (omega (arith, size)) in
      Returns-bind (laws.swap_law h i n (omega (arith, size)) (omega (arith, size))) λ h1 e.
        let size1 : length (items h1) ≡ suc n = rw e (length-exchange d a i n ∙ size) in
        let same1 : Perm (items h1) a =
          rw e (exchange-perm d a i n (omega (arith, size)) (omega (arith, size))) in
        Returns-map
          (fix_to-Sorted laws h1 i n (omega (arith, size1)) q (record {
            below = omega arith;
            edges = λ c x y z t u. ground (arith, e, size, swapped c, swapped ((c - 1) / 2), v c);
            top = λ x. absurd (omega arith);
            bridged = λ c x y z t u. ground (
              arith,
              e,
              size,
              swapped c,
              swapped ((i - 1) / 2),
              v c,
              v i,
              laws.trans (at d a ((i - 1) / 2)) (at d a i) (at d a c),
            );
          }))
          λ h2 t. (
            t.size ∙ size1,
            t.heap,
            Perm.trans t.same same1,
            ground (arith, t.rest n, e, swapped n),
          )

  -- Remove at an index of a heap returns the item there, and leaves a heap of the others.
  pub remove_refines :
      (h : H) (i : ℕ)
      → IsHeap d lt (items h)
      → i < length (items h)
      → Returns (λ (x, h'). Removed d lt (items h) i x (items h')) (remove heap h i)
  unfolding remove
  remove_refines h i v p =
      let a = items h in
      let n = length a - 1 in
      let last : (pos (heap.len h) -ℤ pos 1) ≡ pos n = ground (arith, laws.len_law h) in
      elim (lt-or-le i n) [
        | inr q ↦
            let here : (n == i) ≡ true = ground arith in
            rw (last, here)
              (take_last h h n i (omega arith) (λ c x y z. v c x (omega arith)) Perm.rfl
                (ground arith))
        | inl q ↦
            let other : (n == i) ≡ false = ground arith in
            rw (last, other)
              (Returns-bind (replaced h n i v (omega arith) q)
                λ h2 (size2, v2, same, at_end). take_last h h2 n i size2 v2 same at_end)
      ]
