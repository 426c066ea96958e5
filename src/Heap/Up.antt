-- ===== src/Heap/Up.antt =====
-- `up` of heap.go.
use mathlib.Core.List.{Perm}
use mathlib.Core.List.Perm
use gbuf.Base.{
  ℕ, zero, suc, ◌+◌, ◌-◌, ◌/◌, ◌≤◌, ◌<◌, ◌≡◌, ◌≢◌, refl, ◌∙◌, Bool, true, false, List, arith, ◌==◌,
  length, inl, inr, lt-or-le, Bool-cases, Returns, returns, Returns-bind, Returns-map,
}
use gbuf.Heap.{Interface, up_loop, up}
use gbuf.Heap.Items.{at, exchange, at-exchange, length-exchange, exchange-perm, Laws}
use gbuf.Heap.Order.{Ordered, IsHeapFrom, IsBridged}

module _ {T : Type 0} (d : T) (lt : T → T → Bool) (n : ℕ) where
  -- Among the first `n` items only the edge above `j` may be out of order.
  pub record UpInv (a : List T) (j : ℕ) : Type 0 where
    pub inside : j < n
    pub edges : (c : ℕ) → 0 < c → c < n → c ≢ j → Ordered d lt a ((c - 1) / 2) c
    pub bridged : IsBridged d lt 0 n a j

  -- `b` holds the items of `a`, the first `n` in order and the others where they were.
  pub record Sorted (a b : List T) : Type 0 where
    pub heap : IsHeapFrom d lt 0 n b
    pub same : Perm b a
    pub size : length b ≡ length a
    pub rest : (j : ℕ) → n ≤ j → at d b j ≡ at d a j

module _ {H T : Type 0} {d : T} {heap : Interface H T} {items : H → List T} {lt : T → T → Bool}
    (laws : Laws d heap items lt) (n : ℕ) where
  swap-UpInv :
      (a : List T) (j : ℕ)
      → n ≤ length a
      → UpInv d lt n a j
      → 0 < j
      → lt (at d a j) (at d a ((j - 1) / 2)) ≡ true
      → UpInv d lt n (exchange d a ((j - 1) / 2) j) ((j - 1) / 2)
  swap-UpInv a j k v p smaller =
      let i = (j - 1) / 2 in
      let swapped =
        λ (l : ℕ). at-exchange d a i j l (omega (arith, v.inside)) (omega (arith, v.inside)) in
      let settled = laws.asymm (at d a j) (at d a i) smaller in
      record {
        inside = omega (arith, v.inside);
        edges = λ c q r t. ground (
          arith,
          swapped c,
          swapped ((c - 1) / 2),
          v.edges c,
          v.bridged c,
          settled,
          laws.trans (at d a j) (at d a i) (at d a c),
        );
        bridged = λ c q r t u w. ground (
          arith,
          swapped c,
          swapped ((i - 1) / 2),
          v.edges c,
          v.edges i,
          laws.trans (at d a ((i - 1) / 2)) (at d a i) (at d a c),
        );
      }

  up_loop_raises :
      (fuel : ℕ) (h : H) (j : ℕ)
      → n ≤ length (items h)
      → j < fuel
      → UpInv d lt n (items h) j
      → Returns (λ h'. Sorted d lt n (items h) (items h')) (up_loop heap fuel h j)
  unfolding up_loop
  up_loop_raises zero h j k f v = absurd (omega arith)
  up_loop_raises (suc fuel) h j k f v =
      let a = items h in
      let i = (j - 1) / 2 in
      elim (lt-or-le 0 j) [
        | inr q ↦
            let root : (i == j) ≡ true = ground arith in
            rw root (
              returns (record {
                heap = λ c x y z. v.edges c x y (omega arith);
                same = Perm.rfl;
                size = refl;
                rest = λ l z. refl;
              }))
        | inl q ↦
            let hi : i < length a = omega (arith, v.inside) in
            let hj : j < length a = omega (arith, v.inside) in
            let inner : (i == j) ≡ false = ground arith in
            rw (inner, laws.less_law h j i hj hi)
              (elim (Bool-cases (lt (at d a j) (at d a i))) [
                | inl e ↦ rw e (
                    Returns-bind (laws.swap_law h i j hi hj) λ h1 eq.
                      let size : length (items h1) ≡ length a = rw eq (length-exchange d a i j) in
                      Returns-map
                        (up_loop_raises fuel h1 i (omega (arith, size)) (omega arith)
                          (rw eq (swap-UpInv a j k v q e)))
                        λ h' t.
                          let exchanged : Perm (items h1) a = rw eq (exchange-perm d a i j hi hj) in
                          record {
                            heap = t.heap;
                            same = Perm.trans t.same exchanged;
                            size = t.size ∙ size;
                            rest = λ l z.
                                ground (arith, eq, t.rest l, at-exchange d a i j l hi hj, v.inside);
                          })
                | inr e ↦ rw e (
                    returns (record {
                      heap = λ c x y z. ground (arith, v.edges c, e);
                      same = Perm.rfl;
                      size = refl;
                      rest = λ l z. refl;
                    }))
              ])
      ]

  -- `up` of the one item that may be below its parent puts the first `n` items in order.
  pub up_raises :
      (h : H) (j : ℕ)
      → n ≤ length (items h)
      → UpInv d lt n (items h) j
      → Returns (λ h'. Sorted d lt n (items h) (items h')) (up heap h j)
  unfolding up
  up_raises h j k v = up_loop_raises (j + 1) h j k (omega arith) v
