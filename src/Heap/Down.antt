-- ===== src/Heap/Down.antt =====
-- `down` of heap.go.
use mathlib.Core.List.{Perm}
use mathlib.Core.List.Perm
use gbuf.Base.{
  ℕ, zero, suc, ◌+◌, ◌-◌, ◌*◌, ◌/◌, ◌≤◌, ◌<◌, ◌≡◌, ◌≢◌, refl, ◌∙◌, Bool, true, false, List, arith,
  ltb, length, inl, inr, lt-or-le, Bool-cases, lt→ltb, le→ltb, le→leb, lt→leb, Returns, returns,
  Returns-bind, Returns-map,
}
use gbuf.Base.Int.{pos}
use gbuf.Heap.{Interface, smaller_child, down_loop, down}
use gbuf.Heap.Items.{at, exchange, at-exchange, length-exchange, exchange-perm, Laws}
use gbuf.Heap.Order.{Ordered, IsBridged, irrefl}

module _ {T : Type 0} (d : T) (lt : T → T → Bool) (lo n i0 : ℕ) where
  -- A sift that began at `i0` stands at `i`: only the edges below `i` may be out of order, and the
  -- one above `i0` while the sift has not moved.
  pub record DownInv (a : List T) (i : ℕ) : Type 0 where
    pub below : i0 ≤ i
    pub edges :
        (c : ℕ)
        → 0 < c
        → c < n
        → lo ≤ (c - 1) / 2
        → (c - 1) / 2 ≢ i
        → c ≢ i0
        → Ordered d lt a ((c - 1) / 2) c
    pub top : i0 < i → 0 < i0 → lo ≤ (i0 - 1) / 2 → Ordered d lt a ((i0 - 1) / 2) i0
    pub bridged : IsBridged d lt lo n a i

  -- The outcome `(i', b)` of a sift from `i` in `a`: `b` holds the items of `a`, those past the
  -- first `n` where they were. Only the edge above `i0` may be out of order, and that only if the
  -- sift has not moved at all.
  pub record Sunk (a : List T) (i : ℕ) (i' : ℕ) (b : List T) : Type 0 where
    pub deeper : i ≤ i'
    pub still : i' ≡ i → b ≡ a
    pub same : Perm b a
    pub size : length b ≡ length a
    pub rest : (j : ℕ) → n ≤ j → at d b j ≡ at d a j
    pub sorted :
        (c : ℕ) → 0 < c → c < n → lo ≤ (c - 1) / 2 → c ≢ i0 → Ordered d lt b ((c - 1) / 2) c
    pub above : i0 < i' → 0 < i0 → lo ≤ (i0 - 1) / 2 → Ordered d lt b ((i0 - 1) / 2) i0

module _ {T : Type 0} (d : T) (lt : T → T → Bool) (n : ℕ) where
  -- The least child of `i` is at `m`.
  pub record IsLeastChild (a : List T) (i m : ℕ) : Type 0 where
    pub inside : m < n
    pub child : (m - 1) / 2 ≡ i
    pub later : i < m
    pub least : (c : ℕ) → 0 < c → c < n → (c - 1) / 2 ≡ i → Ordered d lt a m c

module _ {H T : Type 0} {d : T} {heap : Interface H T} {items : H → List T} {lt : T → T → Bool}
    (laws : Laws d heap items lt) (n : ℕ) where
  smaller_child-IsLeastChild :
      (h : H) (i : ℕ)
      → n ≤ length (items h)
      → 2 * i + 1 < n
      → Returns (IsLeastChild d lt n (items h) i) (smaller_child heap h (2 * i + 1) (pos n))
  unfolding smaller_child
  smaller_child-IsLeastChild h i k p =
      let a = items h in
      let j1 = 2 * i + 1 in
      elim (lt-or-le (j1 + 1) n) [
        | inl q ↦
            let test = laws.less_law h (j1 + 1) j1 (omega arith) (omega arith) in
            elim (Bool-cases (lt (at d a (j1 + 1)) (at d a j1))) [
              | inl e ↦
                  rw (lt→ltb q, test, e)
                    (returns (record {
                      inside = q;
                      child = omega arith;
                      later = omega arith;
                      least = λ c x y z. ground (
                        arith,
                        e,
                        irrefl laws (at d a (j1 + 1)),
                        laws.asymm (at d a (j1 + 1)) (at d a j1),
                      );
                    }))
              | inr e ↦
                  rw (lt→ltb q, test, e)
                    (returns (record {
                      inside = p;
                      child = omega arith;
                      later = omega arith;
                      least = λ c x y z. ground (arith, e, irrefl laws (at d a j1));
                    }))
            ]
        | inr q ↦ rw (le→ltb q) (
            returns (record {
              inside = p;
              child = omega arith;
              later = omega arith;
              least = λ c x y z. ground (arith, irrefl laws (at d a j1));
            }))
      ]

  swap-DownInv :
      (lo i0 : ℕ) (a : List T) (i m : ℕ)
      → n ≤ length a
      → DownInv d lt lo n i0 a i
      → IsLeastChild d lt n a i m
      → lt (at d a m) (at d a i) ≡ true
      → DownInv d lt lo n i0 (exchange d a i m) m
  swap-DownInv lo i0 a i m k v s smaller =
      let swapped = λ (j : ℕ).
        at-exchange d a i m j (omega (arith, s.inside, s.later)) (omega (arith, s.inside)) in
      let settled = laws.asymm (at d a m) (at d a i) smaller in
      record {
        below = omega (arith, v.below, s.later);
        edges = λ c p q r t u. ground (
          arith,
          swapped c,
          swapped ((c - 1) / 2),
          v.edges c,
          v.bridged m,
          s.least c,
          s.child,
          s.later,
          settled,
        );
        top = λ p q r. ground (
          arith,
          swapped i0,
          swapped ((i0 - 1) / 2),
          v.top,
          v.below,
          v.bridged m,
          s.child,
          s.later,
          s.inside,
        );
        bridged = λ c p q r t u.
            ground (arith, swapped c, swapped ((m - 1) / 2), v.edges c, v.below, s.child, s.later);
      }

  -- A sift that ends at `i`, as the least child of `i` is not below it.
  settled :
      (a : List T) (i m lo i0 : ℕ)
      → DownInv d lt lo n i0 a i
      → IsLeastChild d lt n a i m
      → lt (at d a m) (at d a i) ≡ false
      → (c : ℕ) → 0 < c
      → c < n
      → lo ≤ (c - 1) / 2
      → c ≢ i0
      → Ordered d lt a ((c - 1) / 2) c
  settled a i m lo i0 v s e c x y t u =
      ground (arith, v.edges c, s.least c, laws.trans (at d a i) (at d a m) (at d a c))

  Sunk-swap :
      (lo i0 : ℕ) (a : List T) (i m : ℕ) (a1 : List T) (i' : ℕ) (b : List T)
      → n ≤ length a
      → DownInv d lt lo n i0 a i
      → IsLeastChild d lt n a i m
      → a1 ≡ exchange d a i m
      → Sunk d lt lo n i0 a1 m i' b
      → Sunk d lt lo n i0 a i i' b
  Sunk-swap lo i0 a i m a1 i' b k v s eq t =
      let hi : i < length a = omega (arith, s.later, s.inside) in
      let hm : m < length a = omega (arith, s.inside) in
      let exchanged : Perm a1 a = rw eq (exchange-perm d a i m hi hm) in
      let size : length a1 ≡ length a = rw eq (length-exchange d a i m) in
      record {
        deeper = omega (arith, t.deeper, s.later);
        still = λ e. absurd (omega (arith, t.deeper, s.later));
        same = Perm.trans t.same exchanged;
        size = t.size ∙ size;
        rest = λ j p. ground (arith, eq, t.rest j, at-exchange d a i m j hi hm, s.inside, s.later);
        sorted = t.sorted;
        above = t.above;
      }

  down_loop_sinks :
      (fuel lo i0 : ℕ) (h : H) (i : ℕ)
      → n ≤ length (items h)
      → n - i < fuel
      → DownInv d lt lo n i0 (items h) i
      → Returns
          (λ (i', h'). Sunk d lt lo n i0 (items h) i i' (items h'))
          (down_loop heap fuel h i (pos n))
  unfolding down_loop
  down_loop_sinks zero lo i0 h i k f v = absurd (omega arith)
  down_loop_sinks (suc fuel) lo i0 h i k f v = elim (lt-or-le (2 * i + 1) n) [
    | inr q ↦ rw (le→leb q) (
        returns (record {
          deeper = omega arith;
          still = λ e. refl;
          same = Perm.rfl;
          size = refl;
          rest = λ j p. refl;
          sorted = λ c p r t u. v.edges c p r t (omega arith) u;
          above = v.top;
        }))
    | inl q ↦ rw (lt→leb q) (
        Returns-bind (smaller_child-IsLeastChild h i k q) λ m s.
          let hm : m < length (items h) = omega (arith, s.inside) in
          let hi : i < length (items h) = omega (arith, s.later) in
          rw (laws.less_law h m i hm hi)
            (elim (Bool-cases (lt (at d (items h) m) (at d (items h) i))) [
              | inl e ↦ rw e (
                  Returns-bind (laws.swap_law h i m hi hm) λ h1 eq.
                    let size : length (items h1) ≡ length (items h) =
                      rw eq (length-exchange d (items h) i m) in
                    Returns-map
                      (down_loop_sinks fuel lo i0 h1 m (omega (arith, size))
                        (omega (arith, s.later)) (rw eq (swap-DownInv lo i0 (items h) i m k v s e)))
                      λ (i', h') sunk.
                        Sunk-swap lo i0 (items h) i m (items h1) i' (items h') k v s eq sunk)
              | inr e ↦ rw e (
                  returns (record {
                    deeper = omega arith;
                    still = λ y. refl;
                    same = Perm.rfl;
                    size = refl;
                    rest = λ j y. refl;
                    sorted = λ c x y t u. settled (items h) i m lo i0 v s e c x y t u;
                    above = v.top;
                  }))
            ]))
  ]

  -- `down`, from `i0` among the first `n` items, ends with an outcome, and returns whether it moved.
  pub down_sinks :
      (lo i0 : ℕ) (h : H)
      → n ≤ length (items h)
      → DownInv d lt lo n i0 (items h) i0
      → Returns
          (λ (moved, h').
            (i' : ℕ) × (moved ≡ ltb i0 i') × Sunk d lt lo n i0 (items h) i0 i' (items h'))
          (down heap h i0 (pos n))
  unfolding down
  down_sinks lo i0 h k v =
      Returns-bind (down_loop_sinks (n + 1) lo i0 h i0 k (omega arith) v)
        λ (i', h') s. returns (i', refl, s)
