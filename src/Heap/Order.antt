-- ===== src/Heap/Order.antt =====
-- The heap order, and what a sift keeps of it.
use gbuf.Base.{
  ℕ, zero, suc, ◌-◌, ◌/◌, ◌≤◌, ◌<◌, ◌≡◌, Bool, false, List, arith, length, Bool-cases, inl, inr,
}
use gbuf.Heap.Items.{at, Laws}
use gbuf.Heap.{Interface}

module _ {T : Type 0} (d : T) (lt : T → T → Bool) where
  -- The item at the second index is not below the one at the first.
  abbrev pub Ordered : List T → ℕ → ℕ → Type 0
  Ordered a i j = lt (at d a j) (at d a i) ≡ false

  -- Among the first `n` items every edge whose parent is at `lo` or later is in order.
  abbrev pub IsHeapFrom : ℕ → ℕ → List T → Type 0
  IsHeapFrom lo n a = (c : ℕ) → 0 < c → c < n → lo ≤ (c - 1) / 2 → Ordered a ((c - 1) / 2) c

  -- The invariant of the documentation: no item is below its parent.
  abbrev pub IsHeap : List T → Type 0
  IsHeap a = (c : ℕ) → 0 < c → c < length a → Ordered a ((c - 1) / 2) c

  -- The children of `i` are not below the parent of `i`.
  abbrev pub IsBridged : ℕ → ℕ → List T → ℕ → Type 0
  IsBridged lo n a i =
      (c : ℕ)
      → 0 < c
      → c < n
      → (c - 1) / 2 ≡ i
      → 0 < i
      → lo ≤ (i - 1) / 2
      → Ordered a ((i - 1) / 2) c

module _ {H T : Type 0} {d : T} {heap : Interface H T} {items : H → List T} {lt : T → T → Bool}
    (laws : Laws d heap items lt) where
  pub irrefl : (x : T) → lt x x ≡ false
  irrefl x = elim (Bool-cases (lt x x)) [ inl e ↦ laws.asymm x x e | inr e ↦ e ]

  root_least_below :
      (k : ℕ) (a : List T) (i : ℕ) → IsHeap d lt a → i < k → i < length a → Ordered d lt a 0 i
  root_least_below zero a i h f p = absurd (omega arith)
  root_least_below (suc k) a zero h f p = irrefl (at d a 0)
  root_least_below (suc k) a (suc i) h f p =
      laws.trans (at d a 0) (at d a ((suc i - 1) / 2)) (at d a (suc i))
        (root_least_below k a ((suc i - 1) / 2) h (omega arith) (omega arith))
        (h (suc i) (omega arith) p)

  -- No item of a heap is below its root.
  pub root_least : (a : List T) (i : ℕ) → IsHeap d lt a → i < length a → Ordered d lt a 0 i
  root_least a i h p = root_least_below (suc i) a i h (omega arith) p
