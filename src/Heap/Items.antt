-- ===== src/Heap/Items.antt =====
-- The slice behind a heap, as the list of its items, and what its methods do to it.
use mathlib.Core.List.{Perm}
use mathlib.Core.List.Perm
use gbuf.Base.{
  ℕ, zero, suc, ◌<◌, ◌≡◌, refl, Bool, true, false, List, [], ◌∷◌, ◌++◌, arith, ◌==◌, if◌then◌else◌,
  ok, Returns, length, set, length-set,
}
use gbuf.Base.Int.{pos}
use gbuf.Heap.{Interface}

module _ {T : Type 0} (d : T) where
  -- The item at an index, and `d` past the end.
  abbrev pub at : List T → ℕ → T
  at [] i = d
  at (x ∷ a) zero = x
  at (x ∷ a) (suc i) = at a i

  -- The items with the ones at two indices exchanged.
  abbrev pub exchange : List T → ℕ → ℕ → List T
  exchange a i j = set (set a i (at a j)) j (at a i)

  pub at-set :
      (a : List T) (i : ℕ) (v : T) (j : ℕ)
      → i < length a
      → at (set a i v) j ≡ (if i == j then v else at a j)
  at-set [] i v j h = absurd (omega arith)
  at-set (x ∷ a) zero v zero h = refl
  at-set (x ∷ a) zero v (suc j) h = ground arith
  at-set (x ∷ a) (suc i) v zero h = ground arith
  at-set (x ∷ a) (suc i) v (suc j) h = ground (arith, at-set a i v j)

  pub at-append : (a b : List T) (i : ℕ) → i < length a → at (a ++ b) i ≡ at a i
  at-append [] b i h = absurd (omega arith)
  at-append (x ∷ a) b zero h = refl
  at-append (x ∷ a) b (suc i) h = at-append a b i (omega arith)

  pub at-last : (a : List T) (x : T) → at (a ++ (x ∷ [])) (length a) ≡ x
  at-last [] x = refl
  at-last (y ∷ a) x = at-last a x

  pub length-exchange : (a : List T) (i j : ℕ) → length (exchange a i j) ≡ length a
  length-exchange a i j =
      omega (arith, length-set (set a i (at a j)) j (at a i), length-set a i (at a j))

  pub at-exchange :
      (a : List T) (i j k : ℕ)
      → i < length a
      → j < length a
      → at (exchange a i j) k ≡ (if k == j then at a i else if k == i then at a j else at a k)
  at-exchange a i j k hi hj = ground (
    arith,
    at-set (set a i (at a j)) j (at a i) k,
    length-set a i (at a j),
    at-set a i (at a j) k,
  )

  -- Putting an item for another one, and that in front.
  set-perm : (a : List T) (i : ℕ) (x : T) → i < length a → Perm (at a i ∷ set a i x) (x ∷ a)
  set-perm [] i x h = absurd (omega arith)
  set-perm (y ∷ a) zero x h = Perm.swap x y a
  set-perm (y ∷ a) (suc i) x h =
      Perm.trans (Perm.swap y (at a i) (set a i x))
        (Perm.trans (Perm.cons y (set-perm a i x (omega arith))) (Perm.swap x y a))

  pub exchange-perm : (a : List T) (i j : ℕ) → i < length a → j < length a → Perm (exchange a i j) a
  exchange-perm [] i j hi hj = absurd (omega arith)
  exchange-perm (x ∷ a) zero zero hi hj = Perm.rfl
  exchange-perm (x ∷ a) zero (suc j) hi hj = set-perm a j x (omega arith)
  exchange-perm (x ∷ a) (suc i) zero hi hj = set-perm a i x (omega arith)
  exchange-perm (x ∷ a) (suc i) (suc j) hi hj =
      Perm.cons x (exchange-perm a i j (omega arith) (omega arith))

-- What the documentation of sort.Interface and of Heap[T] asks of the methods: Less is a strict weak
-- order on the items, Swap exchanges two, Push appends one, and Pop takes the last.
pub record Laws {H T : Type 0} (d : T) (heap : Interface H T) (items : H → List T)
    (lt : T → T → Bool) : Type 0 where
  pub len_law : (h : H) → heap.len h ≡ length (items h)
  pub less_law :
      (h : H) (i j : ℕ)
      → i < length (items h)
      → j < length (items h)
      → heap.less h (pos i) (pos j) ≡ ok (lt (at d (items h) i) (at d (items h) j))
  pub swap_law :
      (h : H) (i j : ℕ)
      → i < length (items h)
      → j < length (items h)
      → Returns (λ h'. items h' ≡ exchange d (items h) i j) (heap.swap h (pos i) (pos j))
  pub push_law : (h : H) (x : T) → Returns (λ h'. items h' ≡ items h ++ (x ∷ [])) (heap.push h x)
  pub pop_law :
      (h : H)
      → 0 < length (items h)
      → Returns (λ (x, h'). items h ≡ items h' ++ (x ∷ [])) (heap.pop h)
  pub asymm : (x y : T) → lt x y ≡ true → lt y x ≡ false
  pub trans : (x y z : T) → lt y x ≡ false → lt z y ≡ false → lt z x ≡ false
