-- ===== src/Heap/Tests.antt =====
-- heap.go over a slice of numbers.
use mathlib.Core.List.{Perm}
use gbuf.Base.{
  ℕ, zero, suc, ◌<◌, ◌≡◌, refl, Bool, List, [], ◌∷◌, ◌++◌, arith, ltb, if◌then◌else◌, ◌&&◌, length,
  Run, ok, panic, ◌>>=◌, Returns, returns, Returns-bind, ap, lt→ltb,
}
use gbuf.Base.Int.{ℤ, pos, negsuc}
use gbuf.Heap.{Interface, init, push, pop, remove, fix}
use gbuf.Heap.Items.{at, exchange, Laws}
use gbuf.Heap.Order.{IsHeap}
use gbuf.Heap.Push.{push_refines, init_refines}
use gbuf.Heap.Pop.{NoneBelow, Removed, pop_refines, remove_refines}
use gbuf.Heap.Fix.{fix_refines}

abbrev take_last : List ℕ → Run (ℕ × List ℕ)
take_last [] = panic
take_last (x ∷ []) = ok (x, [])
take_last (x ∷ y ∷ a) = take_last (y ∷ a) >>= λ (z, b). ok (z, x ∷ b)

abbrev less_at : List ℕ → ℤ → ℤ → Run Bool
less_at a (pos i) (pos j) =
    if ltb i (length a) && ltb j (length a) then ok (ltb (at 0 a i) (at 0 a j)) else panic
less_at a (pos i) (negsuc j) = panic
less_at a (negsuc i) j = panic

abbrev swap_at : List ℕ → ℤ → ℤ → Run (List ℕ)
swap_at a (pos i) (pos j) =
    if ltb i (length a) && ltb j (length a) then ok (exchange 0 a i j) else panic
swap_at a (pos i) (negsuc j) = panic
swap_at a (negsuc i) j = panic

-- The slice of the documentation's example.
abbrev numbers : Interface (List ℕ) ℕ
numbers = record {
  len = λ a. length a;
  less = less_at;
  swap = swap_at;
  push = λ a x. ok (a ++ (x ∷ []));
  pop = take_last;
}

take_last_lem : (x : ℕ) (a : List ℕ) → Returns (λ (z, b). x ∷ a ≡ b ++ (z ∷ [])) (take_last (x ∷ a))
take_last_lem x [] = returns refl
take_last_lem x (y ∷ a) = Returns-bind (take_last_lem y a) λ (z, b) e. returns (ap (λ c. x ∷ c) e)

less_at_lem :
    (a : List ℕ) (i j : ℕ)
    → i < length a
    → j < length a
    → less_at a (pos i) (pos j) ≡ ok (ltb (at 0 a i) (at 0 a j))
less_at_lem a i j p q = rw (lt→ltb p, lt→ltb q) refl

swap_at_lem :
    (a : List ℕ) (i j : ℕ)
    → i < length a
    → j < length a
    → Returns (λ b. b ≡ exchange 0 a i j) (swap_at a (pos i) (pos j))
swap_at_lem a i j p q = rw (lt→ltb p, lt→ltb q) (returns refl)

pop_lem : (a : List ℕ) → 0 < length a → Returns (λ (x, b). a ≡ b ++ (x ∷ [])) (take_last a)
pop_lem [] p = absurd (omega arith)
pop_lem (x ∷ a) p = take_last_lem x a

numbers-Laws : Laws 0 numbers (λ a. a) ltb
numbers-Laws = record {
  len_law = λ a. refl;
  less_law = less_at_lem;
  swap_law = swap_at_lem;
  push_law = λ a x. returns refl;
  pop_law = pop_lem;
  asymm = λ x y e. ground arith;
  trans = λ x y z p q. ground arith;
}

init_runs : init numbers (5 ∷ 2 ∷ 8 ∷ []) ≡ ok (2 ∷ 5 ∷ 8 ∷ [])
unfolding init
init_runs = refl

abbrev four : List ℕ
four = 1 ∷ 3 ∷ 2 ∷ 7 ∷ []

four-IsHeap : IsHeap 0 ltb four
four-IsHeap zero p q = absurd (omega arith)
four-IsHeap (suc zero) p q = refl
four-IsHeap (suc (suc zero)) p q = refl
four-IsHeap (suc (suc (suc zero))) p q = refl
four-IsHeap (suc (suc (suc (suc c)))) p q = absurd (omega arith)

init_refines_example :
    Returns (λ b. IsHeap 0 ltb b × Perm b (5 ∷ 2 ∷ 8 ∷ [])) (init numbers (5 ∷ 2 ∷ 8 ∷ []))
init_refines_example = init_refines numbers-Laws (5 ∷ 2 ∷ 8 ∷ [])

push_refines_example : Returns (λ b. IsHeap 0 ltb b × Perm b (0 ∷ four)) (push numbers four 0)
push_refines_example = push_refines numbers-Laws four 0 four-IsHeap

pop_refines_example :
    Returns (λ (x, b). Removed 0 ltb four 0 x b × NoneBelow 0 ltb x four) (pop numbers four)
pop_refines_example = pop_refines numbers-Laws four four-IsHeap (omega arith)

remove_refines_example : Returns (λ (x, b). Removed 0 ltb four 1 x b) (remove numbers four 1)
remove_refines_example = remove_refines numbers-Laws four 1 four-IsHeap (omega arith)

fix_refines_example :
    Returns (λ b. IsHeap 0 ltb b × Perm b (1 ∷ 9 ∷ 2 ∷ 7 ∷ [])) (fix numbers (1 ∷ 9 ∷ 2 ∷ 7 ∷ []) 1)
fix_refines_example =
    fix_refines numbers-Laws four 9 (1 ∷ 9 ∷ 2 ∷ 7 ∷ []) 1 four-IsHeap (omega arith) refl
