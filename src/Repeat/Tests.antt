-- ===== src/Repeat/Tests.antt =====
-- items.go at small inputs.
use gbuf.Base.{arith, ◌+◌, ◌^◌, ℕ, ◌*◌, ◌≡◌, refl, List, [], ◌∷◌, ok, panic, length}
use gbuf.Base.Int.{pos}
use gbuf.Repeat.{repeat}
use gbuf.Repeat.Wraps.{repeat_wraps}

repeat_runs : repeat {T = ℕ} 0 (1 ∷ 2 ∷ []) (pos 3) ≡ ok (1 ∷ 2 ∷ 1 ∷ 2 ∷ 1 ∷ 2 ∷ [])
unfolding repeat gbuf.Base.copy_into
repeat_runs = refl

-- At a type of one value, whose items take no space.
repeat_wraps_example : repeat {T = Unit {0}} tt (tt ∷ []) (pos (2 ^ 62 + 1)) ≡ panic
repeat_wraps_example =
    repeat_wraps {T = Unit {0}} tt (tt ∷ []) (2 ^ 62 + 1) 62 refl (omega arith) (omega arith)
