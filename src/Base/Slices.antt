-- ===== src/Base/Slices.antt =====
-- Go slices whose length is their capacity, as lists: slice expressions and the builtin `copy`.
use Prim.Native.Nat.{ℕ, zero, suc, ◌-◌, ◌≤◌, min}
use mathlib.Core.Path.{◌≡◌}
use native.Mathlib.Omega.{arith}
use mathlib.Core.Bool.{◌&&◌}
use mathlib.Core.List.{List, [], ◌∷◌}
use gbuf.Base.Tests.{leb, if◌then◌else◌}
use gbuf.Base.Lists.{length, take, drop}
use gbuf.Base.Outcome.{Run, ok, panic}

module _ {A : Type 0} where
  -- The list with the entries from an index on overwritten by another list, as far as it reaches.
  abbrev pub splice : List A → ℕ → List A → List A
  splice [] i p = []
  splice (x ∷ xs) (suc i) p = x ∷ splice xs i p
  splice (x ∷ xs) zero [] = x ∷ xs
  splice (x ∷ xs) zero (y ∷ p) = y ∷ splice xs zero p

  -- `xs[lo:hi]`
  unfoldable pub slice : List A → ℕ → ℕ → Run (List A)
  slice xs lo hi =
      if leb lo hi && leb hi (length xs) then ok (take (hi - lo) (drop lo xs)) else panic

  -- `copy(xs[lo:hi], p)`: the new contents of `xs`, and the number of items copied.
  unfoldable pub copy_into : List A → ℕ → ℕ → List A → Run (List A × ℕ)
  copy_into xs lo hi p =
      if leb lo hi && leb hi (length xs)
      then ok (splice xs lo (take (hi - lo) p), min (hi - lo) (length p))
      else panic

  pub slice-ok :
      (xs : List A) (lo hi : ℕ)
      → lo ≤ hi
      → hi ≤ length xs
      → slice xs lo hi ≡ ok (take (hi - lo) (drop lo xs))
  unfolding slice
  slice-ok xs lo hi h k = ground arith

  pub copy_into-ok :
      (xs : List A) (lo hi : ℕ) (p : List A)
      → lo ≤ hi
      → hi ≤ length xs
      → copy_into xs lo hi p ≡ ok (splice xs lo (take (hi - lo) p), min (hi - lo) (length p))
  unfolding copy_into
  copy_into-ok xs lo hi p h k = ground arith
