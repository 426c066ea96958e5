-- ===== src/Base/Int.antt =====
-- Go's signed `int` and `int64`, over the native numbers.
use Prim.Native.Nat.{ℕ, ◌+◌, ◌-◌, ◌%◌, ◌^◌, ◌≤◌, ◌<◌}
use mathlib.Core.Path.{◌≡◌, ◌∙◌}
use mathlib.Core.Bool.{Bool, true, false}
use native.Mathlib.Omega.{arith}
use native.Mathlib.Nat.{mod-eq_of_lt, mod-eq-sub-mod}
use gbuf.Base.Tests.{ltb, leb, ◌==◌, if◌then◌else◌}
use gbuf.Base.Outcome.{Run, ok, panic}

-- `negsuc n` is -(n + 1).
pub data ℤ : Type 0 where
  pos : ℕ → ℤ
  negsuc : ℕ → ℤ

abbrev pub pos_part : ℤ → ℕ
pos_part (pos n) = n
pos_part (negsuc n) = 0

-- a - b, as an integer.
abbrev pub sub_ℕ : ℕ → ℕ → ℤ
sub_ℕ a b = if leb b a then pos (a - b) else negsuc (b - a - 1)

infixl 65 ◌+ℤ◌ ◌-ℤ◌
abbrev pub ◌+ℤ◌ : ℤ → ℤ → ℤ
pos a +ℤ pos b = pos (a + b)
pos a +ℤ negsuc b = sub_ℕ a (b + 1)
negsuc a +ℤ pos b = sub_ℕ b (a + 1)
negsuc a +ℤ negsuc b = negsuc (a + b + 1)

abbrev pub ◌-ℤ◌ : ℤ → ℤ → ℤ
pos a -ℤ pos b = sub_ℕ a b
pos a -ℤ negsuc b = pos (a + b + 1)
negsuc a -ℤ pos b = negsuc (a + b)
negsuc a -ℤ negsuc b = sub_ℕ b a

abbrev pub eqb_ℤ : ℤ → ℤ → Bool
eqb_ℤ (pos a) (pos b) = a == b
eqb_ℤ (pos a) (negsuc b) = false
eqb_ℤ (negsuc a) (pos b) = false
eqb_ℤ (negsuc a) (negsuc b) = a == b

abbrev pub ltb_ℤ : ℤ → ℤ → Bool
ltb_ℤ (pos a) (pos b) = ltb a b
ltb_ℤ (pos a) (negsuc b) = false
ltb_ℤ (negsuc a) (pos b) = true
ltb_ℤ (negsuc a) (negsuc b) = ltb b a

-- `a <= b`.
abbrev pub leb_ℤ : ℤ → ℤ → Bool
leb_ℤ (pos a) (pos b) = leb a b
leb_ℤ (pos a) (negsuc b) = false
leb_ℤ (negsuc a) (pos b) = true
leb_ℤ (negsuc a) (negsuc b) = leb b a

-- The index that a Go slice expression or index expression uses: a negative one panics.
abbrev pub index : ℤ → Run ℕ
index (pos n) = ok n
index (negsuc n) = panic

-- `a % n` of Go, which takes the sign of `a`, and panics at `n == 0`.
abbrev pub rem : ℤ → ℕ → Run ℤ
rem (pos a) n = if n == 0 then panic else ok (pos (a % n))
rem (negsuc a) n = if n == 0 then panic else ok (sub_ℕ 0 ((a + 1) % n))

-- `a % n` at an `a` that is not negative.
abbrev pub rem_ℕ : ℕ → ℕ → Run ℕ
rem_ℕ a n = if n == 0 then panic else ok (a % n)

-- The value of an int64 sum of two int64 values: the mathematical sum, wrapped once.
abbrev pub wrap_int64 : ℤ → ℤ
wrap_int64 (pos n) = if ltb n (2 ^ 63) then pos n else sub_ℕ n (2 ^ 64)
wrap_int64 (negsuc n) = if ltb n (2 ^ 63) then negsuc n else sub_ℕ (2 ^ 64) (n + 1)

pub mod-once : {a n : ℕ} → n ≤ a → a < n + n → a % n ≡ a - n
mod-once {a} {n} h k = mod-eq-sub-mod h ∙ mod-eq_of_lt (omega arith)

-- The largest value of Go's `int`.
abbrev pub max_int : ℕ
max_int = 2 ^ 63 - 1
