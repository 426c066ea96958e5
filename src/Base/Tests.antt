-- ===== src/Base/Tests.antt =====
-- Boolean tests on the native numbers, and the conditional.
use Prim.Native.Nat.{ℕ, ◌≤◌, ◌<◌, compare, Ordering}
use mathlib.Core.Path.{◌≡◌, refl}
use mathlib.Core.Logic.{◌⊎◌, inl, inr}
use mathlib.Core.Bool.{Bool, true, false}
use native.Mathlib.Omega.{arith}

abbrev pub ltb : ℕ → ℕ → Bool
ltb a b = elim (compare a b) [ Ordering.lt ↦ true | _ ↦ false ]

abbrev pub leb : ℕ → ℕ → Bool
leb a b = elim (compare a b) [ Ordering.gt ↦ false | _ ↦ true ]

infix 50 ◌==◌
abbrev pub ◌==◌ : ℕ → ℕ → Bool
a == b = elim (compare a b) [ Ordering.eq ↦ true | _ ↦ false ]

infix 1 if◌then◌else◌
abbrev pub if◌then◌else◌ {ℓ} : {A : Type ℓ} → Bool → A → A → A
if true then x else y = x
if false then x else y = y

pub Bool-cases : (b : Bool) → (b ≡ true) ⊎ (b ≡ false)
Bool-cases true = inl refl
Bool-cases false = inr refl

pub lt→ltb : {a b : ℕ} → a < b → ltb a b ≡ true
lt→ltb h = ground arith

pub le→ltb : {a b : ℕ} → b ≤ a → ltb a b ≡ false
le→ltb h = ground arith

pub lt-or-le : (a b : ℕ) → (a < b) ⊎ (b ≤ a)
lt-or-le a b = omega arith

pub le→leb : {a b : ℕ} → a ≤ b → leb a b ≡ true
le→leb h = ground arith

pub lt→leb : {a b : ℕ} → b < a → leb a b ≡ false
lt→leb h = ground arith

pub pos→== : {a : ℕ} → 0 < a → (a == 0) ≡ false
pos→== h = ground arith

pub zero→== : {a : ℕ} → a ≤ 0 → (a == 0) ≡ true
zero→== h = ground arith
