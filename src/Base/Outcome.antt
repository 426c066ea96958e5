-- ===== src/Base/Outcome.antt =====
-- How a call of a Go function ends: it panics, the model's fuel runs out, or it returns.
use mathlib.Core.Path.{◌≡◌, subst}
use mathlib.Core.Bool.{Bool, true, false}

pub data Run (A : Type 0) : Type 0 where
  panic : Run A
  out_of_fuel : Run A
  ok : A → Run A

-- The call returns normally, with a value that satisfies `P`.
pub data Returns {A : Type 0} (P : A → Type 0) : Run A → Type 0 where
  returns : {a : A} → P a → Returns P (ok a)

module _ {A B : Type 0} where
  infixl 5 ◌>>=◌
  abbrev pub ◌>>=◌ : Run A → (A → Run B) → Run B
  panic >>= then_do = panic
  out_of_fuel >>= then_do = out_of_fuel
  ok result >>= then_do = then_do result

  module _ {P : A → Type 0} {Q : B → Type 0} {then_do : A → Run B} where
    pub Returns-bind :
        {call : Run A}
        → Returns P call
        → ((result : A) → P result → Returns Q (then_do result))
        → Returns Q (call >>= then_do)
    Returns-bind (returns p) next = next _ p

module _ {A B C : Type 0} {P : A → Type 0} {Q : C → Type 0} (f : A → Run B) (g : B → Run C) where
  pub Returns-bind_two :
      {call : Run A}
      → Returns P call
      → ((result : A) → P result → Returns Q (f result >>= g))
      → Returns Q (call >>= f >>= g)
  Returns-bind_two (returns p) next = next _ p

infixl 5 ◌>>◌
abbrev pub ◌>>◌ : {B : Type 0} → Run (Unit {0}) → Run B → Run B
check >> after = check >>= λ _. after

-- Goes on if the test holds, and panics otherwise.
abbrev pub require : Bool → Run (Unit {0})
require true = ok tt
require false = panic

module _ {A : Type 0} {P : A → Type 0} where
  pub Returns-of_eq : {call : Run A} {result : A} → call ≡ ok result → P result → Returns P call
  Returns-of_eq e p = rw e (returns p)

  pub Returns-map :
      {Q : A → Type 0} {call : Run A}
      → Returns P call
      → ((result : A) → P result → Q result)
      → Returns Q call
  Returns-map (returns p) weaken = returns (weaken _ p)

module _ {A : Type 0} where
  pub ok-inj : {a b : A} → ok a ≡ ok b → a ≡ b
  ok-inj e = cc

  -- What a call returns, where its result is known.
  pub Returns-result :
      {P : A → Type 0} {call : Run A} {result : A} → Returns P call → call ≡ ok result → P result
  Returns-result {P} (returns p) e = subst P (ok-inj e) p
