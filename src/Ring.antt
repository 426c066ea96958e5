-- ===== src/Ring.antt =====
-- ring.go: a Ring is a pointer to an element of a circular list. The elements stand in a store, and a
-- pointer is an index in it, or none for nil.
pub mod Walk
pub mod Count
pub mod Seen
pub mod Backed
pub mod Assigned
pub mod Link
mod Tests
use gbuf.Base.{
  ℕ, zero, suc, ◌+◌, ◌-◌, Bool, true, false, Option, none, some, List, [], ◌∷◌, ◌++◌, ◌==◌,
  if◌then◌else◌, Run, ok, panic, out_of_fuel, ◌>>=◌, length, get_elem?, set,
}
use gbuf.Base.Int.{ℤ, pos, negsuc}

pub record Node (T : Type 0) : Type 0 where
  pub next : Option ℕ
  pub prev : Option ℕ
  pub value : T

-- The elements that were allocated so far.
abbrev pub Store : Type 0 → Type 0
Store T = List (Node T)

-- What a pointer refers to; a nil one panics.
abbrev pub follow : Option ℕ → Run ℕ
follow none = panic
follow (some r) = ok r

module _ {T : Type 0} where
  abbrev pub load : Store T → ℕ → Run (Node T)
  load h r = elim (get_elem? h r) [ none ↦ panic | some node ↦ ok node ]

  abbrev pub set_next : Store T → ℕ → Option ℕ → Run (Store T)
  set_next h r q = load h r >>= λ node. ok (set h r (record node { next = q }))

  abbrev pub set_prev : Store T → ℕ → Option ℕ → Run (Store T)
  set_prev h r q = load h r >>= λ node. ok (set h r (record node { prev = q }))

  unfoldable pub init : Store T → ℕ → Run (Option ℕ × Store T)
  init h r = do h₁ ← set_next h r (some r); h₂ ← set_prev h₁ r (some r); ok (some r, h₂)

  unfoldable pub next : Store T → ℕ → Run (Option ℕ × Store T)
  unfolding init
  next h r = load h r >>= λ node. elim node.next [ none ↦ init h r | some q ↦ ok (some q, h) ]

  unfoldable pub prev : Store T → ℕ → Run (Option ℕ × Store T)
  unfolding init
  prev h r = load h r >>= λ node. elim node.next [ none ↦ init h r | some q ↦ ok (node.prev, h) ]

  -- `r = r.prev` and `r = r.next`, as often as the loops of Move do it.
  unfoldable pub backward : ℕ → Store T → Option ℕ → Run (Option ℕ)
  backward zero h p = ok p
  backward (suc n) h p = do r ← follow p; node ← load h r; backward n h node.prev

  unfoldable pub forward : ℕ → Store T → Option ℕ → Run (Option ℕ)
  forward zero h p = ok p
  forward (suc n) h p = do r ← follow p; node ← load h r; forward n h node.next

  unfoldable pub move_by : Store T → ℕ → ℤ → Run (Option ℕ)
  unfolding backward forward
  move_by h r (pos n) = forward n h (some r)
  move_by h r (negsuc n) = backward (n + 1) h (some r)

  unfoldable pub move : Store T → ℕ → ℤ → Run (Option ℕ × Store T)
  unfolding init move_by
  move h r n = do
    node ← load h r
    elim node.next [ none ↦ init h r | some _ ↦ move_by h r n >>= λ p. ok (p, h) ]

  -- The loop of NewRing, with the rounds left: the store and the last element.
  unfoldable pub extend : T → ℕ → Store T → ℕ → Run (Store T × ℕ)
  extend zero_value zero h p = ok (h, p)
  extend zero_value (suc n) h p = do
    let q = length h
    h₁ ← set_next (h ++ (record { next = none; prev = some p; value = zero_value } ∷ [])) p (some q)
    extend zero_value n h₁ q

  unfoldable pub new_ring : T → Store T → ℤ → Run (Option ℕ × Store T)
  unfolding extend
  new_ring zero_value h (negsuc n) = ok (none, h)
  new_ring zero_value h (pos zero) = ok (none, h)
  new_ring zero_value h (pos (suc n)) = do
    let r = length h
    (h₁, p) ←
        extend zero_value n (h ++ (record { next = none; prev = none; value = zero_value } ∷ [])) r
    h₂ ← set_next h₁ p (some r)
    h₃ ← set_prev h₂ r (some p)
    ok (some r, h₃)

  unfoldable pub link : Store T → ℕ → Option ℕ → Run (Option ℕ × Store T)
  unfolding next prev
  link h r none = next h r
  link h r (some s) = do
    (n, h₁) ← next h r
    (p, h₂) ← prev h₁ s
    h₃ ← set_next h₂ r (some s)
    h₄ ← set_prev h₃ s (some r)
    n' ← follow n
    h₅ ← set_prev h₄ n' p
    p' ← follow p
    h₆ ← set_next h₅ p' n
    ok (n, h₆)

  unfoldable pub unlink : Store T → ℕ → ℤ → Run (Option ℕ × Store T)
  unfolding move link
  unlink h r (negsuc n) = ok (none, h)
  unlink h r (pos zero) = ok (none, h)
  unlink h r (pos (suc n)) = do (s, h₁) ← move h r (pos (suc n + 1)); link h₁ r s

  -- The loop of Len. The fuel counts its rounds.
  unfoldable pub len_loop : ℕ → Store T → ℕ → Option ℕ → ℕ → Run ℕ
  len_loop zero h r p n = out_of_fuel
  len_loop (suc fuel) h r none n = panic
  len_loop (suc fuel) h r (some q) n =
      let step = load h q >>= λ node. len_loop fuel h r node.next (n + 1) in
      if q == r then ok n else step

  unfoldable pub len : ℕ → Store T → Option ℕ → Run (ℕ × Store T)
  unfolding len_loop next
  len fuel h none = ok (0, h)
  len fuel h (some r) = do (p, h₁) ← next h r; n ← len_loop fuel h₁ r p 1; ok (n, h₁)

  -- The loop of Do: the values that the function is called with, in order. The fuel counts its rounds.
  unfoldable pub do_loop : ℕ → Store T → ℕ → Option ℕ → Run (List T)
  do_loop zero h r p = out_of_fuel
  do_loop (suc fuel) h r none = panic
  do_loop (suc fuel) h r (some q) =
      let step = do node ← load h q; rest ← do_loop fuel h r node.next; ok (node.value ∷ rest)
      in if q == r then ok [] else step

  unfoldable pub do_each : ℕ → Store T → Option ℕ → Run (List T × Store T)
  unfolding do_loop next
  do_each fuel h none = ok ([], h)
  do_each fuel h (some r) = do
    node ← load h r
    (p, h₁) ← next h r
    rest ← do_loop fuel h₁ r p
    ok (node.value ∷ rest, h₁)
