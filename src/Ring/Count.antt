-- ===== src/Ring/Count.antt =====
-- Len, Do and Move of a ring.
use gbuf.Base.{
  ℕ, zero, suc, ◌+◌, ◌<◌, ◌≡◌, ◌≢◌, refl, ap, ◌∙◌, some, List, [], ◌∷◌, arith, ◌==◌, true, false,
  ok, ◌>>=◌, length, get_elem?,
}
use gbuf.Base.Int.{pos}
use gbuf.Ring.{Node, Store, load, next, forward, move_by, move, len_loop, len, do_loop, do_each}
use gbuf.Ring.Walk.{Walk, arrived, walked, Apart, apart_none, apart_more, IsRing}

pub same-== : (q : ℕ) → (q == q) ≡ true
same-== q = ground arith

pub other-== : (p q : ℕ) → p ≢ q → (p == q) ≡ false
other-== p q h = ground arith

module _ {T : Type 0} (h : Store T) where
  pub loaded : (p : ℕ) (node : Node T) → get_elem? h p ≡ some node → load h p ≡ ok node
  loaded p node there = rw (load, there) refl

  len_round :
      (q r : ℕ) (node : Node T) (fuel n : ℕ)
      → get_elem? h q ≡ some node
      → q ≢ r
      → len_loop (suc fuel) h r (some q) n ≡ len_loop fuel h r node.next (n + 1)
  unfolding len_loop
  len_round q r node fuel n there other = rw (other-== q r other, loaded q node there) refl

  do_round :
      (q r : ℕ) (node : Node T) (fuel : ℕ)
      → get_elem? h q ≡ some node
      → q ≢ r
      → do_loop (suc fuel) h r (some q)
        ≡ (do_loop fuel h r node.next >>= λ rest. ok (node.value ∷ rest))
  unfolding do_loop
  do_round q r node fuel there other = rw (other-== q r other, loaded q node there) refl

  len_stop : (r fuel n : ℕ) → len_loop (suc fuel) h r (some r) n ≡ ok n
  unfolding len_loop
  len_stop r fuel n = rw (same-== r) refl

  do_stop : (r fuel : ℕ) → do_loop (suc fuel) h r (some r) ≡ ok []
  unfolding do_loop
  do_stop r fuel = rw (same-== r) refl

  len_loop_lem :
      (fuel : ℕ) {q r : ℕ} {ps : List ℕ} {vs : List T} (n : ℕ)
      → Walk h q ps vs r
      → Apart r ps
      → length ps < fuel
      → len_loop fuel h r (some q) n ≡ ok (n + length ps)
  len_loop_lem zero n w a enough = absurd (omega arith)
  len_loop_lem (suc fuel) {r = r} n arrived apart_none enough =
      len_stop r fuel n ∙ ap ok (omega arith)
  len_loop_lem (suc fuel) {q} {r} n (walked node there goes walk) (apart_more other apart) enough =
      len_round q r node fuel n there other
      ∙ ap (λ p'. len_loop fuel h r p' (n + 1)) goes
      ∙ len_loop_lem fuel (n + 1) walk apart (omega arith)
      ∙ ap ok (omega arith)

  do_loop_lem :
      (fuel : ℕ) {q r : ℕ} {ps : List ℕ} {vs : List T}
      → Walk h q ps vs r
      → Apart r ps
      → length ps < fuel
      → do_loop fuel h r (some q) ≡ ok vs
  do_loop_lem zero w a enough = absurd (omega arith)
  do_loop_lem (suc fuel) {r = r} arrived apart_none enough = do_stop r fuel
  do_loop_lem (suc fuel) {q} {r} (walked node there goes walk) (apart_more other apart) enough =
      do_round q r node fuel there other
      ∙ ap (λ p'. do_loop fuel h r p' >>= λ rest. ok (node.value ∷ rest)) goes
      ∙ ap (λ call. call >>= λ rest. ok (node.value ∷ rest))
          (do_loop_lem fuel walk apart (omega arith))

  forward_lem :
      {q r : ℕ} {ps : List ℕ} {vs : List T}
      → Walk h q ps vs r
      → forward (length ps) h (some q) ≡ ok (some r)
  unfolding forward
  forward_lem arrived = refl
  forward_lem {q} (walked node there goes walk) = rw (loaded q node there, goes) (forward_lem walk)

  pub next_call :
      (r q : ℕ) (node : Node T)
      → get_elem? h r ≡ some node
      → node.next ≡ some q
      → next h r ≡ ok (some q, h)
  unfolding next
  next_call r q node there goes = rw (loaded r node there, goes) refl

  move_by_lem :
      {r : ℕ} {ps : List ℕ} {v : T} {vs : List T}
      → IsRing h r ps v vs
      → move_by h r (pos (suc (length ps))) ≡ ok (some r)
  unfolding move_by forward
  move_by_lem {r} ring = rw (loaded r ring.node ring.there, ring.starts) (forward_lem ring.walk)

  -- Of a ring of an element and others, with the values `v` and `vs`: Len is the number of its
  -- elements, Do calls its function with the values in order, and Move by the length comes back.
  -- A round of the loop more than there are others is enough.
  pub ring_lem :
      {r : ℕ} {ps : List ℕ} {v : T} {vs : List T} (fuel : ℕ)
      → IsRing h r ps v vs
      → length ps < fuel
      → (len fuel h (some r) ≡ ok (suc (length ps), h))
        × (do_each fuel h (some r) ≡ ok (v ∷ vs, h))
        × (move h r (pos (suc (length ps))) ≡ ok (some r, h))
  unfolding len do_each move
  ring_lem {r} {ps} {v} {vs} fuel ring enough =
      let called = next_call r ring.second ring.node ring.there ring.starts in
      let there = loaded r ring.node ring.there in
      (
        rw (called, len_loop_lem fuel 1 ring.walk ring.apart enough)
            (ap (λ n. ok (n, h)) (omega arith)),
        rw (called, there, do_loop_lem fuel ring.walk ring.apart enough, ring.holds) refl,
        rw (there, ring.starts, move_by_lem ring) refl,
      )
