-- ===== src/Buffer/Truncate.antt =====
-- buffer.go: Truncate against the list of unread items.
use gbuf.Base.{
  ℕ, zero, suc, ◌+◌, ◌-◌, ◌≤◌, ◌<◌, ◌≡◌, refl, panic, arith, length, take, drop, list_ext, Returns,
  returns, le→ltb, lt→ltb, pos→==,
}
use gbuf.Base.Pointwise.{get_elem?-take}
use gbuf.Base.Int.{pos, negsuc}
use gbuf.Buffer.{Buffer, truncate}
use gbuf.Buffer.Contents.{IsWithin, contents, length-contents}

module _ {T : Type 0} where
  -- Truncate of a well-formed Buffer by at most the number of unread items keeps the oldest ones,
  -- as many as asked for.
  pub truncate-contents :
      (b : Buffer T) (n : ℕ)
      → IsWithin b
      → n ≤ length (contents b)
      → Returns (λ b'. IsWithin b' × (contents b' ≡ take n (contents b))) (truncate b (pos n))
  unfolding truncate contents
  truncate-contents b zero (ho, hs, hz) h = returns ((omega arith, omega arith, hz), refl)
  truncate-contents b (suc n) (ho, hs, hz) h =
      let a = b.array in
      let o = b.off in
      let s = b.size in
      let size = length-contents b (ho, hs, hz) in
      let kept : take (o + suc n - o) (drop o a) ≡ take (suc n) (take (s - o) (drop o a)) =
        list_ext _ _ λ i. ground (
          arith,
          size,
          get_elem?-take (o + suc n - o) (drop o a) i,
          get_elem?-take (suc n) (take (s - o) (drop o a)) i,
          get_elem?-take (s - o) (drop o a) i,
        ) in
      rw (pos→== {a = suc n} (omega arith), le→ltb {a = s - o} {b = suc n} (omega (arith, size)))
        (returns ((omega arith, omega (arith, size), hz), kept))

  -- A Truncate by more than the unread items, or by a negative number, panics.
  truncate_out_of_range :
      (b : Buffer T) (n : ℕ)
      → IsWithin b
      → length (contents b) < n
      → (truncate b (pos n) ≡ panic) × (truncate b (negsuc n) ≡ panic)
  unfolding truncate
  truncate_out_of_range b n v h =
      let size = length-contents b v in
      (
        rw (pos→== {a = n} (omega arith), lt→ltb {a = b.size - b.off} {b = n} (omega (arith, size)))
            refl,
        refl,
      )
