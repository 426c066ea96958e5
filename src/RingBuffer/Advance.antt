-- ===== src/RingBuffer/Advance.antt =====
-- How many items are unread, and what moving the read index does to them.
use gbuf.Base.{
  ℕ, ◌+◌, ◌-◌, ◌≤◌, ◌<◌, ◌≡◌, Bool, true, false, List, arith, ok, length, drop, lt-or-le, inl, inr,
  list_ext,
}
use gbuf.Base.Pointwise.{get_elem?-drop}
use gbuf.Base.Int.{pos}
use gbuf.RingBuffer.{len}
use gbuf.RingBuffer.Contents.{rem-wrap, ring, wrap, unread_count, contents, get_elem?-contents}

module _ {T : Type 0} (f : Bool) (w k : ℕ) (xs : List T) (hw : w < length xs) (hk : k < length xs)
    (at : f ≡ true → k ≡ w) where
  abbrev n : ℕ
  n = length xs

  abbrev unread : ℕ
  unread = unread_count f w k n

  pub len-ring : len (ring f w k xs) ≡ ok (pos unread)
  unfolding len
  len-ring = elim (lt-or-le w k) [
    | inl h ↦ ground (arith, rem-wrap (n - (k - w - 1 + 1)) n)
    | inr h ↦ ground (arith, rem-wrap (n + (w - k)) n)
  ]

  -- Moving the read index over `m` unread items drops them.
  pub contents-advance :
      (m : ℕ)
      → 0 < m
      → m ≤ unread
      → contents (ring false w (wrap n (k + m)) xs) ≡ drop m (contents (ring f w k xs))
  contents-advance m h le = list_ext _ _ λ i. ground (
    arith,
    get_elem?-contents false w (wrap n (k + m)) xs hw (ground arith) (ground arith) i,
    get_elem?-drop m (contents (ring f w k xs)) i,
    get_elem?-contents f w k xs hw hk at (m + i),
  )
