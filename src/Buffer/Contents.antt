-- ===== src/Buffer/Contents.antt =====
-- What a Buffer holds: its well-formed states, and its unread items as a list.
use gbuf.Base.{◌-◌, ◌≤◌, ◌≡◌, true, List, arith, length, take, drop, length-take, length-drop}
use gbuf.Buffer.{Buffer}

module _ {T : Type 0} where
  -- The offset is within the slice, the slice within its array, and a nil slice has none.
  abbrev pub IsWithin : Buffer T → Type 0
  IsWithin b = (b.off ≤ b.size) × (b.size ≤ length b.array) × (b.is_nil ≡ true → length b.array ≡ 0)

  -- The unread items.
  unfoldable pub contents : Buffer T → List T
  contents b = take (b.size - b.off) (drop b.off b.array)

  pub length-contents : (b : Buffer T) → IsWithin b → length (contents b) ≡ b.size - b.off
  unfolding contents
  length-contents b (h, k, _) =
      omega
        (arith, h, k, length-take (b.size - b.off) (drop b.off b.array), length-drop b.off b.array)
