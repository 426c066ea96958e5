-- ===== src/RingBuffer/Contents.antt =====
-- What a ring buffer holds: its well-formed states, and its unread items as a list.
use gbuf.Base.{
  ℕ, ◌+◌, ◌-◌, ◌<◌, ◌≡◌, Bool, true, none, List, ◌++◌, arith, ltb, leb, if◌then◌else◌, ok, length,
  get_elem?, take, drop, length-append, length-take, length-drop, lt-or-le, inl, inr, inl, inr,
  lt-or-le,
}
use gbuf.Base.Pointwise.{get_elem?-take, get_elem?-drop, get_elem?-append}
use gbuf.Base.Int.{pos, pos_part, rem, rem_ℕ, mod-once}
use native.Mathlib.Nat.{mod-eq_of_lt}
use gbuf.RingBuffer.{RingBuffer}

-- An index that has gone at most once past the end of a buffer of `n` items.
abbrev pub wrap : ℕ → ℕ → ℕ
wrap n i = if ltb i n then i else i - n

-- Go's remainder of an index that has gone at most once past the end.
pub rem_ℕ-wrap : (i n : ℕ) → i < n + n → rem_ℕ i n ≡ ok (wrap n i)
rem_ℕ-wrap i n h = elim (lt-or-le i n) [
  | inl k ↦ ground (arith, mod-eq_of_lt k)
  | inr k ↦ ground (arith, mod-once k h)
]

pub rem-wrap : (i n : ℕ) → i < n + n → rem (pos i) n ≡ ok (pos (wrap n i))
rem-wrap i n h = elim (lt-or-le i n) [
  | inl k ↦ ground (arith, mod-eq_of_lt k)
  | inr k ↦ ground (arith, mod-once k h)
]

-- How many items are unread.
abbrev pub unread_count : Bool → ℕ → ℕ → ℕ → ℕ
unread_count f w k n = if f then n else if leb k w then w - k else n + w - k

module _ {T : Type 0} where
  -- The state with these fields, where the read index is not negative.
  abbrev pub ring : Bool → ℕ → ℕ → List T → RingBuffer T
  ring f w k xs = record { full = f; write = w; read = pos k; items = xs }

  -- Both indices are in range, and a full buffer reads where it writes.
  pub data IsValid : RingBuffer T → Type 0 where
    valid :
        (f : Bool) (w k : ℕ) (xs : List T)
        → w < length xs
        → k < length xs
        → (f ≡ true → k ≡ w)
        → IsValid (ring f w k xs)

  -- The unread items, oldest first: from the read index to the end, and round to the start.
  unfoldable pub contents : RingBuffer T → List T
  contents r =
      let k = pos_part r.read in
      take (unread_count r.full r.write k (length r.items)) (drop k r.items ++ take k r.items)

  -- The last `n` items of a list.
  abbrev pub last_n : ℕ → List T → List T
  last_n n xs = drop (length xs - n) xs

  module _ (f : Bool) (w k : ℕ) (xs : List T) (hw : w < length xs) (hk : k < length xs)
      (at : f ≡ true → k ≡ w) where
    pub length-contents : length (contents (ring f w k xs)) ≡ unread_count f w k (length xs)
    unfolding contents
    length-contents = ground (
      arith,
      length-take (unread_count f w k (length xs)) (drop k xs ++ take k xs),
      length-append (drop k xs) (take k xs),
      length-take k xs,
      length-drop k xs,
    )

    pub get_elem?-contents :
        (i : ℕ)
        → get_elem? (contents (ring f w k xs)) i ≡ (
            if ltb i (unread_count f w k (length xs))
            then get_elem? xs (wrap (length xs) (k + i))
            else none)
    unfolding contents
    get_elem?-contents i = ground (
      arith,
      get_elem?-take (unread_count f w k (length xs)) (drop k xs ++ take k xs) i,
      get_elem?-append (drop k xs) (take k xs) i,
      length-drop k xs,
      get_elem?-drop k xs i,
      get_elem?-take k xs (i - length (drop k xs)),
    )

-- A well-formed state of capacity `n` whose unread items are `q`.
abbrev pub Holds : {T : Type 0} → ℕ → List T → RingBuffer T → Type 0
Holds n q r = IsValid r × (length r.items ≡ n) × (contents r ≡ q)
