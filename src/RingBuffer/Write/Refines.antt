-- ===== src/RingBuffer/Write/Refines.antt =====
-- Write and WriteItem against the list of unread items.
use gbuf.Base.{
  ℕ, ◌+◌, ◌-◌, ◌≤◌, ◌<◌, ◌≡◌, refl, Bool, true, none, List, ◌++◌, arith, ltb, leb, if◌then◌else◌,
  ok, length, get_elem?, take, drop, splice, min, lt-or-le, inl, inr, slice-ok, Returns,
  Returns-of_eq, lt→ltb, le→ltb, copy_into-ok, length-take, length-drop,
}
use gbuf.Base.Pointwise.{get_elem?-take, get_elem?-drop, get_elem?-splice, length-splice}
use gbuf.Base.Int.{rem_ℕ}
use gbuf.RingBuffer.{RingBuffer}
use gbuf.RingBuffer.Contents.{
  rem_ℕ-wrap, ring, wrap, unread_count, IsValid, valid, contents, last_n, Holds,
}
use gbuf.RingBuffer.Stored.{stored, contents-stored}
use gbuf.RingBuffer.Write.{write_within_bounds, write_wrapped, write_within_capacity, write}

module _ {T : Type 0} (f : Bool) (w k : ℕ) (xs p : List T) (hw : w < length xs) (hk : k < length xs)
    (at : f ≡ true → k ≡ w) (small : length p < length xs) where
  abbrev end : ℕ
  end = w + length p

  abbrev over : Bool
  over = leb (length xs) (unread_count f w k (length xs) + length p)

  abbrev w' : ℕ
  w' = wrap (length xs) end

  abbrev k' : ℕ
  k' = if over then w' else k

  -- The items after a Write that does not wrap, and after one that does.
  abbrev straight : List T
  straight = splice xs w (take (end - w) p)

  abbrev around : List T
  around =
      let items = splice xs w (take (length xs - w) p) in
      splice items 0
        (take (end - length xs) (take (length p - (length xs - w)) (drop (length xs - w) p)))

  write_within_bounds-ok :
      end < length xs
      → write_within_bounds (ring f w k xs) p end ≡ ok (length p, none, ring over w' k' straight)
  unfolding write_within_bounds
  write_within_bounds-ok h = rw (copy_into-ok xs w end p (omega arith) (omega arith)) (ground arith)

  straight_entries : end < length xs → (j : ℕ) → get_elem? straight j ≡ stored (length xs) w xs p j
  straight_entries h j = ground (
    arith,
    get_elem?-splice xs w (take (end - w) p) j,
    length-take (end - w) p,
    get_elem?-take (end - w) p (j - w),
  )

  end_wrapped : length xs ≤ end → rem_ℕ end (length xs) ≡ ok w'
  end_wrapped h = rem_ℕ-wrap end (length xs) (omega arith)

  write_wrapped-ok :
      length xs ≤ end
      → write_wrapped (ring f w k xs) p end ≡ ok (length p, none, ring over w' k' around)
  unfolding write_wrapped
  write_wrapped-ok h =
      let first : min (length xs - w) (length p) ≡ length xs - w = omega arith in
      let items = splice xs w (take (length xs - w) p) in
      let rest = take (length p - (length xs - w)) (drop (length xs - w) p) in
      rw
        (
          copy_into-ok xs w (length xs) p (omega arith) (omega arith),
          end_wrapped h,
          first,
          slice-ok p (length xs - w) (length p) (omega arith) (omega arith),
          copy_into-ok items 0 w' rest (omega arith)
              (ground (arith, length-splice xs w (take (length xs - w) p))),
        )
        (ground (
          arith,
          length-take (length p - (length xs - w)) (drop (length xs - w) p),
          length-drop (length xs - w) p,
        ))

  around_entries :
      length xs ≤ end → (j : ℕ) → j < length xs → get_elem? around j ≡ stored (length xs) w xs p j
  around_entries h j hj =
      let items = splice xs w (take (length xs - w) p) in
      let rest = take (length p - (length xs - w)) (drop (length xs - w) p) in
      ground (
        arith,
        get_elem?-splice items 0 (take (end - length xs) rest) j,
        length-splice xs w (take (length xs - w) p),
        get_elem?-splice xs w (take (length xs - w) p) j,
        length-take (length xs - w) p,
        length-take (end - length xs) rest,
        length-take (length p - (length xs - w)) (drop (length xs - w) p),
        length-drop (length xs - w) p,
        get_elem?-take (end - length xs) rest j,
        get_elem?-take (length p - (length xs - w)) (drop (length xs - w) p) j,
        get_elem?-drop (length xs - w) p j,
        get_elem?-take (length xs - w) p (j - w),
      )

  -- The state after the Write.
  abbrev items' : List T
  items' = if ltb end (length xs) then straight else around

  write-ring : write (ring f w k xs) p ≡ ok (length p, none, ring over w' k' items')
  unfolding write write_within_capacity
  write-ring = rw (lt→ltb small) (elim (lt-or-le end (length xs)) [
    | inl h ↦ ground (arith, write_within_bounds-ok h)
    | inr h ↦ ground (arith, write_wrapped-ok h)
  ])

  items'-length : length items' ≡ length xs
  items'-length = ground (
    arith,
    length-splice xs w (take (end - w) p),
    length-splice xs w (take (length xs - w) p),
    length-splice (splice xs w (take (length xs - w) p)) 0
        (take (end - length xs) (take (length p - (length xs - w)) (drop (length xs - w) p))),
  )

  items'-stored : (j : ℕ) → j < length xs → get_elem? items' j ≡ stored (length xs) w xs p j
  items'-stored j hj = elim (lt-or-le end (length xs)) [
    | inl h ↦ rw (lt→ltb h) (straight_entries h j)
    | inr h ↦ rw (le→ltb h) (around_entries h j hj)
  ]

  ring-Holds :
      Holds
        (length xs)
        (last_n (length xs) (contents (ring f w k xs) ++ p))
        (ring over w' k' items')
  ring-Holds = (
    valid over w' k' items' (rw items'-length (ground arith)) (rw items'-length (ground arith))
        (ground arith),
    items'-length,
    contents-stored f w k xs p items' hw hk at (omega arith) items'-length over w' k' refl refl refl
        items'-stored,
  )

-- A Write of fewer items than the capacity does not panic, reports all of them, and leaves the last
-- items of what was unread followed by what was written, as many as the capacity allows.
pub write_refines :
    {T : Type 0} {r : RingBuffer T} (p : List T)
    → IsValid r
    → length p < length r.items
    → Returns
        (λ (n, err, r').
          (n ≡ length p)
          × (err ≡ none)
          × Holds (length r.items) (last_n (length r.items) (contents r ++ p)) r')
        (write r p)
write_refines p (valid f w k xs hw hk at) small =
    Returns-of_eq (write-ring f w k xs p hw hk at small)
      (refl, refl, ring-Holds f w k xs p hw hk at small)
