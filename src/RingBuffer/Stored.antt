-- ===== src/RingBuffer/Stored.antt =====
-- Storing items from the write index on, round the end of the buffer: what is unread afterwards is
-- the end of what was unread before, followed by the new items.
use gbuf.Base.{
  ℕ, ◌+◌, ◌-◌, ◌≤◌, ◌<◌, ◌≡◌, Bool, true, Option, none, List, ◌++◌, arith, ltb, leb, if◌then◌else◌,
  length, get_elem?, min, length-append, length-drop, list_ext, ◌&&◌, ◌⊎◌, inl, inr, lt-or-le,
  lt→ltb, le→ltb,
}
use gbuf.Base.Pointwise.{get_elem?-out, get_elem?-drop, get_elem?-append}
use gbuf.RingBuffer.Contents.{
  wrap, unread_count, ring, contents, last_n, length-contents, get_elem?-contents,
}

-- Entry `j` of a ring of `n` items, after the items `p` were stored from index `w` on, round.
abbrev pub stored : {T : Type 0} → ℕ → ℕ → List T → List T → ℕ → Option T
stored n w xs p j =
    if leb w j && ltb j (w + length p)
    then get_elem? p (j - w)
    else if ltb (j + n) (w + length p)
    then get_elem? p (j + n - w)
    else get_elem? xs j

-- The indices before and after `m` items were stored.
module _ (f : Bool) (w k n m : ℕ) (hw : w < n) (hk : k < n) (at : f ≡ true → k ≡ w) (fits : m ≤ n)
    (over : Bool) (w' k' : ℕ) (over_lem : over ≡ leb n (unread_count f w k n + m))
    (moved : w' ≡ wrap n (w + m)) (follows : k' ≡ (if over then w' else k)) where
  stored_bounds : (w' < n) × (k' < n) × (over ≡ true → k' ≡ w')
  stored_bounds = ground arith

  stored_count : unread_count over w' k' n ≡ min n (unread_count f w k n + m)
  stored_count = ground arith

  module _ (i : ℕ) (h : i < min n (unread_count f w k n + m)) where
    -- Where the entry at `i` stood among the old unread items and the new ones.
    abbrev from : ℕ
    from = unread_count f w k n + m - n + i

    abbrev place : ℕ
    place = wrap n (k' + i)

    stored_old :
        from < unread_count f w k n
        → (place ≡ wrap n (k + from)) × ((place < w) ⊎ (w + m ≤ place)) × (w + m ≤ place + n)
    stored_old old = ground arith

    stored_new :
        unread_count f w k n ≤ from
        → ((w ≤ place) × (place < w + m) × (place - w ≡ from - unread_count f w k n))
          ⊎ ((place < w) × (place + n < w + m) × (place + n - w ≡ from - unread_count f w k n))
    stored_new new = ground arith

module _ {T : Type 0} (f : Bool) (w k : ℕ) (xs p ys : List T) (hw : w < length xs)
    (hk : k < length xs) (at : f ≡ true → k ≡ w) (fits : length p ≤ length xs)
    (same : length ys ≡ length xs) (over : Bool) (w' k' : ℕ)
    (over_lem : over ≡ leb (length xs) (unread_count f w k (length xs) + length p))
    (moved : w' ≡ wrap (length xs) (w + length p)) (follows : k' ≡ (if over then w' else k))
    (entries : (j : ℕ) → j < length xs → get_elem? ys j ≡ stored (length xs) w xs p j) where
  abbrev n : ℕ
  n = length xs

  abbrev unread : ℕ
  unread = unread_count f w k n

  abbrev old : List T
  old = contents (ring f w k xs)

  facts : (w' < n) × (k' < n) × (over ≡ true → k' ≡ w')
  facts = stored_bounds f w k n (length p) hw hk at fits over w' k' over_lem moved follows

  count : unread_count over w' k' n ≡ min n (unread + length p)
  count = stored_count f w k n (length p) hw hk at fits over w' k' over_lem moved follows

  -- The new entry at `i`, and the entry of the specification.
  new_entry :
      (i : ℕ)
      → get_elem? (contents (ring over w' k' ys)) i
        ≡ (if ltb i (min n (unread + length p)) then get_elem? ys (wrap n (k' + i)) else none)
  new_entry i =
      rw (same, count) at
        (get_elem?-contents over w' k' ys (rw same facts.0) (rw same facts.1) facts.2 i)

  last_entry :
      (i : ℕ)
      → get_elem? (last_n n (old ++ p)) i ≡ (
          let d = unread + length p - n in
          if ltb (d + i) unread
          then get_elem? xs (wrap n (k + (d + i)))
          else get_elem? p (d + i - unread))
  last_entry i =
      rw
        (
          get_elem?-drop (length (old ++ p) - n) (old ++ p) i,
          length-append old p,
          length-contents f w k xs hw hk at,
          get_elem?-append old p (unread + length p - n + i),
          length-contents f w k xs hw hk at,
        )
        (ground (arith, get_elem?-contents f w k xs hw hk at (unread + length p - n + i)))

  -- A stored entry that is unread afterwards is the entry of the specification.
  stored_entry :
      (i : ℕ)
      → i < min n (unread + length p)
      → get_elem? ys (wrap n (k' + i)) ≡ get_elem? (last_n n (old ++ p)) i
  stored_entry i h = elim (lt-or-le (unread + length p - n + i) unread) [
    | inl older ↦ ground (
      arith,
      entries (wrap n (k' + i)),
      last_entry i,
      facts,
      stored_old f w k n (length p) hw hk at fits over w' k' over_lem moved follows i h older,
    )
    | inr newer ↦ ground (
      arith,
      entries (wrap n (k' + i)),
      last_entry i,
      facts,
      stored_new f w k n (length p) hw hk at fits over w' k' over_lem moved follows i h newer,
    )
  ]

  past_end : (i : ℕ) → min n (unread + length p) ≤ i → none ≡ get_elem? (last_n n (old ++ p)) i
  past_end i h = ground (
    arith,
    get_elem?-out (last_n n (old ++ p)) i,
    length-drop (length (old ++ p) - n) (old ++ p),
    length-append old p,
    length-contents f w k xs hw hk at,
  )

  pub contents-stored :
      contents (ring over w' k' ys) ≡ last_n (length xs) (contents (ring f w k xs) ++ p)
  contents-stored = list_ext _ _ λ i. elim (lt-or-le i (min n (unread + length p))) [
    | inl h ↦ rw (new_entry i, lt→ltb h) (stored_entry i h)
    | inr h ↦ rw (new_entry i, le→ltb h) (past_end i h)
  ]
