-- ===== src/RingBuffer/Read/Copies.antt =====
-- What each branch of Read returns, from a well-formed state with unread items.
use gbuf.Base.{
  ℕ, ◌+◌, ◌-◌, ◌≤◌, ◌<◌, ◌≡◌, refl, Bool, true, false, none, List, ◌++◌, arith, ltb, if◌then◌else◌,
  ok, length, get_elem?, take, drop, splice, min, lt-or-le, lt→leb, le→leb, inl, inr, slice-ok,
  copy_into-ok, length-take, length-drop, list_ext, drop-min, ◌∙◌,
}
use gbuf.Base.Pointwise.{
  get_elem?-out, get_elem?-take, get_elem?-drop, get_elem?-append, get_elem?-splice, length-splice,
}
use gbuf.RingBuffer.{RingBuffer}
use gbuf.RingBuffer.Contents.{
  rem-wrap, ring, wrap, unread_count, valid, contents, Holds, length-contents, get_elem?-contents,
}
use gbuf.RingBuffer.Advance.{len-ring, contents-advance}
use gbuf.RingBuffer.Read.{read_around, read_straight, read}

module _ {T : Type 0} (f : Bool) (w k : ℕ) (xs : List T) (hw : w < length xs) (hk : k < length xs)
    (at : f ≡ true → k ≡ w) (p : List T) (asked : 0 < length p)
    (some_unread : 0 < unread_count f w k (length xs)) where
  abbrev n : ℕ
  n = length xs

  abbrev unread : ℕ
  unread = unread_count f w k n

  abbrev old : List T
  old = contents (ring f w k xs)

  abbrev m : ℕ
  m = min (length p) unread

  -- The slice that the caller gave, with the oldest unread items copied in.
  abbrev filled : List T
  filled = take (length p) old ++ drop (length old) p

  abbrev after : RingBuffer T
  after = ring false w (wrap n (k + m)) xs

  -- One copy, from an unread part of the buffer that has no wrap in it.
  part_entries :
      (c : ℕ) (i : ℕ)
      → c ≤ unread
      → k + c ≤ n
      → get_elem? (splice p 0 (take (length p - 0) (take c (drop k xs)))) i
        ≡ (if ltb i (min (length p) c) then get_elem? old i else get_elem? p i)
  part_entries c i h le = ground (
    arith,
    get_elem?-splice p 0 (take (length p - 0) (take c (drop k xs))) i,
    length-take (length p - 0) (take c (drop k xs)),
    length-take c (drop k xs),
    length-drop k xs,
    get_elem?-take (length p - 0) (take c (drop k xs)) (i - 0),
    get_elem?-take c (drop k xs) (i - 0),
    get_elem?-drop k xs (i - 0),
    get_elem?-contents f w k xs hw hk at i,
  )

  filled_entries :
      (i : ℕ) → get_elem? filled i ≡ (if ltb i m then get_elem? old i else get_elem? p i)
  filled_entries i = ground (
    arith,
    get_elem?-append (take (length p) old) (drop (length old) p) i,
    length-take (length p) old,
    length-contents f w k xs hw hk at,
    get_elem?-take (length p) old i,
    get_elem?-drop (length old) p (i - length (take (length p) old)),
    get_elem?-out p (length old + (i - length (take (length p) old))),
    get_elem?-out p i,
    get_elem?-out old i,
  )

  -- The default case: the unread part has no wrap.
  straight-ring : k < w → f ≡ false → read_straight (ring f w k xs) p ≡ ok (m, none, filled, after)
  unfolding read_straight
  straight-ring h e =
      let part = take (w - k) (drop k xs) in
      let same : splice p 0 (take (length p - 0) part) ≡ filled =
        list_ext _ _ λ i. ground (arith, part_entries (w - k) i, filled_entries i) in
      rw
        (
          slice-ok xs k w (omega arith) (omega arith),
          copy_into-ok p 0 (length p) part (omega arith) (omega arith),
          same,
        )
        (ground (arith, length-take (w - k) (drop k xs), length-drop k xs))

  -- The two copies of the other case.
  abbrev upper : List T
  upper = take (n - k) (drop k xs)

  abbrev once : List T
  once = splice p 0 (take (length p - 0) upper)

  abbrev twice : List T
  twice = splice once (n - k) (take (length once - (n - k)) (take (w - 0) xs))

  twice-filled : w ≤ k → n - k < length p → twice ≡ filled
  twice-filled h more = list_ext _ _ λ i. ground (
    arith,
    filled_entries i,
    part_entries (n - k) i,
    length-splice p 0 (take (length p - 0) upper),
    get_elem?-splice once (n - k) (take (length once - (n - k)) (take (w - 0) xs)) i,
    length-take (length once - (n - k)) (take (w - 0) xs),
    length-take (w - 0) xs,
    get_elem?-take (length once - (n - k)) (take (w - 0) xs) (i - (n - k)),
    get_elem?-take (w - 0) xs (i - (n - k)),
    get_elem?-contents f w k xs hw hk at i,
  )

  once-filled : w ≤ k → length p ≤ n - k → once ≡ filled
  once-filled h less = list_ext _ _ λ i. ground (arith, part_entries (n - k) i, filled_entries i)

  length-upper : length upper ≡ n - k
  length-upper = omega (arith, length-take (n - k) (drop k xs), length-drop k xs)

  around-ring : w ≤ k → read_around (ring f w k xs) p ≡ ok (m, none, filled, after)
  unfolding read_around
  around-ring h =
      rw
        (
          slice-ok xs k n (omega arith) (omega arith),
          copy_into-ok p 0 (length p) upper (omega arith) (omega arith),
          length-upper,
        )
        (elim (lt-or-le (n - k) (length p)) [
          | inl more ↦
              let size : length once ≡ length p = length-splice p 0 (take (length p - 0) upper) in
              let first : min (length p - 0) (n - k) ≡ n - k = omega arith in
              let second : length (take (w - 0) xs) ≡ w = omega (arith, length-take (w - 0) xs) in
              rw
                (
                  first,
                  lt→leb more,
                  slice-ok xs 0 w (omega arith) (omega arith),
                  copy_into-ok once (n - k) (length once) (take (w - 0) xs) (omega arith)
                      (omega arith),
                  second,
                  rem-wrap (k + (n - k + min (length once - (n - k)) w)) n (omega arith),
                  twice-filled h more,
                )
                (ground arith)
          | inr less ↦
              let first : min (length p - 0) (n - k) ≡ m = ground arith in
              rw (
                first,
                le→leb {a = length p} {b = m} (ground arith),
                rem-wrap (k + m) n (omega arith),
                once-filled h less,
              )
        ])

  pub read-ring : read (ring f w k xs) p ≡ ok (m, none, filled, after)
  unfolding read
  read-ring = rw (len-ring f w k xs hw hk at) (elim (lt-or-le k w) [
    | inl h ↦ ground (arith, straight-ring h)
    | inr h ↦ ground (arith, around-ring h)
  ])

  pub after-Holds : Holds n (drop (length p) old) after
  after-Holds = (
    valid false w (wrap n (k + m)) xs hw (ground arith) (ground arith),
    refl,
    contents-advance f w k xs hw hk at m (ground arith) (omega arith) ∙ shorter,
  )
    where
      shorter : drop m old ≡ drop (length p) old
      shorter = rw (length-contents f w k xs hw hk at) at (drop-min (length p) old)
