-- ===== src/Buffer/Read/Refines.antt =====
-- The reads of a Buffer against the list of unread items.
use gbuf.Base.{
  ℕ, zero, suc, ◌+◌, ◌-◌, ◌≤◌, ◌<◌, ◌≡◌, refl, ap, sym, inl, inr, true, false, Option, none, some,
  List, [], ◌∷◌, arith, ltb, ◌==◌, if◌then◌else◌, length, get_elem?, take, drop, min, slice-ok,
  copy_into-ok, length-take, length-drop, list_ext, Returns, returns, lt-or-le, le→leb, lt→leb,
  le→ltb, lt→ltb, nil_of_length, take-nil, drop-nil,
}
use gbuf.Base.Pointwise.{get_elem?-drop, get_elem?-take, get_elem?-in}
use gbuf.Errors.{Error, eof, buffer_unread_item}
use gbuf.Reader.Refines.{filled, splice-filled}
use gbuf.Buffer.{Buffer}
use gbuf.Buffer.Contents.{IsWithin, contents, length-contents}
use gbuf.Buffer.Read.{read, next, read_item, unread_item}

module _ {T : Type 0} where
  -- Moving the offset drops items.
  pub contents-drop :
      (a : List T) (s o n : ℕ)
      → o + n ≤ s
      → s ≤ length a
      → take (s - (o + n)) (drop (o + n) a) ≡ drop n (take (s - o) (drop o a))
  contents-drop a s o n h k = list_ext _ _ λ i. ground (
    arith,
    get_elem?-take (s - (o + n)) (drop (o + n) a) i,
    get_elem?-drop (o + n) a i,
    get_elem?-drop n (take (s - o) (drop o a)) i,
    get_elem?-take (s - o) (drop o a) (n + i),
    get_elem?-drop o a (n + i),
  )

  -- What Read owes its caller where `q` is unread.
  abbrev pub ReadSpec : List T → List T → ℕ × Option Error × List T × Buffer T → Type 0
  ReadSpec q p (n, err, p', b') =
      (n ≡ min (length p) (length q))
      × (err ≡ (if length q == 0 then (if length p == 0 then none else some eof) else none))
      × (p' ≡ filled p q)
      × IsWithin b'
      × (contents b' ≡ drop n q)
      × (b'.is_reading ≡ ltb 0 n)

  -- Read of a well-formed Buffer copies the oldest unread items into the slice, as many as fit,
  -- returns their number and drops just them. The error is io.EOF where none are unread and the
  -- slice is not empty.
  pub buffer_read_refines :
      (b : Buffer T) (p : List T) → IsWithin b → Returns (ReadSpec (contents b) p) (read b p)
  unfolding read contents
  buffer_read_refines b p (ho, hs, hz) =
      let q = take (b.size - b.off) (drop b.off b.array) in
      let size : length q ≡ b.size - b.off =
        omega
          (arith, length-take (b.size - b.off) (drop b.off b.array), length-drop b.off b.array) in
      elim (lt-or-le b.off b.size) [
        | inl h ↦
            let n = min (length p - 0) (length q) in
            let whole : length p - 0 ≡ length p = omega arith in
            rw
              (
                lt→leb h,
                slice-ok b.array b.off b.size ho hs,
                copy_into-ok p 0 (length p) q (omega arith) (omega arith),
              )
              (returns (
                omega arith,
                ground (arith, size),
                rw whole (splice-filled p q),
                (omega (arith, size), hs, hz),
                contents-drop b.array b.size b.off n (omega (arith, size)) hs,
                refl,
              ))
        | inr h ↦
            let nil : q ≡ [] = nil_of_length q (omega (arith, size)) in
            rw (le→leb h, nil)
              (returns (
                omega arith,
                refl,
                rw (take-nil T (length p)) refl,
                (omega arith, omega arith, hz),
                sym (drop-nil T 0),
                ground arith,
              ))
      ]

  -- Next returns the oldest unread items, as many as asked for or all, and drops just them.
  buffer_next_refines :
      (b : Buffer T) (n : ℕ)
      → IsWithin b
      → Returns
          (λ (items, b').
            (items ≡ take n (contents b)) × IsWithin b' × (contents b' ≡ drop n (contents b)))
          (next b n)
  unfolding next contents
  buffer_next_refines b n (ho, hs, hz) =
      let a = b.array in
      let o = b.off in
      let s = b.size in
      let k : ℕ = if ltb (s - o) n then s - o else n in
      let fits : o + k ≤ s = ground arith in
      let same : take (o + k - o) (drop o a) ≡ take n (take (s - o) (drop o a)) = list_ext _ _ λ i.
        ground (
          arith,
          get_elem?-take (o + k - o) (drop o a) i,
          get_elem?-take n (take (s - o) (drop o a)) i,
          get_elem?-take (s - o) (drop o a) i,
        ) in
      let rest : take (s - (o + k)) (drop (o + k) a) ≡ drop n (take (s - o) (drop o a)) =
        list_ext _ _ λ i. ground (
          arith,
          get_elem?-take (s - (o + k)) (drop (o + k) a) i,
          get_elem?-drop (o + k) a i,
          get_elem?-drop n (take (s - o) (drop o a)) i,
          get_elem?-take (s - o) (drop o a) (n + i),
          get_elem?-drop o a (n + i),
        ) in
      rw (slice-ok a o (o + k) (omega arith) (omega (arith, fits)))
        (returns (same, (fits, hs, hz), rest))

  contents-cons :
      (b : Buffer T) (x : T)
      → b.off < b.size
      → b.size ≤ length b.array
      → get_elem? b.array b.off ≡ some x
      → contents b ≡ x ∷ contents (record b { off = b.off + 1; is_reading = true })
  unfolding contents
  contents-cons b x h k at = list_ext _ _ entries
    where
      entries :
          (i : ℕ)
          → get_elem? (take (b.size - b.off) (drop b.off b.array)) i
            ≡ get_elem? (x ∷ take (b.size - (b.off + 1)) (drop (b.off + 1) b.array)) i
      entries zero = ground (
        arith,
        at,
        get_elem?-take (b.size - b.off) (drop b.off b.array) 0,
        get_elem?-drop b.off b.array 0,
      )
      entries (suc i) = ground (
        arith,
        get_elem?-take (b.size - b.off) (drop b.off b.array) (suc i),
        get_elem?-drop b.off b.array (suc i),
        get_elem?-take (b.size - (b.off + 1)) (drop (b.off + 1) b.array) i,
        get_elem?-drop (b.off + 1) b.array i,
      )

  -- ReadItem where an item is unread returns the oldest with no error and drops it, and UnreadItem
  -- then gives the buffer back as it was, but for the mark of the last operation. Where none is
  -- unread, ReadItem returns the zero value and io.EOF, and UnreadItem then fails.
  pub unread_item-buffer_read_item :
      (z : T) (b : Buffer T)
      → IsWithin b
      → Returns
          (λ (item, err, b').
            if ltb 0 (length (contents b))
            then (contents b ≡ item ∷ contents b')
              × (err ≡ none)
              × IsWithin b'
              × (unread_item b' ≡ (none, record b { is_reading = false }))
            else (item ≡ z)
              × (err ≡ some eof)
              × IsWithin b'
              × (unread_item b' ≡ (some buffer_unread_item, b')))
          (read_item z b)
  unfolding read_item unread_item
  unread_item-buffer_read_item z b v =
      let (ho, hs, hz) = v in
      let size = length-contents b v in
      elim (lt-or-le b.off b.size) [
        | inl h ↦
            let (x, at) = get_elem?-in b.array b.off (omega arith) in
            let back : b.off + 1 - 1 ≡ b.off = omega arith in
            rw (lt→leb h, lt→ltb {a = 0} {b = length (contents b)} (omega (arith, size)), at)
              (returns (
                contents-cons b x h hs at,
                refl,
                (omega arith, hs, hz),
                ap (λ o. (none, record b { off = o; is_reading = false })) back,
              ))
        | inr h ↦
            rw (le→leb h, le→ltb {a = 0} {b = length (contents b)} (omega (arith, size)))
              (returns (refl, refl, (omega arith, omega arith, hz), refl))
      ]
