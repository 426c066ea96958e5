-- ===== src/Reader/Refines.antt =====
-- Reader against the items that are left to read.
use gbuf.Base.{
  ℕ, ◌+◌, ◌-◌, ◌≤◌, ◌<◌, ◌≡◌, refl, sym, inl, inr, Option, none, some, List, [], ◌∷◌, ◌++◌, arith,
  ltb, leb, ok, if◌then◌else◌, length, get_elem?, take, drop, min, splice, slice-ok, copy_into-ok,
  length-take, length-drop, Returns, returns, lt-or-le, le→leb, lt→leb, le→ltb, lt→ltb, ◌^◌,
  take_all, drop_all, take-nil, drop-nil, ap,
}
use mathlib.Core.List.{append-nil}
use gbuf.Base.Pointwise.{get_elem?-in}
use gbuf.Base.Int.{ℤ, pos, negsuc, pos_part, ◌+ℤ◌}
use gbuf.Errors.{Error, eof, short_write, reader_negative_position, reader_negative_offset}
use gbuf.Streams.{Sink}
use gbuf.Reader.{
  Reader, read, read_at, read_item, unread_item, seek, write_to, seek_start, seek_current, seek_end,
}

module _ {T : Type 0} where
  -- The reader over `xs` at index `k`.
  abbrev pub reader : List T → ℕ → ℤ → Reader T
  reader xs k v = record { s = xs; i = pos k; prev_rune = v }

  -- The first items of a slice overwritten by as many of a list as fit.
  abbrev pub filled : List T → List T → List T
  filled b rest = take (length b) rest ++ drop (length rest) b

  pub splice-filled : (b rest : List T) → splice b 0 (take (length b) rest) ≡ filled b rest
  splice-filled [] rest = sym (drop-nil T (length rest))
  splice-filled (x ∷ b) [] = refl
  splice-filled (x ∷ b) (y ∷ rest) = ap (λ p. y ∷ p) (splice-filled b rest)

  filled_lem :
      (xs b : List T) (k : ℕ)
      → splice b 0 (take (length b - 0) (take (length xs - k) (drop k xs))) ≡ filled b (drop k xs)
  filled_lem xs b k =
      let all : take (length xs - k) (drop k xs) ≡ drop k xs =
        take_all (length xs - k) (drop k xs) (omega (arith, length-drop k xs)) in
      let whole : length b - 0 ≡ length b = omega arith in
      rw (all, whole) (splice-filled b (drop k xs))

  -- What Read owes its caller where `rest` is left.
  abbrev pub ReadSpec : List T → List T → ℕ → List T → ℕ × Option Error × List T × Reader T → Type 0
  ReadSpec rest xs k b (n, err, b', r') =
      (n ≡ min (length b) (length rest))
      × (err ≡ (if leb (length rest) 0 then some eof else none))
      × (b' ≡ filled b rest)
      × (r'.s ≡ xs)
      × (r'.i ≡ pos (k + n))

  -- Read of a reader at any index copies the items that are left into the slice, as many as fit,
  -- moves the index by their number and returns it. The error is io.EOF just where none are left.
  pub reader_read_lem :
      (xs b : List T) (k : ℕ) (v : ℤ)
      → Returns (ReadSpec (drop k xs) xs k b) (read (reader xs k v) b)
  unfolding read
  reader_read_lem xs b k v = elim (lt-or-le k (length xs)) [
    | inl h ↦
        let p = take (length xs - k) (drop k xs) in
        let size = length-take (length xs - k) (drop k xs) in
        rw
          (
            lt→leb h,
            slice-ok xs k (length xs) (omega arith) (omega arith),
            copy_into-ok b 0 (length b) p (omega arith) (omega arith),
          )
          (returns (
            omega (arith, size, length-drop k xs),
            ground (arith, length-drop k xs),
            filled_lem xs b k,
            refl,
            refl,
          ))
    | inr h ↦
        let none_left = drop_all k xs h in
        rw (le→leb h, none_left)
          (returns (omega arith, refl, rw (take-nil T (length b)) refl, refl, ground arith))
  ]

  -- What ReadAt owes its caller, at an offset that is not negative.
  abbrev pub ReadAtSpec : List T → List T → ℕ × Option Error × List T → Type 0
  ReadAtSpec rest b (n, err, b') =
      (n ≡ min (length b) (length rest))
      × (err
          ≡ (if leb (length rest) 0 then some eof else if ltb n (length b) then some eof else none))
      × (b' ≡ filled b rest)

  -- ReadAt, wherever the reader stands, copies the items from the offset on into the slice, as many
  -- as fit. The error is io.EOF where there are none or fewer than the slice takes; a negative
  -- offset is an error of its own, and leaves the slice.
  pub read_at_lem :
      (r : Reader T) (b : List T) (off : ℕ)
      → Returns (ReadAtSpec (drop off r.s) b) (read_at r b (pos off))
        × (read_at r b (negsuc off) ≡ ok (0, some reader_negative_offset, b))
  unfolding read_at
  read_at_lem r b off = elim (lt-or-le off (length r.s)) [
    | inl h ↦
        let p = take (length r.s - off) (drop off r.s) in
        let size = length-take (length r.s - off) (drop off r.s) in
        let size' = length-drop off r.s in
        let count : min (length b - 0) (length p) ≡ min (length b) (length (drop off r.s)) =
          omega (arith, size, size') in
        rw
          (
            le→ltb {a = off} {b = 0} (omega arith),
            lt→leb h,
            slice-ok r.s off (length r.s) (omega arith) (omega arith),
            copy_into-ok b 0 (length b) p (omega arith) (omega arith),
          )
          (returns (count, ground (arith, size'), filled_lem r.s b off), refl)
    | inr h ↦
        let none_left = drop_all off r.s h in
        rw (le→ltb {a = off} {b = 0} (omega arith), le→leb h, none_left)
          (returns (omega arith, refl, rw (take-nil T (length b)) refl), refl)
  ]

  -- ReadItem where an item is left returns it with no error and moves on; UnreadItem then gives back
  -- the reader before it, but for prev_rune. Where none is left, ReadItem returns the zero value and
  -- io.EOF, and stays.
  pub unread_item_after_read :
      (z : T) (xs : List T) (k : ℕ) (v : ℤ)
      → Returns
          (λ (item, err, r').
            if ltb k (length xs)
            then (some item ≡ get_elem? xs k)
              × (err ≡ none)
              × (r' ≡ reader xs (k + 1) (negsuc 0))
              × (unread_item r' ≡ (none, reader xs k (negsuc 0)))
            else (item ≡ z) × (err ≡ some eof) × (r' ≡ reader xs k (negsuc 0)))
          (read_item z (reader xs k v))
  unfolding read_item unread_item
  unread_item_after_read z xs k v = elim (lt-or-le k (length xs)) [
    | inl h ↦
        let (x, at) = get_elem?-in xs k h in
        let back : k + 1 - 1 ≡ k = omega arith in
        rw (lt→leb h, lt→ltb h, at) (returns (refl, refl, refl, ground arith))
    | inr h ↦ rw (le→leb h, le→ltb h) (returns (refl, refl, refl))
  ]

  -- Seek forward from the start, from the index and from the end, to a sum below 2 ^ 63, returns the
  -- sum and moves the index there, also past the end. Seek back from the index moves it if the sum
  -- is not negative; if it is, it fails and leaves the index. All of them reset prev_rune.
  pub seek_moves :
      (xs : List T) (k d : ℕ) (v : ℤ)
      → k + d < 2 ^ 63
      → length xs + d < 2 ^ 63
      → (seek (reader xs k v) (pos d) seek_start ≡ (pos d, none, reader xs d (negsuc 0)))
        × (seek (reader xs k v) (pos d) seek_current
            ≡ (pos (k + d), none, reader xs (k + d) (negsuc 0)))
        × (seek (reader xs k v) (pos d) seek_end
            ≡ (pos (length xs + d), none, reader xs (length xs + d) (negsuc 0)))
        × (seek (reader xs k v) (negsuc d) seek_current ≡ (
            if ltb d k
            then (pos (k - (d + 1)), none, reader xs (k - (d + 1)) (negsuc 0))
            else (pos 0, some reader_negative_position, reader xs k (negsuc 0))))
  unfolding seek
  seek_moves xs k d v h h' = (ground arith, ground arith, ground arith, ground arith)

module _ {S T : Type 0} (sink : Sink S T) (out : S → List T) (push : S → List T → S)
    (n_of : S → List T → ℕ)
    (some_taken : (s : S) (b : List T) → sink s b ≡ (pos (n_of s b), none, push s b))
    (fits : (s : S) (b : List T) → n_of s b ≤ length b)
    (logs : (s : S) (b : List T) → out (push s b) ≡ out s ++ take (n_of s b) b) where
  -- WriteTo a writer that takes a first part of what it is given, with no error, sends it the items
  -- that are left, moves the index by the number taken and returns it. The error is
  -- io.ErrShortWrite just where the writer has not taken all. Where none are left, the writer is
  -- not called.
  pub write_to_sends_rest :
      (xs : List T) (k : ℕ) (v : ℤ) (s : S)
      → Returns
          (λ (n, err, r', s').
            (n ≡ pos (if ltb 0 (length (drop k xs)) then n_of s (drop k xs) else 0))
            × (r'.i ≡ pos k +ℤ n)
            × (out s' ≡ out s ++ take (pos_part n) (drop k xs))
            × (err ≡ (if ltb (pos_part n) (length (drop k xs)) then some short_write else none)))
          (write_to sink (reader xs k v) s)
  unfolding write_to
  write_to_sends_rest xs k v s = elim (lt-or-le k (length xs)) [
    | inl h ↦
        let b = drop k xs in
        let all : take (length xs - k) b ≡ b =
          take_all (length xs - k) b (omega (arith, length-drop k xs)) in
        let bound = fits s b in
        rw (lt→leb h, slice-ok xs k (length xs) (omega arith) (omega arith), all, some_taken s b)
          (rw (le→ltb bound)
            (returns (ground (arith, length-drop k xs), refl, logs s b, ground arith)))
    | inr h ↦
        let none_left = drop_all k xs h in
        rw (le→leb h, none_left)
          (returns (refl, ground arith, rw (append-nil (out s)) refl, ground arith))
  ]
