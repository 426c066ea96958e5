-- ===== src/Buffer/Write/Room.antt =====
-- Growing a Buffer keeps the unread items and makes room behind them.
use gbuf.Base.{
  ℕ, ◌+◌, ◌-◌, ◌*◌, ◌/◌, ◌≤◌, ◌≡◌, refl, ◌∙◌, sym, inl, inr, Bool, true, false, not, ◌&&◌, List, [],
  arith, ltb, leb, ◌==◌, if◌then◌else◌, ok, length, take, drop, splice, replicate, slice-ok,
  copy_into-ok, length-take, length-drop, length-replicate, list_ext, Returns, returns, lt-or-le,
  le→leb, lt→leb, le→ltb, nil_of_length, Bool-cases,
}
use gbuf.Base.Pointwise.{get_elem?-take, get_elem?-splice, get_elem?-out, length-splice}
use gbuf.Base.Int.{max_int}
use gbuf.Buffer.{Buffer, grow, regrow, grow_slice, small_buffer_size}
use gbuf.Buffer.Contents.{IsWithin, contents}
use gbuf.Buffer.Write.{make_room}

module _ {T : Type 0} where
  -- `m` is the index where `n` new items start, behind the unread items `q`.
  abbrev pub Room : List T → ℕ → ℕ × Buffer T → Type 0
  Room q n (m, b) =
      (b.size ≡ m + n)
      × (b.off ≤ m)
      × (b.size ≤ length b.array)
      × (b.is_nil ≡ true → length b.array ≡ 0)
      × (take (m - b.off) (drop b.off b.array) ≡ q)
      × (b.is_reading ≡ false)

  -- The items at the start of a longer array.
  placed :
      (a q : List T) (c m : ℕ)
      → length q ≡ m
      → m ≤ c
      → c ≤ length a
      → take (m - 0) (drop 0 (splice a 0 (take (c - 0) q))) ≡ q
  placed a q c m e h k = list_ext _ _ λ i. ground (
    arith,
    get_elem?-take (m - 0) (splice a 0 (take (c - 0) q)) i,
    get_elem?-splice a 0 (take (c - 0) q) i,
    length-take (c - 0) q,
    get_elem?-take (c - 0) q (i - 0),
    get_elem?-out q i,
  )

  module _ (zero_value : T) (rounded : ℕ → ℕ) (enough : (c : ℕ) → c ≤ rounded c) (a : List T)
      (s o : ℕ) (z : Bool) (ho : o ≤ s) (hs : s ≤ length a) (hz : z ≡ true → length a ≡ 0)
      (n : ℕ) where
    abbrev buffer : Buffer T
    buffer = record { array = a; size = s; off = o; is_reading = false; is_nil = z }

    abbrev unread : List T
    unread = take (s - o) (drop o a)

    length-unread : length unread ≡ s - o
    length-unread = omega (arith, length-take (s - o) (drop o a), length-drop o a)

    abbrev needed : ℕ
    needed =
        if ltb (length unread + (o + n)) (2 * (length a - o))
        then 2 * (length a - o)
        else length unread + (o + n)

    grow_slice_lem :
        grow_slice zero_value rounded unread (length a - o) (o + n)
        ≡ ok (splice (replicate (rounded needed) zero_value) 0 (take (needed - 0) unread))
    unfolding grow_slice
    grow_slice_lem =
        let e = enough needed in
        let size = length-replicate (rounded needed) zero_value in
        rw
          (copy_into-ok (replicate (rounded needed) zero_value) 0 needed unread (omega arith)
            (omega (arith, e, size)))
          refl

    regrow-Room :
        length a + length a + n ≤ max_int
        → Returns (Room unread n) (regrow zero_value rounded buffer (s - o) n)
    unfolding regrow
    regrow-Room h =
        let size = length-unread in
        let e = enough needed in
        elim (lt-or-le (length a / 2) (n + (s - o))) [
          | inl big ↦
              let big_array = replicate (rounded needed) zero_value in
              let array = splice big_array 0 (take (needed - 0) unread) in
              let length_big = length-replicate (rounded needed) zero_value in
              let length_array = length-splice big_array 0 (take (needed - 0) unread) in
              let long : s - o + n ≤ needed = ground (arith, size) in
              rw
                (
                  slice-ok a o s ho hs,
                  le→ltb h,
                  lt→leb big,
                  grow_slice_lem,
                  le→leb {a = s - o + n} {b = length array}
                      (omega (arith, length_array, length_big, e, long)),
                )
                (returns (
                  refl,
                  omega arith,
                  omega (arith, length_array, length_big, e, long),
                  (λ y. cc),
                  placed big_array unread needed (s - o) size (omega (arith, long))
                      (omega (arith, length_big, e)),
                  refl,
                ))
          | inr small ↦
              let array = splice a 0 (take (s - 0) unread) in
              let length_array = length-splice a 0 (take (s - 0) unread) in
              let half : length a / 2 ≤ length a = omega arith in
              rw
                (
                  slice-ok a o s ho hs,
                  le→leb small,
                  copy_into-ok a 0 s unread (omega arith) hs,
                  le→leb {a = s - o + n} {b = length array} (omega (arith, length_array, half)),
                )
                (returns (
                  refl,
                  omega arith,
                  omega (arith, length_array, half),
                  (λ y. cc),
                  placed a unread s (s - o) size (omega arith) hs,
                  refl,
                ))
        ]

    -- What is left of `grow` after its reset.
    grow_from :
        length a + length a + n ≤ max_int
        → ((s ≡ o) → o ≡ 0)
        → Returns (Room unread n) (grow zero_value rounded buffer n)
    unfolding grow
    grow_from h fresh =
        let no_reset : ((s - o) == 0) && not (o == 0) ≡ false = ground (arith, fresh) in
        elim (lt-or-le (length a) (s + n)) [
          | inr fits ↦ rw (no_reset, le→leb fits) (returns (refl, ho, fits, hz, refl, refl))
          | inl long ↦ elim (Bool-cases (z && leb n small_buffer_size)) [
            | inl e ↦
                let nil : length a ≡ 0 = ground (arith, hz) in
                let small : n ≤ 64 = ground arith in
                let first : take (0 - o) (drop o (replicate small_buffer_size zero_value)) ≡ [] =
                  nil_of_length _ (
                    omega (
                      arith,
                      length-take (0 - o) (drop o (replicate small_buffer_size zero_value)),
                    )) in
                rw (no_reset, lt→leb long, e)
                  (returns (
                    omega arith,
                    omega arith,
                    omega (arith, length-replicate 64 zero_value),
                    (λ y. cc),
                    first ∙ sym (nil_of_length unread (omega (arith, length-unread))),
                    refl,
                  ))
            | inr e ↦ rw (no_reset, lt→leb long, e) (regrow-Room h)
          ]
        ]

  module _ (zero_value : T) (rounded : ℕ → ℕ) (enough : (c : ℕ) → c ≤ rounded c) where
    grow_resets :
        (a : List T) (s o : ℕ) (z : Bool) (n : ℕ)
        → ((s - o) == 0) && not (o == 0) ≡ true
        → grow zero_value rounded
            (record { array = a; size = s; off = o; is_reading = false; is_nil = z })
            n
          ≡ grow zero_value rounded
              (record { array = a; size = 0; off = 0; is_reading = false; is_nil = z })
              n
    unfolding grow
    grow_resets a s o z n e = let none_unread : s - o ≡ 0 = ground arith in rw (e, none_unread) refl

    grow-Room :
        (a : List T) (s o : ℕ) (z : Bool) (n : ℕ)
        → IsWithin (record { array = a; size = s; off = o; is_reading = false; is_nil = z })
        → length a + length a + n ≤ max_int
        → Returns (Room (take (s - o) (drop o a)) n) (
            grow zero_value rounded
              (record { array = a; size = s; off = o; is_reading = false; is_nil = z })
              n)
    grow-Room a s o z n (ho, hs, hz) h = elim (Bool-cases (((s - o) == 0) && not (o == 0))) [
      | inl e ↦
          let none_unread : s - o ≡ 0 = ground arith in
          rw (grow_resets a s o z n e, none_unread)
            (grow_from zero_value rounded enough a 0 0 z (omega arith) (omega arith) hz n h
              (λ y. refl))
      | inr e ↦ grow_from zero_value rounded enough a s o z ho hs hz n h (λ y. ground arith)
    ]

    pub make_room_lem :
        (b : Buffer T) (n : ℕ)
        → IsWithin b
        → length b.array + length b.array + n ≤ max_int
        → Returns (Room (contents b) n) (make_room zero_value rounded b n)
    unfolding make_room contents
    make_room_lem b n (ho, hs, hz) h = elim (lt-or-le (length b.array) (b.size + n)) [
      | inr fits ↦ rw (le→leb fits) (returns (refl, ho, fits, hz, refl, refl))
      | inl long ↦ rw (lt→leb long) (grow-Room b.array b.size b.off b.is_nil n (ho, hs, hz) h)
    ]
