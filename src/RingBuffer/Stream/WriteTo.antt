-- ===== src/RingBuffer/Stream/WriteTo.antt =====
-- WriteTo against the list of unread items, for a writer that takes all it is given.
use gbuf.Base.{
  ℕ, ◌+◌, ◌-◌, ◌≤◌, ◌<◌, ◌≡◌, refl, ◌⊎◌, inl, inr, Bool, true, false, none, List, [], ◌++◌, arith,
  ok, length, take, drop, slice-ok, length-take, length-drop, Returns, Returns-of_eq, list_ext,
  lt-or-le, lt→leb, le→leb, nil_of_length, take_all,
}
use mathlib.Core.List.{append_assoc}
use gbuf.Base.Pointwise.{get_elem?-append, get_elem?-drop, get_elem?-take}
use gbuf.Base.Int.{pos}
use gbuf.Streams.{Sink}
use gbuf.RingBuffer.{RingBuffer}
use gbuf.RingBuffer.Contents.{
  ring, wrap, IsValid, valid, contents, Holds, length-contents, get_elem?-contents, rem-wrap,
}
use gbuf.RingBuffer.Stream.{continue, write_part, write_last, write_to}

module _ {T : Type 0} where
  module _ (f : Bool) (w k : ℕ) (xs : List T) (hw : w < length xs) (hk : k < length xs)
      (at : f ≡ true → k ≡ w) where
    straight : k < w → take (w - k) (drop k xs) ≡ contents (ring f w k xs)
    straight h = list_ext _ _ λ i. ground (
      arith,
      get_elem?-take (w - k) (drop k xs) i,
      get_elem?-drop k xs i,
      get_elem?-contents f w k xs hw hk at i,
    )

    around :
        w ≤ k
        → (f ≡ true) ⊎ (w < k)
        → take (length xs - k) (drop k xs) ++ take w xs ≡ contents (ring f w k xs)
    around h some_unread = list_ext _ _ λ i. ground (
      arith,
      get_elem?-append (take (length xs - k) (drop k xs)) (take w xs) i,
      length-take (length xs - k) (drop k xs),
      length-drop k xs,
      get_elem?-take (length xs - k) (drop k xs) i,
      get_elem?-drop k xs i,
      get_elem?-take w xs (i - length (take (length xs - k) (drop k xs))),
      get_elem?-contents f w k xs hw hk at i,
    )

  drained : (w : ℕ) (xs : List T) → w < length xs → Holds (length xs) [] (ring false w w xs)
  drained w xs hw = (
    valid false w w xs hw hw (λ _. refl),
    refl,
    nil_of_length _ (ground (arith, length-contents false w w xs hw hw (λ _. refl))),
  )

module _ {S T : Type 0} (sink : Sink S T) (out : S → List T) (push : S → List T → S)
    (accepts : (s : S) (b : List T) → sink s b ≡ (pos (length b), none, push s b))
    (logs : (s : S) (b : List T) → out (push s b) ≡ out s ++ b) where
  module _ (f : Bool) (w k : ℕ) (xs : List T) (hw : w < length xs) (hk : k < length xs) where
    part_sent :
        (hi n : ℕ) (s : S)
        → k ≤ hi
        → hi ≤ length xs
        → write_part sink (ring f w k xs) hi n s
          ≡ ok (
              continue
                (n + (hi - k))
                (ring false w (wrap (length xs) hi) xs)
                (push s (take (hi - k) (drop k xs))))
    unfolding write_part
    part_sent hi n s h h' =
        let b = take (hi - k) (drop k xs) in
        let size : length b ≡ hi - k =
          omega (arith, length-take (hi - k) (drop k xs), length-drop k xs) in
        let moved : k + (hi - k) ≡ hi = omega arith in
        rw (slice-ok xs k hi h h', accepts s b, size, moved, rem-wrap hi (length xs) (omega arith))
          refl

  module _ (f : Bool) (w k : ℕ) (xs : List T) (hw : w < length xs) (hk : k < length xs)
      (s : S) where
    write_to-around :
        w ≤ k
        → write_to sink (ring f w k xs) s
          ≡ ok (
            (length xs - k) + w,
            none,
            ring false w w xs,
            push (push s (take (length xs - k) (drop k xs))) (take w xs),
          )
    unfolding write_to write_last
    write_to-around h =
        let at_end : wrap (length xs) (length xs) ≡ 0 = ground arith in
        let at_write : wrap (length xs) w ≡ w = ground arith in
        let nothing_off : w - 0 ≡ w = omega arith in
        let counted : 0 + (length xs - k) + w ≡ (length xs - k) + w = omega arith in
        rw
          (
            le→leb h,
            part_sent f w k xs hw hk (length xs) 0 s (omega arith) (omega arith),
            at_end,
            part_sent false w 0 xs hw (omega arith) w (0 + (length xs - k))
                (push s (take (length xs - k) (drop k xs))) (omega arith) (omega arith),
            at_write,
            nothing_off,
            counted,
          )
          refl

    write_to-straight :
        k < w
        → write_to sink (ring f w k xs) s
          ≡ ok (w - k, none, ring false w w xs, push s (take (w - k) (drop k xs)))
    unfolding write_to write_last
    write_to-straight h =
        let at_write : wrap (length xs) w ≡ w = ground arith in
        let counted : 0 + (w - k) ≡ w - k = omega arith in
        rw (lt→leb h, part_sent f w k xs hw hk w 0 s (omega arith) (omega arith), at_write, counted)
          refl

  -- WriteTo a writer that takes all it is given, on a buffer that is full or whose indices differ,
  -- does not panic and returns the number of unread items and no error. The writer has taken just
  -- these, in their order, and the buffer is empty.
  pub write_to_refines :
      {r : RingBuffer T} (s : S)
      → IsValid r
      → (r.full ≡ true) ⊎ (0 < length (contents r))
      → Returns
          (λ (n, err, r', s').
            (n ≡ length (contents r))
            × (err ≡ none)
            × (out s' ≡ out s ++ contents r)
            × Holds (length r.items) [] r')
          (write_to sink r s)
  write_to_refines s (valid f w k xs hw hk at) unread = elim (lt-or-le k w) [
    | inl h ↦
        let size : w - k ≡ length (contents (ring f w k xs)) =
          ground (arith, length-contents f w k xs hw hk at) in
        let all_out = logs s (take (w - k) (drop k xs)) in
        Returns-of_eq (write_to-straight f w k xs hw hk s h)
          (size, refl, rw (all_out, straight f w k xs hw hk at h) refl, drained w xs hw)
    | inr h ↦
        let upper = take (length xs - k) (drop k xs) in
        let count = length-contents f w k xs hw hk at in
        let stands : (f ≡ true) ⊎ (w < k) = elim unread [
          | inl e ↦ inl e
          | inr p ↦ ground (arith, count)
        ] in
        let size : (length xs - k) + w ≡ length (contents (ring f w k xs)) =
          ground (arith, count) in
        Returns-of_eq (write_to-around f w k xs hw hk s h) (
          size,
          refl,
          rw
              (
                logs (push s upper) (take w xs),
                logs s upper,
                append_assoc,
                around f w k xs hw hk at h stands,
              )
              refl,
          drained w xs hw,
        )
  ]

  -- On an empty buffer WriteTo sends the whole storage, from the write index on and round, though
  -- no item of it is unread.
  pub write_to-stale :
      {r : RingBuffer T} (s : S)
      → IsValid r
      → r.full ≡ false
      → length (contents r) ≡ 0
      → Returns
          (λ (n, err, r', s').
            (n ≡ length r.items)
            × (err ≡ none)
            × (out s' ≡ out s ++ (drop r.write r.items ++ take r.write r.items))
            × Holds (length r.items) [] r')
          (write_to sink r s)
  write_to-stale s (valid f w k xs hw hk at) e z =
      let count = length-contents f w k xs hw hk at in
      let same : k ≡ w = ground (arith, count) in
      let upper = take (length xs - k) (drop k xs) in
      let all : upper ≡ drop w xs =
        rw same (take_all (length xs - w) (drop w xs) (omega (arith, length-drop w xs))) in
      Returns-of_eq (write_to-around f w k xs hw hk s (omega arith)) (
        omega arith,
        refl,
        rw (logs (push s upper) (take w xs), logs s upper, append_assoc, all) refl,
        drained w xs hw,
      )
