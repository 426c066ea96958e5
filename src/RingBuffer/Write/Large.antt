-- ===== src/RingBuffer/Write/Large.antt =====
-- A Write of at least as many items as the buffer has.
use gbuf.Base.{
  ℕ, ◌-◌, ◌≤◌, ◌<◌, ◌≡◌, refl, Bool, true, none, List, ◌++◌, arith, ok, length, take, drop, le→ltb,
  take_all, slice-ok, copy_into-ok, length-take, length-drop, Returns, Returns-of_eq, length-append,
}
use gbuf.Base.Pointwise.{splice_all}
use gbuf.RingBuffer.{RingBuffer}
use gbuf.RingBuffer.Contents.{ring, IsValid, valid, contents, last_n, Holds}
use gbuf.RingBuffer.Write.{write}

module _ {T : Type 0} (f : Bool) (w k : ℕ) (xs p : List T) (hw : w < length xs) (hk : k < length xs)
    (large : length xs ≤ length p) where
  abbrev kept : List T
  kept = last_n (length xs) p

  length-kept : length kept ≡ length xs
  length-kept = omega (arith, length-drop (length p - length xs) p)

  write-ring : write (ring f w k xs) p ≡ ok (length xs, none, ring true w w kept)
  unfolding write
  write-ring =
      let whole : length p - (length p - length xs) ≡ length xs = omega arith in
      rw (
        le→ltb large,
        slice-ok p (length p - length xs) (length p) (omega arith) (omega arith),
        whole,
        take_all (length xs) kept (omega (arith, length-kept)),
        copy_into-ok xs 0 (length xs) kept (omega arith) (omega arith),
        take_all (length xs - 0) kept (omega (arith, length-kept)),
        splice_all xs kept length-kept,
      )

  contents-large : contents (ring true w w kept) ≡ drop w kept ++ take w kept
  unfolding contents
  contents-large = take_all _ _ (
      omega
        (arith, length-append (drop w kept) (take w kept), length-drop w kept, length-take w kept))

-- A Write of at least as many items as the capacity reports the capacity, and stores the last items
-- of the slice from the start of the buffer on. The unread items are those, but rotated by the write
-- index, which the call leaves where it was.
pub write_large :
    {T : Type 0} {r : RingBuffer T} (p : List T)
    → IsValid r
    → length r.items ≤ length p
    → Returns
        (λ (n, err, r').
          let kept = last_n (length r.items) p in
          (n ≡ length r.items)
          × (err ≡ none)
          × Holds (length r.items) (drop r.write kept ++ take r.write kept) r')
        (write r p)
write_large p (valid f w k xs hw hk at) large =
    let size = length-kept f w k xs p hw hk large in
    Returns-of_eq (write-ring f w k xs p hw hk large) (
      refl,
      refl,
      (
        valid true w w _ (rw size hw) (rw size hw) (λ _. refl),
        size,
        contents-large f w k xs p hw hk large,
      ),
    )
