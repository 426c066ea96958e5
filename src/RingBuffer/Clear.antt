-- ===== src/RingBuffer/Clear.antt =====
-- NewRingBuffer, Reset and Truncate against the list of unread items.
use gbuf.Base.{
  ℕ, zero, suc, ◌+◌, ◌-◌, ◌≤◌, ◌<◌, ◌≡◌, refl, Bool, true, false, none, List, [], ◌++◌, arith, ltb,
  leb, ok, panic, if◌then◌else◌, length, get_elem?, take, drop, replicate, splice, length-replicate,
  length-take, list_ext, ◌⊎◌, lt→leb, le→ltb, copy_into, Returns, Returns-of_eq,
}
use gbuf.Base.Pointwise.{
  get_elem?-take, get_elem?-drop, get_elem?-append, get_elem?-splice, get_elem?-replicate,
  length-splice,
}
use gbuf.Base.Int.{ℤ, pos, pos_part, negsuc, ltb_ℤ, leb_ℤ}
use gbuf.RingBuffer.{RingBuffer, new_ring_buffer, reset, truncate}
use gbuf.RingBuffer.Contents.{
  ring, wrap, unread_count, IsValid, valid, contents, Holds, length-contents, get_elem?-contents,
}
use gbuf.RingBuffer.Advance.{len-ring}

module _ {T : Type 0} (z : T) where
  -- A state whose indices are both 0 holds nothing.
  fresh-Holds : (n : ℕ) (xs : List T) → length xs ≡ n → 0 < n → Holds n [] (ring false 0 0 xs)
  unfolding contents
  fresh-Holds n xs e h = (valid false 0 0 xs (rw e h) (rw e h) (λ e. refl), e, refl)

  -- A new buffer holds nothing. It has the size asked for, or 256 if that is not positive.
  new_ring_buffer-Holds :
      (size : ℕ)
      → Holds (if ltb 0 size then size else 256) [] (new_ring_buffer z (pos size))
        × Holds 256 [] (new_ring_buffer z (negsuc size))
  unfolding new_ring_buffer
  new_ring_buffer-Holds zero =
      let fresh = fresh-Holds 256 (replicate 256 z) (length-replicate 256 z) (omega arith) in
      (fresh, fresh)
  new_ring_buffer-Holds (suc n) = (
    ground (arith, fresh-Holds (suc n) (replicate (suc n) z) (length-replicate (suc n) z)),
    fresh-Holds 256 (replicate 256 z) (length-replicate 256 z) (omega arith),
  )

  -- Reset empties a buffer, keeps its capacity, and overwrites every item with the zero value.
  pub reset-Holds :
      {r : RingBuffer T}
      → IsValid r
      → Holds (length r.items) [] (reset z r) × ((reset z r).items ≡ replicate (length r.items) z)
  unfolding reset
  reset-Holds (valid f w k xs hw hk at) =
      (fresh-Holds (length xs) _ (length-replicate (length xs) z) (omega arith), refl)

  module _ (f : Bool) (w k : ℕ) (xs : List T) (hw : w < length xs) (hk : k < length xs)
      (at : f ≡ true → k ≡ w) (m : ℕ) where
    abbrev cleared : List T
    cleared = splice xs k (take (k + m - k) (replicate (k + m - k) z))

    truncate-ring :
        0 < m
        → m ≤ unread_count f w k (length xs)
        → truncate z (ring f w k xs) (pos m)
          ≡ (if leb (k + m) (length xs) then ok (ring f w k cleared) else panic)
    unfolding truncate copy_into
    truncate-ring h le =
        rw (lt→leb h, len-ring f w k xs hw hk at, le→ltb le)
          (ground (arith, len-ring f w k xs hw hk at))

    length-cleared : length cleared ≡ length xs
    length-cleared = length-splice xs k (take (k + m - k) (replicate (k + m - k) z))

    cleared_entry :
        (i : ℕ)
        → get_elem? (contents (ring f w k cleared)) i ≡ (
            if ltb i (unread_count f w k (length xs))
            then get_elem? cleared (wrap (length xs) (k + i))
            else none)
    cleared_entry i =
        rw length-cleared at
          (get_elem?-contents f w k cleared (rw length-cleared hw) (rw length-cleared hk) at i)

    contents-cleared :
        m ≤ unread_count f w k (length xs)
        → k + m ≤ length xs
        → contents (ring f w k cleared) ≡ replicate m z ++ drop m (contents (ring f w k xs))
    contents-cleared h le = list_ext _ _ λ i. ground (
      arith,
      cleared_entry i,
      get_elem?-append (replicate m z) (drop m (contents (ring f w k xs))) i,
      length-replicate m z,
      length-replicate (k + m - k) z,
      length-take (k + m - k) (replicate (k + m - k) z),
      get_elem?-replicate m z i,
      get_elem?-drop m (contents (ring f w k xs)) (i - length (replicate m z)),
      get_elem?-contents f w k xs hw hk at (m + (i - length (replicate m z))),
      get_elem?-splice xs k (take (k + m - k) (replicate (k + m - k) z)) (wrap (length xs) (k + i)),
      get_elem?-take (k + m - k) (replicate (k + m - k) z) (wrap (length xs) (k + i) - k),
      get_elem?-replicate (k + m - k) z (wrap (length xs) (k + i) - k),
    )

  -- Truncate by a count that is not positive, or above the number of unread items, is Reset.
  pub truncate-reset :
      {r : RingBuffer T} (n : ℤ)
      → IsValid r
      → (leb_ℤ n (pos 0) ≡ true) ⊎ (ltb_ℤ (pos (length (contents r))) n ≡ true)
      → truncate z r n ≡ ok (reset z r)
  unfolding truncate
  truncate-reset n (valid f w k xs hw hk at) h =
      ground (arith, len-ring f w k xs hw hk at, length-contents f w k xs hw hk at)

  -- Truncate by a positive count of at most the unread items that do not run past the end of the
  -- storage sets that many of the oldest unread items to the zero value, and drops none.
  pub truncate-clears :
      {r : RingBuffer T} (m : ℕ)
      → IsValid r
      → 0 < m
      → m ≤ length (contents r)
      → pos_part r.read + m ≤ length r.items
      → Returns
          (Holds (length r.items) (replicate m z ++ drop m (contents r)))
          (truncate z r (pos m))
  truncate-clears m (valid f w k xs hw hk at) h le fits =
      let le' : m ≤ unread_count f w k (length xs) = rw (length-contents f w k xs hw hk at) at le in
      Returns-of_eq (ground (arith, truncate-ring f w k xs hw hk at m h le')) (
        valid f w k (cleared f w k xs hw hk at m) (rw (length-cleared f w k xs hw hk at m) hw)
            (rw (length-cleared f w k xs hw hk at m) hk) at,
        length-cleared f w k xs hw hk at m,
        contents-cleared f w k xs hw hk at m le' fits,
      )

  -- Truncate panics if the unread items to clear run past the end of the storage.
  pub truncate-panic :
      {r : RingBuffer T} (m : ℕ)
      → IsValid r
      → m ≤ length (contents r)
      → length r.items < pos_part r.read + m
      → truncate z r (pos m) ≡ panic
  truncate-panic m (valid f w k xs hw hk at) le over =
      let le' : m ≤ unread_count f w k (length xs) = rw (length-contents f w k xs hw hk at) at le in
      ground (arith, truncate-ring f w k xs hw hk at m (omega arith) le')
