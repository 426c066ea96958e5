-- ===== src/RingBuffer/Read/Value.antt =====
-- Value and Next against the list of unread items.
use gbuf.Base.{
  ℕ, ◌-◌, ◌≤◌, ◌<◌, ◌≡◌, refl, sym, ◌∙◌, Bool, true, false, List, [], ◌++◌, arith, ok, length, take,
  drop, replicate, splice, lt-or-le, inl, inr, ◌⊎◌, length-replicate, length-take, length-drop,
  length-append, list_ext, slice-ok, copy_into-ok, lt→ltb, le→ltb, lt→leb, take_all, drop_all,
  nil_of_length, Returns-bind, Returns, returns, Returns-of_eq,
}
use mathlib.Core.List.{append-nil}
use gbuf.Base.Pointwise.{
  get_elem?-out, get_elem?-take, get_elem?-drop, get_elem?-append, get_elem?-splice, length-splice,
  splice_all,
}
use gbuf.Base.Int.{pos, pos_part}
use gbuf.RingBuffer.{RingBuffer}
use gbuf.RingBuffer.Contents.{
  ring, unread_count, IsValid, valid, contents, Holds, length-contents, get_elem?-contents,
}
use gbuf.RingBuffer.Advance.{len-ring}
use gbuf.RingBuffer.Read.{value, next}
use gbuf.RingBuffer.Read.Refines.{read_refines}

module _ {T : Type 0} (z : T) where
  module _ (f : Bool) (w k : ℕ) (xs : List T) (hw : w < length xs) (hk : k < length xs)
      (at : f ≡ true → k ≡ w) where
    copied : (c : ℕ) (p : List T) → length p ≡ c → splice (replicate c z) 0 (take (c - 0) p) ≡ p
    copied c p e =
        rw (take_all (c - 0) p (omega arith))
          (splice_all (replicate c z) p (omega (arith, length-replicate c z)))

    -- The storage from the read index on, round.
    abbrev rotated : List T
    rotated = drop k xs ++ take k xs

    rotated_copies :
        splice
          (splice
            (replicate (length xs) z)
            0
            (take (length xs - k - 0) (take (length xs - k) (drop k xs))))
          (length xs - k)
          (take (length xs - (length xs - k)) (take (k - 0) xs))
        ≡ rotated
    rotated_copies = list_ext _ _ λ i.
        let upper = take (length xs - k) (drop k xs) in
        let one = splice (replicate (length xs) z) 0 (take (length xs - k - 0) upper) in
        let lower = take (length xs - (length xs - k)) (take (k - 0) xs) in
        ground (
          arith,
          length-replicate (length xs) z,
          length-splice (replicate (length xs) z) 0 (take (length xs - k - 0) upper),
          length-take (length xs - k - 0) upper,
          length-take (length xs - k) (drop k xs),
          length-drop k xs,
          length-take (length xs - (length xs - k)) (take (k - 0) xs),
          length-take (k - 0) xs,
          get_elem?-splice one (length xs - k) lower i,
          get_elem?-splice (replicate (length xs) z) 0 (take (length xs - k - 0) upper) i,
          get_elem?-take (length xs - (length xs - k)) (take (k - 0) xs) (i - (length xs - k)),
          get_elem?-take (k - 0) xs (i - (length xs - k)),
          get_elem?-take (length xs - k - 0) upper (i - 0),
          get_elem?-take (length xs - k) (drop k xs) (i - 0),
          get_elem?-drop k xs (i - 0),
          get_elem?-append (drop k xs) (take k xs) i,
          get_elem?-take k xs (i - length (drop k xs)),
          get_elem?-drop k xs i,
          get_elem?-out one i,
        )

    straight : k < w → take (w - k) (drop k xs) ≡ contents (ring f w k xs)
    straight h = list_ext _ _ λ i. ground (
      arith,
      get_elem?-take (w - k) (drop k xs) i,
      get_elem?-drop k xs i,
      get_elem?-contents f w k xs hw hk at i,
    )

    whole : k ≡ 0 → xs ≡ rotated
    whole e = rw e (sym (append-nil xs))

    value-straight : k < w → value z (ring f w k xs) ≡ ok (contents (ring f w k xs), ring f w w xs)
    unfolding value
    value-straight h =
        let part = take (w - k) (drop k xs) in
        let size : length part ≡ w - k =
          omega (arith, length-take (w - k) (drop k xs), length-drop k xs) in
        rw
          (
            lt→ltb h,
            slice-ok xs k w (omega arith) (omega arith),
            copy_into-ok (replicate (w - k) z) 0 (w - k) part (omega arith)
                (omega (arith, length-replicate (w - k) z)),
            copied (w - k) part size,
            straight h,
          )
          refl

    value-around : w ≤ k → value z (ring f w k xs) ≡ ok (rotated, ring f w k xs)
    unfolding value
    value-around h =
        let n = length xs in
        let upper = take (n - k) (drop k xs) in
        let one = splice (replicate n z) 0 (take (n - k - 0) upper) in
        let size = length-replicate n z in
        let size' : length one ≡ n =
          length-splice (replicate n z) 0 (take (n - k - 0) upper) ∙ size in
        elim (lt-or-le 0 k) [
          | inl p ↦ ground (
            arith,
            slice-ok xs k n (omega arith) (omega arith),
            copy_into-ok (replicate n z) 0 (n - k) upper (omega arith) (omega (arith, size)),
            slice-ok xs 0 k (omega arith) (omega arith),
            copy_into-ok one (n - k) n (take (k - 0) xs) (omega arith) (omega (arith, size')),
            rotated_copies,
          )
          | inr p ↦ ground (
            arith,
            copy_into-ok (replicate n z) 0 n xs (omega arith) (omega (arith, size)),
            copied n xs refl,
            whole (omega arith),
          )
        ]

  module _ (f : Bool) (w k : ℕ) (xs : List T) (hw : w < length xs) (hk : k < length xs)
      (at : f ≡ true → k ≡ w) where
    full_rotated : f ≡ true → drop k xs ++ take k xs ≡ contents (ring f w k xs)
    unfolding contents
    full_rotated e = rw e (
        sym (
          take_all (length xs) (drop k xs ++ take k xs) (
            omega
              (arith, length-append (drop k xs) (take k xs), length-drop k xs, length-take k xs))))

  drained :
      (f : Bool) (w : ℕ) (xs : List T) → w < length xs → f ≡ false → contents (ring f w w xs) ≡ []
  drained f w xs hw e = nil_of_length _ (ground (arith, length-contents f w w xs hw hw (λ _. refl)))

  -- Value on a full buffer returns the unread items and leaves it as it is; where the read index is
  -- below the write index it returns them too, and leaves the buffer empty.
  pub value_refines :
      {r : RingBuffer T}
      → IsValid r
      → (r.full ≡ true) ⊎ (pos_part r.read < r.write)
      → Returns
          (λ (out, r').
            (out ≡ contents r)
            × ((r.full ≡ true) × (r' ≡ r) ⊎ (r.full ≡ false) × Holds (length r.items) [] r'))
          (value z r)
  value_refines (valid f w k xs hw hk at) (inl e) =
      let same = full_rotated f w k xs hw hk at e in
      Returns-of_eq (value-around f w k xs hw hk at (omega (arith, at e))) (same, inl (e, refl))
  value_refines (valid f w k xs hw hk at) (inr h) =
      let off : f ≡ false = ground arith in
      Returns-of_eq (value-straight f w k xs hw hk at h)
        (refl, inr (off, (valid f w w xs hw hw (λ e. refl), refl, drained f w xs hw off)))

  -- Otherwise Value returns the whole storage, rotated to begin at the read index, stale items
  -- included: more items than are unread.
  pub value-stale :
      {r : RingBuffer T}
      → IsValid r
      → r.full ≡ false
      → r.write ≤ pos_part r.read
      → Returns
          (λ (out, r').
            (out ≡ drop (pos_part r.read) r.items ++ take (pos_part r.read) r.items)
            × (length (contents r) < length out)
            × (r' ≡ r))
          (value z r)
  value-stale (valid f w k xs hw hk at) e h = Returns-of_eq (value-around f w k xs hw hk at h) (
    refl,
    ground (
      arith,
      length-contents f w k xs hw hk at,
      length-append (drop k xs) (take k xs),
      length-drop k xs,
      length-take k xs,
    ),
    refl,
  )

  -- Next of a positive count of at most the unread items returns the oldest ones and drops them.
  pub next_refines :
      {r : RingBuffer T} (m : ℕ)
      → IsValid r
      → 0 < m
      → m ≤ length (contents r)
      → Returns
          (λ (out, r').
            (out ≡ take m (contents r)) × Holds (length r.items) (drop m (contents r)) r')
          (next z r (pos m))
  unfolding next
  next_refines m (valid f w k xs hw hk at) h le =
      let old = contents (ring f w k xs) in
      let size = length-replicate m z in
      let le' : m ≤ unread_count f w k (length xs) = rw (length-contents f w k xs hw hk at) at le in
      let whole : take (length (replicate m z)) old ++ drop (length old) (replicate m z)
          ≡ take m old =
        rw (size, drop_all (length old) (replicate m z) (omega (arith, size)))
          (append-nil (take m old)) in
      rw (len-ring f w k xs hw hk at, lt→leb h, le→ltb le')
        (Returns-bind (read_refines (replicate m z) (valid f w k xs hw hk at))
          λ (n, err, items, after) s.
            rw s.1 (returns (s.2 ∙ whole, (s.3.0, s.3.1, s.3.2 ∙ rw size))))

  -- Next of more than is unread is Value.
  pub next-value :
      {r : RingBuffer T} (m : ℕ)
      → IsValid r
      → length (contents r) < m
      → next z r (pos m) ≡ value z r
  unfolding next
  next-value m (valid f w k xs hw hk at) h =
      ground (arith, len-ring f w k xs hw hk at, length-contents f w k xs hw hk at)
