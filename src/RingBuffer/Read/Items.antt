-- ===== src/RingBuffer/Read/Items.antt =====
-- ReadItems against the list of unread items.
use gbuf.Base.{
  ℕ, zero, suc, ◌+◌, ◌-◌, ◌≤◌, ◌<◌, ◌≡◌, refl, ap, ◌∙◌, Bool, true, false, none, List, [], ◌∷◌,
  ◌++◌, ◌||◌, Bool-cases, arith, ◌==◌, ok, if◌then◌else◌, length, take, drop, ◌⊎◌, length-take,
  length-drop, list_ext, slice-ok, lt-or-le, inl, inr, le→leb, lt→leb, Returns, returns,
  Returns-of_eq, nil_of_length, pos→==, zero→==, sym,
}
use gbuf.Base.Pointwise.{get_elem?-out, get_elem?-take, get_elem?-drop, get_elem?-append}
use gbuf.Base.Int.{pos_part}
use gbuf.RingBuffer.{RingBuffer}
use gbuf.RingBuffer.Contents.{
  rem-wrap, ring, wrap, unread_count, IsValid, valid, contents, Holds, length-contents,
  get_elem?-contents,
}
use gbuf.RingBuffer.Advance.{contents-advance}
use gbuf.RingBuffer.Read.{scan, scan_upper, read_items}

module _ {T : Type 0} (delim : T → Bool) where
  -- The items before the first that the delimiter accepts.
  abbrev pub before : List T → List T
  before [] = []
  before (x ∷ xs) = if delim x then [] else x ∷ before xs

  -- Whether the delimiter accepts one of them.
  abbrev has : List T → Bool
  has [] = false
  has (x ∷ xs) = delim x || has xs

  scan_lem : (xs : List T) → scan delim xs ≡ (before xs, has xs)
  unfolding scan
  scan_lem [] = refl
  scan_lem (x ∷ xs) =
      rw (scan_lem xs) (elim (Bool-cases (delim x)) [
        | inl accepts ↦ rw accepts refl
        | inr passes ↦ rw passes refl
      ])

  before-append :
      (xs ys : List T) → before (xs ++ ys) ≡ (if has xs then before xs else before xs ++ before ys)
  before-append [] ys = refl
  before-append (x ∷ xs) ys = ground (arith, before-append xs ys)

  length-before : (xs : List T) → length (before xs) ≤ length xs
  length-before [] = omega arith
  length-before (x ∷ xs) = ground (arith, length-before xs)

  module _ (f : Bool) (w k : ℕ) (xs : List T) (hw : w < length xs) (hk : k < length xs)
      (at : f ≡ true → k ≡ w) where
    abbrev line : List T
    line = before (contents (ring f w k xs))

    unwrapped :
        w ≤ k
        → 0 < unread_count f w k (length xs)
        → contents (ring f w k xs) ≡ drop k xs ++ take w xs
    unwrapped h some_unread = list_ext _ _ λ i. ground (
      arith,
      get_elem?-contents f w k xs hw hk at i,
      get_elem?-append (drop k xs) (take w xs) i,
      length-drop k xs,
      get_elem?-drop k xs i,
      get_elem?-take w xs (i - length (drop k xs)),
      get_elem?-out xs (k + i),
    )

    read_items-ring :
        w ≤ k
        → 0 < unread_count f w k (length xs)
        → read_items (ring f w k xs) delim
          ≡ ok (
            line,
            none,
            (if length line == 0
                then ring f w k xs
                else ring false w (wrap (length xs) (k + length line)) xs),
          )
    unfolding read_items scan_upper
    read_items-ring h some_unread =
        let upper = before (drop k xs) in
        let lower = before (take (w - 0) xs) in
        let joined : line ≡ (if has (drop k xs) then upper else upper ++ lower) =
          ap before (unwrapped h some_unread)
          ∙ ground (arith, before-append (drop k xs) (take w xs)) in
        let size = length-before (contents (ring f w k xs)) in
        rw
          (
            le→leb h,
            scan_lem (drop k xs),
            slice-ok xs 0 w (omega arith) (omega arith),
            scan_lem (take (w - 0) xs),
          )
          (ground (
            arith,
            joined,
            size,
            length-contents f w k xs hw hk at,
            nil_of_length line,
            rem-wrap (k + length line) (length xs),
          ))

    advanced-Holds :
        (c : ℕ)
        → c ≤ unread_count f w k (length xs)
        → Holds
            (length xs)
            (drop c (contents (ring f w k xs)))
            (if c == 0 then ring f w k xs else ring false w (wrap (length xs) (k + c)) xs)
    advanced-Holds zero h = (valid f w k xs hw hk at, refl, refl)
    advanced-Holds (suc c) h = rw (pos→== {a = suc c} (omega arith)) (
      valid false w (wrap (length xs) (k + suc c)) xs hw (ground arith) (ground arith),
      refl,
      contents-advance f w k xs hw hk at (suc c) (omega arith) h,
    )

-- ReadItems on a buffer that is full, or whose read index is above the write index, returns the
-- unread items before the first that the delimiter accepts, with no error, and drops just them.
pub read_items_refines :
    {T : Type 0} {r : RingBuffer T} (delim : T → Bool)
    → IsValid r
    → (r.full ≡ true) ⊎ (r.write < pos_part r.read)
    → Returns
        (λ (line, err, r').
          (line ≡ before delim (contents r))
          × (err ≡ none)
          × Holds (length r.items) (drop (length line) (contents r)) r')
        (read_items r delim)
read_items_refines delim (valid f w k xs hw hk at) h =
    let some_unread : 0 < unread_count f w k (length xs) = ground arith in
    let size = length-before delim (contents (ring f w k xs)) in
    let out = line delim f w k xs hw hk at in
    Returns-of_eq (read_items-ring delim f w k xs hw hk at (ground arith) some_unread) (
      refl,
      refl,
      advanced-Holds delim f w k xs hw hk at (length out)
          (omega (arith, size, length-contents f w k xs hw hk at)),
    )

-- Where the read index is below the write index, ReadItems looks at the storage from its start and
-- not from the read index on.
pub read_items-from_start :
    {T : Type 0} {r : RingBuffer T} (delim : T → Bool)
    → IsValid r
    → r.full ≡ false
    → pos_part r.read < r.write
    → Returns (λ (line, err, r'). line ≡ before delim (take r.write r.items)) (read_items r delim)
unfolding read_items scan_upper
read_items-from_start delim (valid f w k xs hw hk at) e h =
    let out = before delim (take (w - 0) xs) in
    let bound = length-before delim (take (w - 0) xs) in
    let size = length-take (w - 0) xs in
    let start : w - 0 ≡ w = omega arith in
    rw (lt→leb h, slice-ok xs 0 w (omega arith) (omega arith), scan_lem delim (take (w - 0) xs))
      (elim (lt-or-le 0 (length out)) [
        | inl p ↦
            rw (pos→== p, rem-wrap (k + length out) (length xs) (omega arith)) (returns (rw start))
        | inr p ↦ rw (zero→== p) (
            returns
              (sym (nil_of_length out (omega arith)) ∙ ap (λ c. before delim (take c xs)) start))
      ])
