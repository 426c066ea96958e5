-- ===== src/Buffer/Read/Items.antt =====
-- ReadItems of a Buffer against the list of unread items.
use gbuf.Base.{
  ℕ, ◌+◌, ◌-◌, ◌≤◌, ◌≡◌, refl, ◌∙◌, sym, inl, inr, Bool, true, false, Option, none, some, List, [],
  ◌∷◌, arith, if◌then◌else◌, length, take, drop, slice-ok, length-take, length-drop, list_ext,
  Returns, returns, nil_of_length, Bool-cases,
}
use gbuf.Base.Pointwise.{get_elem?-take}
use gbuf.Errors.{Error, eof}
use gbuf.Buffer.Read.Refines.{contents-drop}
use gbuf.Buffer.{Buffer}
use gbuf.Buffer.Contents.{IsWithin, contents}
use gbuf.Buffer.Read.{find, read_items}

module _ {T : Type 0} where
  -- The items up to the first that `delim` accepts, with it, or all if there is none.
  abbrev pub through : (T → Bool) → List T → List T
  through delim [] = []
  through delim (x ∷ xs) = let rest = through delim xs in if delim x then x ∷ [] else x ∷ rest

  abbrev pub has : (T → Bool) → List T → Bool
  has delim [] = false
  has delim (x ∷ xs) = let rest = has delim xs in if delim x then true else rest

  -- What the search for the delimiter finds.
  abbrev FindSpec : (T → Bool) → List T → Option ℕ → Type 0
  FindSpec delim q none = (has delim q ≡ false) × (through delim q ≡ q)
  FindSpec delim q (some n) = (has delim q ≡ true) × (through delim q ≡ take n q) × (n ≤ length q)

  find-cons :
      (delim : T → Bool) (x : T) (xs : List T) (found : Option ℕ)
      → find delim xs ≡ found
      → FindSpec delim xs found
      → FindSpec delim (x ∷ xs) (find delim (x ∷ xs))
  unfolding find
  find-cons delim x xs none e (absent, all) = elim (Bool-cases (delim x)) [
    | inl y ↦ rw y (rw y refl, rw y refl, omega arith)
    | inr y ↦ rw (y, e) (rw y absent, rw (y, all) refl)
  ]
  find-cons delim x xs (some n) e (present, line, h) = elim (Bool-cases (delim x)) [
    | inl y ↦ rw y (rw y refl, rw y refl, omega arith)
    | inr y ↦ rw (y, e) (rw y present, rw (y, line) refl, omega arith)
  ]

  find_lem : (delim : T → Bool) (q : List T) → FindSpec delim q (find delim q)
  unfolding find
  find_lem delim [] = (refl, refl)
  find_lem delim (x ∷ xs) = find-cons delim x xs (find delim xs) refl (find_lem delim xs)

  abbrev pub LineSpec : (T → Bool) → List T → List T × Option Error × Buffer T → Type 0
  LineSpec delim q (line, err, b') =
      (line ≡ through delim q)
      × (err ≡ (if has delim q then none else some eof))
      × IsWithin b'
      × (contents b' ≡ drop (length line) q)

  found-Returns :
      (b : Buffer T) (delim : T → Bool) (found : Option ℕ)
      → IsWithin b
      → find delim (contents b) ≡ found
      → FindSpec delim (contents b) found
      → Returns (LineSpec delim (contents b)) (read_items b delim)
  unfolding read_items contents
  found-Returns b delim none (ho, hs, hz) e (absent, all) =
      let q = take (b.size - b.off) (drop b.off b.array) in
      let size : length q ≡ b.size - b.off =
        omega
          (arith, length-take (b.size - b.off) (drop b.off b.array), length-drop b.off b.array) in
      rw (slice-ok b.array b.off b.size ho hs, e, slice-ok b.array b.off b.size ho hs)
        (returns (
          sym all,
          rw absent refl,
          (omega arith, hs, hz),
          nil_of_length _ (omega (arith, length-take (b.size - b.size) (drop b.size b.array)))
              ∙ sym (nil_of_length _ (omega (arith, length-drop (length q) q))),
        ))
  found-Returns b delim (some n) (ho, hs, hz) e (present, line, h) =
      let a = b.array in
      let o = b.off in
      let s = b.size in
      let q = take (s - o) (drop o a) in
      let size : length q ≡ s - o =
        omega (arith, length-take (s - o) (drop o a), length-drop o a) in
      let fits : o + n ≤ s = omega (arith, size) in
      let same : take (o + n - o) (drop o a) ≡ take n q = list_ext _ _ λ i. ground (
        arith,
        get_elem?-take (o + n - o) (drop o a) i,
        get_elem?-take n q i,
        get_elem?-take (s - o) (drop o a) i,
      ) in
      let count : length (take n q) ≡ n = omega (arith, length-take n q) in
      rw (slice-ok a o s ho hs, e, slice-ok a o (o + n) (omega arith) (omega arith), same)
        (returns
          (sym line, rw present refl, (fits, hs, hz), rw count (contents-drop a s o n fits hs)))

  -- ReadItems returns the unread items up to the first that the delimiter accepts, with it, and
  -- drops just them; if there is none, it returns all of them and io.EOF.
  pub buffer_read_items_refines :
      (b : Buffer T) (delim : T → Bool)
      → IsWithin b
      → Returns (LineSpec delim (contents b)) (read_items b delim)
  buffer_read_items_refines b delim v =
      found-Returns b delim (find delim (contents b)) v refl (find_lem delim (contents b))
