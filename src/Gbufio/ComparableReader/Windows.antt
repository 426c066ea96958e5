-- ===== src/Gbufio/ComparableReader/Windows.antt =====
-- The parts of a Reader's buffer that ReadSlice looks at, as lists.
use gbuf.Base.{
  ℕ, suc, ◌+◌, ◌-◌, ◌≤◌, ◌<◌, ◌≡◌, ◌≢◌, none, some, List, ◌++◌, arith, length, take, drop,
  length-take, length-drop, list_ext, take_all,
}
use gbuf.Base.Pointwise.{get_elem?-drop, get_elem?-take, get_elem?-append, get_elem?-out}

pub some-none : {A : Type 0} {x : A} → some x ≢ none
some-none e = ground arith

module _ {T : Type 0} where
  -- The items that are left, up to an index and beyond it.
  pub window :
      (xs : List T) (r w from : ℕ)
      → take (w - (r + from)) (drop (r + from) xs) ≡ drop from (take (w - r) (drop r xs))
  window xs r w from = list_ext _ _ λ i. ground (
    arith,
    get_elem?-take (w - (r + from)) (drop (r + from) xs) i,
    get_elem?-drop (r + from) xs i,
    get_elem?-drop from (take (w - r) (drop r xs)) i,
    get_elem?-take (w - r) (drop r xs) (from + i),
    get_elem?-drop r xs (from + i),
  )

  pub rejoined : (xs : List T) (from : ℕ) → take from xs ++ drop from xs ≡ xs
  rejoined xs from = list_ext _ _ λ i. ground (
    arith,
    get_elem?-append (take from xs) (drop from xs) i,
    length-take from xs,
    get_elem?-take from xs i,
    get_elem?-drop from xs (i - length (take from xs)),
    get_elem?-out xs i,
    get_elem?-out xs (from + (i - length (take from xs))),
  )

  pub whole_left :
      (xs : List T) (r w : ℕ) → r ≡ 0 → length xs ≤ w - r → take (w - r) (drop r xs) ≡ xs
  whole_left xs r w zero_r h = rw zero_r (take_all (w - 0) xs (omega arith))

  pub take-front : (xs ys : List T) (n : ℕ) → length xs ≡ n → take n (xs ++ ys) ≡ xs
  take-front xs ys n h = list_ext _ _ λ i.
      ground (arith, get_elem?-take n (xs ++ ys) i, get_elem?-append xs ys i, get_elem?-out xs i)

  -- A line, as the part searched before and the part that ends in the delimiter.
  pub line_split :
      (xs : List T) (r w from i : ℕ)
      → (let left = take (w - r) (drop r xs) in
          i < length (drop from left)
          → take (r + (i + from) + 1 - r) (drop r xs)
            ≡ take from left ++ take (suc i) (drop from left))
  line_split xs r w from i h = list_ext _ _ λ j.
      let left = take (w - r) (drop r xs) in
      ground (
        arith,
        get_elem?-take (r + (i + from) + 1 - r) (drop r xs) j,
        get_elem?-append (take from left) (take (suc i) (drop from left)) j,
        length-take from left,
        length-take (w - r) (drop r xs),
        length-drop r xs,
        length-drop from left,
        get_elem?-take from left j,
        get_elem?-take (w - r) (drop r xs) j,
        get_elem?-take (suc i) (drop from left) (j - length (take from left)),
        get_elem?-drop from left (j - length (take from left)),
        get_elem?-take (w - r) (drop r xs) (from + (j - length (take from left))),
      )

  pub handed_line :
      (xs : List T) (r w n m : ℕ)
      → n ≡ m
      → m ≤ w - r
      → w ≤ length xs
      → take n (drop r xs) ++ take (w - (r + m)) (drop (r + m) xs) ≡ take (w - r) (drop r xs)
  handed_line xs r w n m e h h' = list_ext _ _ λ i. ground (
    arith,
    get_elem?-append (take n (drop r xs)) (take (w - (r + m)) (drop (r + m) xs)) i,
    length-take n (drop r xs),
    length-drop r xs,
    get_elem?-take n (drop r xs) i,
    get_elem?-take (w - (r + m)) (drop (r + m) xs) (i - length (take n (drop r xs))),
    get_elem?-drop (r + m) xs (i - length (take n (drop r xs))),
    get_elem?-take (w - r) (drop r xs) i,
    get_elem?-drop r xs i,
  )
