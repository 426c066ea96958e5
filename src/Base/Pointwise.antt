-- ===== src/Base/Pointwise.antt =====
-- The entry of a built list at an index, each as one conditional.
use gbuf.Base.{
  ℕ, zero, suc, ◌+◌, ◌-◌, ◌≤◌, ◌<◌, ◌≡◌, refl, ap, ◌&&◌, none, some, List, [], ◌∷◌, ◌++◌, arith,
  ltb, leb, ◌==◌, if◌then◌else◌, length, get_elem?, set, take, drop, replicate, splice, list_ext,
  length-take,
}

module _ {A : Type 0} where
  pub get_elem?-out : (xs : List A) (i : ℕ) → length xs ≤ i → get_elem? xs i ≡ none
  get_elem?-out [] i h = refl
  get_elem?-out (x ∷ xs) zero h = elim h [ ]
  get_elem?-out (x ∷ xs) (suc i) h = get_elem?-out xs i (omega arith)

  pub get_elem?-take :
      (n : ℕ) (xs : List A) (i : ℕ)
      → get_elem? (take n xs) i ≡ (if ltb i n then get_elem? xs i else none)
  get_elem?-take zero xs i = ground arith
  get_elem?-take (suc n) [] i = ground arith
  get_elem?-take (suc n) (x ∷ xs) zero = ground arith
  get_elem?-take (suc n) (x ∷ xs) (suc i) = ground (arith, get_elem?-take n xs i)

  pub get_elem?-drop :
      (n : ℕ) (xs : List A) (i : ℕ) → get_elem? (drop n xs) i ≡ get_elem? xs (n + i)
  get_elem?-drop zero xs i = ap (get_elem? xs) (omega arith)
  get_elem?-drop (suc n) [] i = refl
  get_elem?-drop (suc n) (x ∷ xs) i = ground (arith, get_elem?-drop n xs i)

  pub get_elem?-append :
      (xs ys : List A) (i : ℕ)
      → get_elem? (xs ++ ys) i
        ≡ (if ltb i (length xs) then get_elem? xs i else get_elem? ys (i - length xs))
  get_elem?-append [] ys i = ground arith
  get_elem?-append (x ∷ xs) ys zero = ground arith
  get_elem?-append (x ∷ xs) ys (suc i) = ground (arith, get_elem?-append xs ys i)

  pub get_elem?-set :
      (xs : List A) (i : ℕ) (v : A) (j : ℕ)
      → i < length xs
      → get_elem? (set xs i v) j ≡ (if i == j then some v else get_elem? xs j)
  get_elem?-set [] i v j h = elim h [ ]
  get_elem?-set (x ∷ xs) zero v zero h = refl
  get_elem?-set (x ∷ xs) zero v (suc j) h = ground arith
  get_elem?-set (x ∷ xs) (suc i) v zero h = ground arith
  get_elem?-set (x ∷ xs) (suc i) v (suc j) h = ground (arith, get_elem?-set xs i v j)

  pub get_elem?-replicate :
      (n : ℕ) (a : A) (i : ℕ) → get_elem? (replicate n a) i ≡ (if ltb i n then some a else none)
  get_elem?-replicate zero a i = ground arith
  get_elem?-replicate (suc n) a zero = ground arith
  get_elem?-replicate (suc n) a (suc i) = ground (arith, get_elem?-replicate n a i)

  pub length-splice : (xs : List A) (i : ℕ) (p : List A) → length (splice xs i p) ≡ length xs
  length-splice [] i p = refl
  length-splice (x ∷ xs) (suc i) p = ap suc (length-splice xs i p)
  length-splice (x ∷ xs) zero [] = refl
  length-splice (x ∷ xs) zero (y ∷ p) = ap suc (length-splice xs zero p)

  pub get_elem?-splice :
      (xs : List A) (i : ℕ) (p : List A) (j : ℕ)
      → i + length p ≤ length xs
      → get_elem? (splice xs i p) j
        ≡ (if leb i j && ltb j (i + length p) then get_elem? p (j - i) else get_elem? xs j)
  get_elem?-splice [] i [] j h = ground arith
  get_elem?-splice [] i (y ∷ p) j h = absurd (omega arith)
  get_elem?-splice (x ∷ xs) (suc i) p zero h = ground arith
  get_elem?-splice (x ∷ xs) (suc i) p (suc j) h = ground (arith, get_elem?-splice xs i p j)
  get_elem?-splice (x ∷ xs) zero [] j h = ground arith
  get_elem?-splice (x ∷ xs) zero (y ∷ p) zero h = ground arith
  get_elem?-splice (x ∷ xs) zero (y ∷ p) (suc j) h = ground (arith, get_elem?-splice xs zero p j)

  pub splice_all : (xs p : List A) → length p ≡ length xs → splice xs 0 p ≡ p
  splice_all [] [] h = refl
  splice_all [] (y ∷ p) h = absurd (omega arith)
  splice_all (x ∷ xs) [] h = absurd (omega arith)
  splice_all (x ∷ xs) (y ∷ p) h = ap (◌∷◌ y) (splice_all xs p (omega arith))

  pub get_elem?-in : (xs : List A) (i : ℕ) → i < length xs → (x : A) × (get_elem? xs i ≡ some x)
  get_elem?-in [] i h = elim h [ ]
  get_elem?-in (x ∷ xs) zero h = (x, refl)
  get_elem?-in (x ∷ xs) (suc i) h = get_elem?-in xs i (omega arith)

  -- The first items of a list, in two steps.
  pub take-split : (m n : ℕ) (p : List A) → take m p ++ take n (drop m p) ≡ take (m + n) p
  take-split m n p = list_ext _ _ λ i. ground (
    arith,
    get_elem?-append (take m p) (take n (drop m p)) i,
    length-take m p,
    get_elem?-take m p i,
    get_elem?-take n (drop m p) (i - length (take m p)),
    get_elem?-drop m p (i - length (take m p)),
    get_elem?-take (m + n) p i,
    get_elem?-out p i,
    get_elem?-out p (m + (i - length (take m p))),
  )
