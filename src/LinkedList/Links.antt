-- ===== src/LinkedList/Links.antt =====
-- The assignments of list.go in a store whose last element is a new one.
use gbuf.Base.{
  ℕ, ◌<◌, ◌≡◌, ◌≢◌, ap, ◌∙◌, Option, none, some, List, [], ◌∷◌, ◌++◌, arith, Run, ok, panic, ◌>>=◌,
  length, get_elem?, set, length-set, list_ext, length-append, ◌-◌,
}
use gbuf.Base.Pointwise.{get_elem?-set, get_elem?-out, get_elem?-append}
use gbuf.LinkedList.{Element, ListHead, Store, element, put, set_next, set_prev, set_list}

module _ {A : Type 0} where
  pub in_range : (xs : List A) (i : ℕ) {x : A} → get_elem? xs i ≡ some x → i < length xs
  in_range xs i at = ground (arith, get_elem?-out xs i)

  get_elem?-last :
      (xs : List A) (x : A) (n : ℕ) → length xs ≡ n → get_elem? (xs ++ (x ∷ [])) n ≡ some x
  get_elem?-last [] x n e = ground arith
  get_elem?-last (y ∷ xs) x n e = ground (arith, get_elem?-last xs x (n - 1))

  get_elem?-before :
      (xs : List A) (x : A) (i : ℕ) {y : A}
      → get_elem? xs i ≡ some y
      → get_elem? (xs ++ (x ∷ [])) i ≡ some y
  get_elem?-before xs x i at = ground (arith, get_elem?-append xs (x ∷ []) i, in_range xs i at)

  set-last :
      (xs : List A) (x y : A) (n : ℕ) → length xs ≡ n → set (xs ++ (x ∷ [])) n y ≡ xs ++ (y ∷ [])
  set-last xs x y n e = list_ext _ _ λ i. ground (
    arith,
    get_elem?-set (xs ++ (x ∷ [])) n y i,
    length-append xs (x ∷ []),
    get_elem?-append xs (x ∷ []) i,
    get_elem?-append xs (y ∷ []) i,
    get_elem?-last xs y n e,
  )

  set-before :
      (xs : List A) (x y : A) (i : ℕ)
      → i < length xs
      → set (xs ++ (x ∷ [])) i y ≡ set xs i y ++ (x ∷ [])
  set-before xs x y i h = list_ext _ _ λ j. ground (
    arith,
    get_elem?-set (xs ++ (x ∷ [])) i y j,
    length-append xs (x ∷ []),
    get_elem?-append xs (x ∷ []) j,
    get_elem?-append (set xs i y) (x ∷ []) j,
    get_elem?-set xs i y j,
    length-set xs i y,
  )

  pub set-set : (xs : List A) (i : ℕ) (x y : A) → i < length xs → set (set xs i x) i y ≡ set xs i y
  set-set xs i x y h = list_ext _ _ λ j. ground (
    arith,
    get_elem?-set (set xs i x) i y j,
    length-set xs i x,
    get_elem?-set xs i x j,
    get_elem?-set xs i y j,
  )

  pub set-stored : (xs : List A) (i : ℕ) (x : A) → get_elem? xs i ≡ some x → set xs i x ≡ xs
  set-stored xs i x at = list_ext _ _ λ j. ground (arith, get_elem?-set xs i x j, in_range xs i at)

  pub set_comm :
      (xs : List A) (i j : ℕ) (x y : A)
      → i < length xs
      → j < length xs
      → i ≢ j
      → set (set xs i x) j y ≡ set (set xs j y) i x
  set_comm xs i j x y h h' differ = list_ext _ _ λ k. ground (
    arith,
    get_elem?-set (set xs i x) j y k,
    get_elem?-set (set xs j y) i x k,
    length-set xs i x,
    length-set xs j y,
    get_elem?-set xs i x k,
    get_elem?-set xs j y k,
  )

module _ {T : Type 0} where
  abbrev pub store : List (Element T) → List ListHead → Store T
  store xs ls = record { elements = xs; lists = ls }

  pub element-stored :
      (h : Store T) (i : ℕ) {e : Element T}
      → get_elem? h.elements i ≡ some e
      → element h (some i) ≡ ok e
  element-stored h i at =
      ap
        (λ (o : Option (Element T)). elim o as (λ o. Run (Element T)) [
          | none ↦ panic
          | some e ↦ ok e
        ])
        at

  replaced :
      (h : Store T) (i : ℕ) (f : Element T → Element T) {e : Element T} {xs : List (Element T)}
      → element h (some i) ≡ ok e
      → set h.elements i (f e) ≡ xs
      → (element h (some i) >>= λ e. put h (some i) (f e)) ≡ ok (store xs h.lists)
  replaced h i f there changed =
      ap (λ (m : Run (Element T)). m >>= λ e. put h (some i) (f e)) there
      ∙ ap (λ xs. ok (record h { elements = xs })) changed

  module _ (xs : List (Element T)) (ls : List ListHead) (x : Element T) (n : ℕ)
      (at_end : length xs ≡ n) where
    pub element-last : element (store (xs ++ (x ∷ [])) ls) (some n) ≡ ok x
    element-last = element-stored (store (xs ++ (x ∷ [])) ls) n (get_elem?-last xs x n at_end)

    pub set_next-last :
        (q : Option ℕ)
        → set_next (store (xs ++ (x ∷ [])) ls) (some n) q
          ≡ ok (store (xs ++ (record x { next = q } ∷ [])) ls)
    set_next-last q =
        replaced (store (xs ++ (x ∷ [])) ls) n (λ e. record e { next = q }) element-last
          (set-last xs x (record x { next = q }) n at_end)

    pub set_prev-last :
        (q : Option ℕ)
        → set_prev (store (xs ++ (x ∷ [])) ls) (some n) q
          ≡ ok (store (xs ++ (record x { prev = q } ∷ [])) ls)
    set_prev-last q =
        replaced (store (xs ++ (x ∷ [])) ls) n (λ e. record e { prev = q }) element-last
          (set-last xs x (record x { prev = q }) n at_end)

    pub set_list-last :
        (q : Option ℕ)
        → set_list (store (xs ++ (x ∷ [])) ls) (some n) q
          ≡ ok (store (xs ++ (record x { list = q } ∷ [])) ls)
    set_list-last q =
        replaced (store (xs ++ (x ∷ [])) ls) n (λ e. record e { list = q }) element-last
          (set-last xs x (record x { list = q }) n at_end)

  module _ (xs : List (Element T)) (ls : List ListHead) (x e : Element T) (i : ℕ)
      (at : get_elem? xs i ≡ some e) where
    pub element-before : element (store (xs ++ (x ∷ [])) ls) (some i) ≡ ok e
    element-before = element-stored (store (xs ++ (x ∷ [])) ls) i (get_elem?-before xs x i at)

    pub set_next-before :
        (q : Option ℕ)
        → set_next (store (xs ++ (x ∷ [])) ls) (some i) q
          ≡ ok (store (set xs i (record e { next = q }) ++ (x ∷ [])) ls)
    set_next-before q =
        replaced (store (xs ++ (x ∷ [])) ls) i (λ e. record e { next = q }) element-before
          (set-before xs x (record e { next = q }) i (in_range xs i at))

    pub set_prev-before :
        (q : Option ℕ)
        → set_prev (store (xs ++ (x ∷ [])) ls) (some i) q
          ≡ ok (store (set xs i (record e { prev = q }) ++ (x ∷ [])) ls)
    set_prev-before q =
        replaced (store (xs ++ (x ∷ [])) ls) i (λ e. record e { prev = q }) element-before
          (set-before xs x (record e { prev = q }) i (in_range xs i at))
