-- ===== src/Gbufio/ComparableReader/Search.antt =====
-- The search for a delimiter, and lists that end in the only one.
use gbuf.Base.{
  ℕ, suc, ◌<◌, ◌≡◌, refl, Bool, true, false, Bool-cases, Option, none, some, List, [], ◌∷◌, ◌++◌,
  arith, length, take, ◌⊎◌, inl, inr,
}
use gbuf.Gbufio.ComparableReader.{index_of}

module _ {T : Type 0} (eqb : T → T → Bool) (d : T) where
  -- No item of the list is the delimiter.
  pub data Lacks : List T → Type 0 where
    lacks_none : Lacks []
    lacks_more : {x : T} {xs : List T} → eqb x d ≡ false → Lacks xs → Lacks (x ∷ xs)

  -- The last item of the list is the delimiter, and no other.
  pub data EndsThere : List T → Type 0 where
    ends_here : {x : T} → eqb x d ≡ true → EndsThere (x ∷ [])
    ends_later : {x : T} {xs : List T} → eqb x d ≡ false → EndsThere xs → EndsThere (x ∷ xs)

  pub append-Lacks : {xs ys : List T} → Lacks xs → Lacks ys → Lacks (xs ++ ys)
  append-Lacks lacks_none l = l
  append-Lacks (lacks_more e k) l = lacks_more e (append-Lacks k l)

  pub append-EndsThere : {xs ys : List T} → Lacks xs → EndsThere ys → EndsThere (xs ++ ys)
  append-EndsThere lacks_none l = l
  append-EndsThere (lacks_more e k) l = ends_later e (append-EndsThere k l)

  index_of-other :
      (x : T) (xs : List T) (o : Option ℕ)
      → eqb x d ≡ false
      → index_of eqb xs d ≡ o
      → index_of eqb (x ∷ xs) d ≡ (elim o [ none ↦ none | some i ↦ some (suc i) ])
  unfolding index_of
  index_of-other x xs none h e = rw (h, e) refl
  index_of-other x xs (some i) h e = rw (h, e) refl

  index_of-same : (x : T) (xs : List T) → eqb x d ≡ true → index_of eqb (x ∷ xs) d ≡ some 0
  unfolding index_of
  index_of-same x xs h = rw h refl

  -- What the search finds.
  pub index_of-cases :
      (xs : List T)
      → (index_of eqb xs d ≡ none) × Lacks xs
        ⊎ (i : ℕ) × (index_of eqb xs d ≡ some i) × (i < length xs) × EndsThere (take (suc i) xs)
  unfolding index_of
  index_of-cases [] = inl (refl, lacks_none)
  index_of-cases (x ∷ xs) = elim (Bool-cases (eqb x d)) [
    | inl same ↦ inr (0, index_of-same x xs same, omega arith, ends_here same)
    | inr other ↦ elim (index_of-cases xs) [
      | inl (e, lacks) ↦ inl (index_of-other x xs none other e, lacks_more other lacks)
      | inr (i, e, h, ends) ↦
          inr (suc i, index_of-other x xs (some i) other e, omega arith, ends_later other ends)
    ]
  ]
