-- ===== src/LinkedList/Calls.antt =====
-- What insertValue and the removal of an element do to a store.
use gbuf.Base.{
  ℕ, ◌≡◌, refl, ◌∙◌, Option, none, some, List, [], ◌∷◌, ◌++◌, ok, length, get_elem?, set,
  length-set,
}
use gbuf.Base.Int.{pos, ◌+ℤ◌, ◌-ℤ◌}
use gbuf.LinkedList.{Element, ListHead, insert_value, remove_element}
use gbuf.LinkedList.Links.{
  store, element-last, set_next-last, set_prev-last, set_list-last, element-before, set_next-before,
  set_prev-before,
}

module _ {T : Type 0} where
  abbrev pub entry : Option ℕ → Option ℕ → Option ℕ → T → Element T
  entry next prev list v = record { next = next; prev = prev; list = list; value = v }

  -- The elements after an insertion between these two: the next pointer of the first and the prev
  -- pointer of the second one are set.
  abbrev pub joined :
      List (Element T) → ℕ → ℕ → Element T → Option ℕ → Element T → Option ℕ → List (Element T)
  joined xs a n e₀ q e₁ p = set (set xs a (record e₀ { next = q })) n (record e₁ { prev = p })

  module _ (xs : List (Element T)) (ls : List ListHead) (l : ℕ) (v : T) (a n : ℕ)
      (e₀ e₁ : Element T) (r : ListHead) where
    pub insert_value-call :
        get_elem? xs a ≡ some e₀
        → e₀.next ≡ some n
        → get_elem? (set xs a (record e₀ { next = some (length xs) })) n ≡ some e₁
        → get_elem? ls l ≡ some r
        → insert_value (store xs ls) l v (some a)
          ≡ ok (
            some (length xs),
            store
                (joined xs a n e₀ (some (length xs)) e₁ (some (length xs))
                  ++ (entry (some n) (some a) (some l) v ∷ []))
                (set ls l (record r { len = r.len +ℤ pos 1 })),
          )
    unfolding insert_value
    insert_value-call at goes at₁ at_head =
        let here = length xs in
        let ys = set xs a (record e₀ { next = some here }) in
        let size : length ys ≡ here = length-set xs a (record e₀ { next = some here }) in
        let zs = joined xs a n e₀ (some here) e₁ (some here) in
        let size' : length zs ≡ here = length-set ys n (record e₁ { prev = some here }) ∙ size in
        rw
          (
            set_prev-last xs ls (entry none none none v) here refl (some a),
            element-before xs ls (entry none (some a) none v) e₀ a at,
            goes,
            set_next-last xs ls (entry none (some a) none v) here refl (some n),
            set_next-before xs ls (entry (some n) (some a) none v) e₀ a at (some here),
            element-last ys ls (entry (some n) (some a) none v) here size,
            set_prev-before ys ls (entry (some n) (some a) none v) e₁ n at₁ (some here),
            set_list-last zs ls (entry (some n) (some a) none v) here size' (some l),
            at_head,
          )
          refl

    pub remove_element-call :
        (here : ℕ)
        → length xs ≡ here
        → get_elem? xs a ≡ some e₀
        → get_elem? (set xs a (record e₀ { next = some n })) n ≡ some e₁
        → get_elem? ls l ≡ some r
        → remove_element (store (xs ++ (entry (some n) (some a) (some l) v ∷ [])) ls) l (some here)
          ≡ ok (
              store
                (joined xs a n e₀ (some n) e₁ (some a) ++ (entry none none none v ∷ []))
                (set ls l (record r { len = r.len -ℤ pos 1 })))
    unfolding remove_element
    remove_element-call here size at at₁ at_head =
        let ys = set xs a (record e₀ { next = some n }) in
        let zs = set ys n (record e₁ { prev = some a }) in
        let size' : length ys ≡ here = length-set xs a (record e₀ { next = some n }) ∙ size in
        let size'' : length zs ≡ here = length-set ys n (record e₁ { prev = some a }) ∙ size' in
        rw
          (
            element-last xs ls (entry (some n) (some a) (some l) v) here size,
            set_next-before xs ls (entry (some n) (some a) (some l) v) e₀ a at (some n),
            element-last ys ls (entry (some n) (some a) (some l) v) here size',
            set_prev-before ys ls (entry (some n) (some a) (some l) v) e₁ n at₁ (some a),
            set_next-last zs ls (entry (some n) (some a) (some l) v) here size'' none,
            set_prev-last zs ls (entry none (some a) (some l) v) here size'' none,
            set_list-last zs ls (entry none none (some l) v) here size'' none,
            at_head,
          )
          refl
