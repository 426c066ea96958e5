-- ===== src/LinkedList/Inverse.antt =====
-- Insertion of a value in a List, and its removal.
use gbuf.Base.{
  ℕ, zero, suc, ◌≡◌, refl, sym, ap, ◌∙◌, subst, Bool-cases, true, Option, none, some, [], ◌∷◌, ◌++◌,
  arith, Run, ok, panic, ◌>>=◌, length, get_elem?, set, if◌then◌else◌, length-set, inl, inr, ◌==◌,
  Returns, Returns-of_eq,
}
use gbuf.Base.Int.{ℤ, pos, negsuc, ◌+ℤ◌, ◌-ℤ◌}
use gbuf.LinkedList.{
  Element, ListHead, Store, element, head, len, lazy_init, insert_value, remove_element,
  same_pointer,
}
use gbuf.LinkedList.Moves.{remove, insert_before, insert_after, push_front, push_back}
use gbuf.LinkedList.Links.{
  store, in_range, set-set, set-stored, element-last, element-before, element-stored,
}
use gbuf.LinkedList.Calls.{entry, joined, insert_value-call, remove_element-call}
use gbuf.LinkedList.Restored.{IsRestored, get_elem?-set_same, apart_IsRestored, alone_IsRestored}

-- Two elements that stand next to each other in the ring of a list, and the list.
pub record AreNeighbours {T : Type 0} (h : Store T) (l a n : ℕ) : Type 0 where
  pub list : ListHead
  pub first : Element T
  pub second : Element T
  pub at_list : get_elem? h.lists l ≡ some list
  pub at_first : get_elem? h.elements a ≡ some first
  pub at_second : get_elem? h.elements n ≡ some second
  pub goes : first.next ≡ some n
  pub back : second.prev ≡ some a

module _ {T : Type 0} (h : Store T) (l : ℕ) (v : T) (a n : ℕ) where
  -- The new element stands between the two, and belongs to the list, which has an element more. Its
  -- removal gives the value, and leaves all as it was but for an element without pointers.
  abbrev pub InsertedSpec : ListHead → Option ℕ × Store T → Type 0
  InsertedSpec list (p, h') =
      (p ≡ some (length h.elements))
      × ((e : Element T) × (element h' (some a) ≡ ok e) × (e.next ≡ p))
      × ((e : Element T) × (element h' (some n) ≡ ok e) × (e.prev ≡ p))
      × (element h' p ≡ ok (entry (some n) (some a) (some l) v))
      × (len h' l ≡ ok (list.len +ℤ pos 1))
      × (remove h' l p
          ≡ ok (v, record h { elements = h.elements ++ (entry none none none v ∷ []) }))

  -- The calls that insert between the two.
  pub data Inserts (near : AreNeighbours h l a n) : Run (Option ℕ × Store T) → Type 0 where
    after_mark : near.first.list ≡ some l → Inserts near (insert_after h l v (some a))
    before_mark : near.second.list ≡ some l → Inserts near (insert_before h l v (some n))
    at_front : near.list.root ≡ a → Inserts near (push_front h l v)
    at_back :
        {q : ℕ} → near.list.root ≡ n → near.second.next ≡ some q → Inserts near (push_back h l v)

module _ {T : Type 0} (h : Store T) (l : ℕ) where
  head-stored : {r : ListHead} → get_elem? h.lists l ≡ some r → head h l ≡ ok r
  head-stored at =
      ap (λ (o : Option ListHead). elim o as (λ o. Run ListHead) [ none ↦ panic | some r ↦ ok r ])
        at

  same_self : (p : Option ℕ) → p ≡ some l → same_pointer p (some l) ≡ true
  same_self p e = ap (λ k. same_pointer k (some l)) e ∙ ground arith

  -- Remove of an element of this list.
  remove-call :
      (p : Option ℕ) {e e' : Element T} {h' : Store T}
      → element h p ≡ ok e
      → e.list ≡ some l
      → remove_element h l p ≡ ok h'
      → element h' p ≡ ok e'
      → remove h l p ≡ ok (e'.value, h')
  unfolding remove
  remove-call p {e} {e'} {h'} there in_list removed there' =
      let rest : Run (Store T) → Run (T × Store T) =
        λ m. m >>= λ h'. element h' p >>= λ e'. ok (e'.value, h') in
      ap
        (λ (m : Run (Element T)).
          m >>= λ e. rest (if same_pointer e.list (some l) then remove_element h l p else ok h))
        there
      ∙ ap (λ t. rest (if t then remove_element h l p else ok h)) (same_self e.list in_list)
      ∙ ap rest removed
      ∙ ap (λ (m : Run (Element T)). m >>= λ e'. ok (e'.value, h')) there'

add-sub : (k : ℤ) → (k +ℤ pos 1) -ℤ pos 1 ≡ k
add-sub (pos k) = ground arith
add-sub (negsuc zero) = refl
add-sub (negsuc (suc k)) = ground arith

module _ {T : Type 0} (h : Store T) (l : ℕ) (v : T) (a n : ℕ) (near : AreNeighbours h l a n) where
  neighbours_IsRestored : IsRestored h.elements a n near.first
  neighbours_IsRestored = elim (Bool-cases (a == n)) [
    | inl same ↦
        let e : a ≡ n = ground arith in
        let both : some near.first ≡ some near.second =
          sym near.at_first ∙ ap (get_elem? h.elements) e ∙ near.at_second in
        let one : near.first ≡ near.second = cc in
        let back : near.first.prev ≡ some a = ap (λ x. x.prev) one ∙ near.back in
        subst (λ k. IsRestored h.elements a k near.first) e
          (alone_IsRestored h.elements a near.first near.at_first (near.goes ∙ ap some (sym e))
            back)
    | inr differ ↦
        apart_IsRestored h.elements a near.first near.at_first n near.second near.goes
          (λ e. ground arith) near.at_second near.back
  ]

  insert_value_lem : Returns (InsertedSpec h l v a n near.list) (insert_value h l v (some a))
  unfolding len
  insert_value_lem =
      let xs = h.elements in
      let here = length xs in
      let back = neighbours_IsRestored in
      let ys = joined xs a n near.first (some here) back.e₁ (some here) in
      let list : ListHead = record near.list { len = near.list.len +ℤ pos 1 } in
      let ls = set h.lists l list in
      let size : length ys ≡ here =
        length-set (set xs a (record near.first { next = some here })) n
          (record back.e₁ { prev = some here })
        ∙ length-set xs a (record near.first { next = some here }) in
      let at_list = get_elem?-set_same h.lists l list (in_range h.lists l near.at_list) in
      let added = entry (some n) (some a) (some l) v in
      let there = element-last ys ls added here size in
      let last : Element T = record back.e₁ { prev = some here } in
      let removed : remove_element (store (ys ++ (added ∷ [])) ls) l (some here)
          ≡ ok (store (xs ++ (entry none none none v ∷ [])) h.lists) =
        remove_element-call ys ls l v a n back.e₂ back.e₃ list here size back.at₂ back.at₃ at_list
        ∙ ap
            (λ k. ok (
              store (k ++ (entry none none none v ∷ []))
                (set ls l (record list { len = list.len -ℤ pos 1 }))))
            back.same
        ∙ ap (λ k. ok (store (xs ++ (entry none none none v ∷ [])) k))
            (set-set h.lists l list (record list { len = list.len -ℤ pos 1 })
                (in_range h.lists l near.at_list)
              ∙ ap (λ k. set h.lists l (record list { len = k })) (add-sub near.list.len)
              ∙ set-stored h.lists l near.list near.at_list) in
      Returns-of_eq
        (insert_value-call xs h.lists l v a n near.first back.e₁ near.list near.at_first near.goes
          back.at₁ near.at_list)
        (
          refl,
          (back.e₂, element-before ys ls added back.e₂ a back.at₂, back.goes),
          (
            last,
            element-before ys ls added last n (
                get_elem?-set_same (set xs a (record near.first { next = some here })) n last
                  (in_range (set xs a (record near.first { next = some here })) n back.at₁)),
            refl,
          ),
          there,
          ap (λ (m : Run ListHead). m >>= λ r. ok r.len)
              (head-stored (store (ys ++ (added ∷ [])) ls) l at_list),
          remove-call (store (ys ++ (added ∷ [])) ls) l (some here) there refl removed
              (element-last xs h.lists (entry none none none v) here refl),
        )

  found :
      (i k : ℕ) (e : Element T)
      → get_elem? h.elements i ≡ some e
      → k ≡ i
      → element h (some k) ≡ ok e
  found i k e at same = ap (λ k. element h (some k)) same ∙ element-stored h i at

  as_insert_value :
      {call : Run (Option ℕ × Store T)}
      → call ≡ insert_value h l v (some a)
      → Returns (InsertedSpec h l v a n near.list) call
  as_insert_value e = rw e insert_value_lem

  pub inserts_lem :
      {call : Run (Option ℕ × Store T)}
      → Inserts h l v a n near call
      → Returns (InsertedSpec h l v a n near.list) call
  unfolding insert_before insert_after push_front push_back lazy_init
  inserts_lem (after_mark in_list) =
      as_insert_value
        (rw (element-stored h a near.at_first, same_self h l near.first.list in_list) refl)
  inserts_lem (before_mark in_list) = as_insert_value (
      rw (element-stored h n near.at_second, same_self h l near.second.list in_list, near.back)
        refl)
  inserts_lem (at_front e) = as_insert_value (
      rw
        (
          head-stored h l near.at_list,
          found a near.list.root near.first near.at_first e,
          near.goes,
          head-stored h l near.at_list,
          e,
        )
        refl)
  inserts_lem (at_back e more) = as_insert_value (
      rw
        (
          head-stored h l near.at_list,
          found n near.list.root near.second near.at_second e,
          more,
          head-stored h l near.at_list,
          found n near.list.root near.second near.at_second e,
          near.back,
        )
        refl)
