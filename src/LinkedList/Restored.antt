-- ===== src/LinkedList/Restored.antt =====
-- The pointers that an insertion in a List changes, and its removal restores.
use gbuf.Base.{
  ℕ, ◌<◌, ◌≡◌, ◌≢◌, refl, sym, ap, subst, ◌∙◌, some, List, arith, length, get_elem?, set,
  length-set,
}
use gbuf.Base.Pointwise.{get_elem?-set}
use gbuf.LinkedList.{Element}
use gbuf.LinkedList.Calls.{joined}
use gbuf.LinkedList.Links.{in_range, set-set, set-stored, set_comm}

-- An insertion between the elements `a`, which is `e₀`, and `n` sets their pointers to the new element,
-- and its removal sets them back, so that the elements are as they were.
pub record IsRestored {T : Type 0} (xs : List (Element T)) (a n : ℕ) (e₀ : Element T) : Type 0 where
  pub e₁ : Element T
  pub e₂ : Element T
  pub e₃ : Element T
  pub at₁ : get_elem? (set xs a (record e₀ { next = some (length xs) })) n ≡ some e₁
  pub at₂ : get_elem? (joined xs a n e₀ (some (length xs)) e₁ (some (length xs))) a ≡ some e₂
  pub at₃ :
      get_elem?
        (set
          (joined xs a n e₀ (some (length xs)) e₁ (some (length xs)))
          a
          (record e₂ { next = some n }))
        n
      ≡ some e₃
  pub goes : e₂.next ≡ some (length xs)
  pub same :
      joined (joined xs a n e₀ (some (length xs)) e₁ (some (length xs))) a n e₂ (some n) e₃ (some a)
      ≡ xs

module _ {A : Type 0} (ys : List A) (i : ℕ) (x : A) (h : i < length ys) where
  pub get_elem?-set_same : get_elem? (set ys i x) i ≡ some x
  get_elem?-set_same = ground (arith, get_elem?-set ys i x i h)

  get_elem?-set_other :
      (j : ℕ) {y : A} → i ≢ j → get_elem? ys j ≡ some y → get_elem? (set ys i x) j ≡ some y
  get_elem?-set_other j differ there = ground (arith, get_elem?-set ys i x j h)

module _ {T : Type 0} (xs : List (Element T)) (a : ℕ) (e₀ : Element T)
    (at : get_elem? xs a ≡ some e₀) where
  pub apart_IsRestored :
      (n : ℕ) (e : Element T)
      → e₀.next ≡ some n
      → a ≢ n
      → get_elem? xs n ≡ some e
      → e.prev ≡ some a
      → IsRestored xs a n e₀
  apart_IsRestored n e goes differ there back =
      let new = some (length xs) in
      let first : Element T = record e₀ { next = new } in
      let second : Element T = record e { prev = new } in
      let ys = set xs a first in
      let zs = set ys n second in
      let h-a = in_range xs a at in
      let h-n = in_range xs n there in
      let h-a' : a < length ys = subst (λ k. a < k) (sym (length-set xs a first)) h-a in
      let h-n' : n < length ys = subst (λ k. n < k) (sym (length-set xs a first)) h-n in
      let h-a'' : a < length zs = subst (λ k. a < k) (sym (length-set ys n second)) h-a' in
      let next_back : record e₀ { next = some n } ≡ e₀ =
        ap (λ x. record e₀ { next = x }) (sym goes) in
      let prev_back : record e { prev = some a } ≡ e = ap (λ x. record e { prev = x }) (sym back) in
      record {
        e₁ = e;
        e₂ = first;
        e₃ = second;
        at₁ = get_elem?-set_other xs a first h-a n differ there;
        at₂ =
            get_elem?-set_other ys n second h-n' a (λ q. differ (sym q))
              (get_elem?-set_same xs a first h-a);
        at₃ =
            ap (λ x. get_elem? (set zs a x) n) next_back
            ∙ get_elem?-set_other zs a e₀ h-a'' n differ (get_elem?-set_same ys n second h-n');
        goes = refl;
        same =
            ap (λ x. set (set zs a x) n (record e { prev = some a })) next_back
            ∙ ap (λ x. set (set zs a e₀) n x) prev_back
            ∙ ap (λ k. set k n e) (set_comm ys n a second e₀ h-n' h-a' λ q. differ (sym q))
            ∙ ap (λ k. set (set k n second) n e) (set-set xs a first e₀ h-a ∙ set-stored xs a e₀ at)
            ∙ set-set xs n second e h-n
            ∙ set-stored xs n e there;
      }

  -- The two are the same element, as in an empty list.
  pub alone_IsRestored : e₀.next ≡ some a → e₀.prev ≡ some a → IsRestored xs a a e₀
  alone_IsRestored goes back =
      let new = some (length xs) in
      let first : Element T = record e₀ { next = new } in
      let second : Element T = record first { prev = new } in
      let third : Element T = record second { next = some a } in
      let ys = set xs a first in
      let zs = set ys a second in
      let h = in_range xs a at in
      let h' : a < length ys = subst (λ k. a < k) (sym (length-set xs a first)) h in
      let h'' : a < length zs = subst (λ k. a < k) (sym (length-set ys a second)) h' in
      let next_back : record third { prev = some a } ≡ record e₀ { prev = some a } =
        ap (λ x. record e₀ { next = x; prev = some a }) (sym goes) in
      let prev_back : record e₀ { prev = some a } ≡ e₀ =
        ap (λ x. record e₀ { prev = x }) (sym back) in
      record {
        e₁ = first;
        e₂ = second;
        e₃ = third;
        at₁ = get_elem?-set_same xs a first h;
        at₂ = get_elem?-set_same ys a second h';
        at₃ = get_elem?-set_same zs a third h'';
        goes = refl;
        same =
            set-set zs a third (record third { prev = some a }) h''
            ∙ set-set ys a second (record third { prev = some a }) h'
            ∙ set-set xs a first (record third { prev = some a }) h
            ∙ ap (λ x. set xs a x) (next_back ∙ prev_back)
            ∙ set-stored xs a e₀ at;
      }
