-- ===== src/Ring/Seen.antt =====
-- What a walk sees of a store, and how an assignment changes it.
use gbuf.Base.{
  ℕ, ◌≡◌, ◌≢◌, refl, sym, ap, subst, ◌∙◌, inl, inr, Option, none, some, List, ◌∷◌, ◌++◌, arith,
  ◌==◌, if◌then◌else◌, Bool-cases, Bool, true, false, get_elem?, set,
}
use gbuf.Base.Pointwise.{get_elem?-set, get_elem?-out}
use gbuf.Ring.{Node, Store}
use gbuf.Ring.Walk.{Walk, arrived, walked, Apart, apart_none, apart_more}

pub some-none : {A : Type 0} {x : A} → some x ≢ none
some-none e = ground arith

module _ {A : Type 0} {t : Bool} (x y : A) where
  pub if-true : t ≡ true → (if t then x else y) ≡ x
  if-true e = rw e refl

  pub if-false : t ≡ false → (if t then x else y) ≡ y
  if-false e = rw e refl

module _ {T : Type 0} where
  -- What a walk sees of an element.
  abbrev pub seen : Option (Node T) → Option (Option ℕ × T)
  seen none = none
  seen (some node) = some (node.next, node.value)

  abbrev pub view : Store T → ℕ → Option (Option ℕ × T)
  view h i = seen (get_elem? h i)

  abbrev pub Stored : Store T → ℕ → Type 0
  Stored h i = (node : Node T) × (get_elem? h i ≡ some node)

  set-at :
      (h : Store T) (i : ℕ) (node node' : Node T) (j : ℕ)
      → get_elem? h i ≡ some node
      → get_elem? (set h i node') j ≡ (if i == j then some node' else get_elem? h j)
  set-at h i node node' j there = get_elem?-set h i node' j (ground (arith, get_elem?-out h i))

  pub Stored-set :
      (h : Store T) (i : ℕ) (node node' : Node T) (j : ℕ)
      → get_elem? h i ≡ some node
      → Stored h j
      → Stored (set h i node') j
  Stored-set h i node node' j there (other, at) = elim (Bool-cases (i == j)) [
    | inl same ↦ (node', set-at h i node node' j there ∙ (rw same refl))
    | inr apart ↦ (other, set-at h i node node' j there ∙ (rw apart at))
  ]

  module _ {X : Type 0} (f : Option (Node T) → X) (h : Store T) (i : ℕ) (node node' : Node T)
      (j : ℕ) (there : get_elem? h i ≡ some node) where
    -- What is read of the elements, after one of them was replaced.
    replaced :
        f (get_elem? (set h i node') j) ≡ (if i == j then f (some node') else f (get_elem? h j))
    replaced = elim (Bool-cases (i == j)) [
      | inl same ↦
          let new : get_elem? (set h i node') j ≡ some node' =
            set-at h i node node' j there ∙ (rw same refl) in
          ap f new ∙ sym (if-true (f (some node')) (f (get_elem? h j)) same)
      | inr apart ↦
          let old : get_elem? (set h i node') j ≡ get_elem? h j =
            set-at h i node node' j there ∙ (rw apart refl) in
          ap f old ∙ sym (if-false (f (some node')) (f (get_elem? h j)) apart)
    ]

    kept : f (some node') ≡ f (some node) → f (get_elem? (set h i node') j) ≡ f (get_elem? h j)
    kept unchanged = elim (Bool-cases (i == j)) [
      | inl same ↦
          let e : i ≡ j = ground arith in
          replaced
          ∙ if-true (f (some node')) (f (get_elem? h j)) same
          ∙ unchanged
          ∙ sym (ap f (subst (λ k. get_elem? h k ≡ some node) e there))
      | inr apart ↦ replaced ∙ if-false (f (some node')) (f (get_elem? h j)) apart
    ]

  -- The prev pointers are not seen.
  pub view-prev :
      (h : Store T) (i : ℕ) (node : Node T) (q : Option ℕ) (j : ℕ)
      → get_elem? h i ≡ some node
      → view (set h i (record node { prev = q })) j ≡ view h j
  view-prev h i node q j there = kept seen h i node (record node { prev = q }) j there refl

  pub view-next :
      (h : Store T) (i : ℕ) (node : Node T) (q : Option ℕ) (j : ℕ)
      → get_elem? h i ≡ some node
      → view (set h i (record node { next = q })) j
        ≡ (if i == j then some (q, node.value) else view h j)
  view-next h i node q j there = replaced seen h i node (record node { next = q }) j there

  -- Where the prev pointer of an element leads.
  abbrev pub back : Option (Node T) → Option ℕ
  back none = none
  back (some node) = node.prev

  abbrev pub prev_of : Store T → ℕ → Option ℕ
  prev_of h i = back (get_elem? h i)

  pub prev_of-next :
      (h : Store T) (i : ℕ) (node : Node T) (q : Option ℕ) (j : ℕ)
      → get_elem? h i ≡ some node
      → prev_of (set h i (record node { next = q })) j ≡ prev_of h j
  prev_of-next h i node q j there = kept back h i node (record node { next = q }) j there refl

  pub prev_of-prev :
      (h : Store T) (i : ℕ) (node : Node T) (q : Option ℕ) (j : ℕ)
      → get_elem? h i ≡ some node
      → prev_of (set h i (record node { prev = q })) j ≡ (if i == j then q else prev_of h j)
  prev_of-prev h i node q j there = replaced back h i node (record node { prev = q }) j there

  step_from :
      {h : Store T} {p q r : ℕ} {v : T} {ps : List ℕ} {vs : List T} (o : Option (Node T))
      → get_elem? h p ≡ o
      → seen o ≡ some (some q, v)
      → Walk h q ps vs r
      → Walk h p (p ∷ ps) (v ∷ vs) r
  step_from none there at walk = absurd (some-none (sym at))
  step_from {h} {p} {q} {r} {v} {ps} {vs} (some node) there at walk =
      let goes : node.next ≡ some q = cc in
      let holds : node.value ≡ v = cc in
      subst (λ x. Walk h p (p ∷ ps) (x ∷ vs) r) holds (walked node there goes walk)

  pub Walk-step :
      (h : Store T) (p q r : ℕ) (v : T) (ps : List ℕ) (vs : List T)
      → view h p ≡ some (some q, v)
      → Walk h q ps vs r
      → Walk h p (p ∷ ps) (v ∷ vs) r
  Walk-step h p q r v ps vs at walk = step_from (get_elem? h p) refl at walk

  pub append-Walk :
      (h : Store T) {a b c : ℕ} {ps qs : List ℕ} {vs ws : List T}
      → Walk h a ps vs b
      → Walk h b qs ws c
      → Walk h a (ps ++ qs) (vs ++ ws) c
  append-Walk h arrived w' = w'
  append-Walk h (walked node there goes walk) w' = walked node there goes (append-Walk h walk w')

pub append-Apart : {r : ℕ} {ps qs : List ℕ} → Apart r ps → Apart r qs → Apart r (ps ++ qs)
append-Apart apart_none a = a
append-Apart (apart_more other apart) a = apart_more other (append-Apart apart a)

module _ {T : Type 0} (h h' : Store T) where
  -- A walk past two elements goes the same way in a store that differs from this one there.
  pub Walk-elsewhere :
      {r p q end : ℕ} {ps : List ℕ} {vs : List T}
      → ((i : ℕ) → i ≢ r → i ≢ p → view h' i ≡ view h i)
      → Walk h q ps vs end
      → Apart r ps
      → Apart p ps
      → Walk h' q ps vs end
  Walk-elsewhere same arrived apart apart' = arrived
  Walk-elsewhere {q = q} same (walked {q = q'} {r = end} {ps = ps} {vs = vs} node there goes walk)
        (apart_more other apart) (apart_more other' apart') =
      Walk-step h' q q' end node.value ps vs
        (same q other other' ∙ ap seen there ∙ ap (λ x. some (x, node.value)) goes)
        (Walk-elsewhere same walk apart apart')
