-- ===== src/Ring/Backed.antt =====
-- What the prev pointers of a ring say.
use gbuf.Base.{ℕ, ◌≡◌, ◌≢◌, refl, sym, ap, subst, ◌∙◌, some, List, [], ◌∷◌, ◌++◌}
use mathlib.Core.List.{append_assoc}
use gbuf.Ring.{Store}
use gbuf.Ring.Walk.{Walk, arrived, walked, Apart, apart_none, apart_more}
use gbuf.Ring.Seen.{prev_of}

-- The prev pointer of each of these elements leads to the one before it, and that of the first to `p`.
pub data Backed {T : Type 0} (h : Store T) : ℕ → List ℕ → Type 0 where
  backed_none : {p : ℕ} → Backed h p []
  backed_more : {p q : ℕ} {qs : List ℕ} → prev_of h q ≡ some p → Backed h q qs → Backed h p (q ∷ qs)

-- None of these pointers stands twice.
pub data Distinct : List ℕ → Type 0 where
  distinct_none : Distinct []
  distinct_more : {p : ℕ} {ps : List ℕ} → Apart p ps → Distinct ps → Distinct (p ∷ ps)

pub Apart-append :
    {r : ℕ} (ps : List ℕ) {qs : List ℕ} → Apart r (ps ++ qs) → Apart r ps × Apart r qs
Apart-append [] a = (apart_none, a)
Apart-append (p ∷ ps) (apart_more other a) =
    let (of_ps, of_qs) = Apart-append ps a in (apart_more other of_ps, of_qs)

pub Distinct-append : (ps : List ℕ) {qs : List ℕ} → Distinct (ps ++ qs) → Distinct qs
Distinct-append [] d = d
Distinct-append (p ∷ ps) (distinct_more a d) = Distinct-append ps d

pub Distinct-rest : {p : ℕ} {ps : List ℕ} → Distinct (p ∷ ps) → Apart p ps × Distinct ps
Distinct-rest (distinct_more a d) = (a, d)

pub Apart-head : {r p : ℕ} {ps : List ℕ} → Apart r (p ∷ ps) → (p ≢ r) × Apart r ps
Apart-head (apart_more other a) = (other, a)

-- An element in the middle is apart from those before it and those after it.
pub Distinct-middle :
    {p : ℕ} (ps : List ℕ) {qs : List ℕ} → Distinct (ps ++ (p ∷ qs)) → Apart p ps × Apart p qs
Distinct-middle [] (distinct_more a d) = (apart_none, a)
Distinct-middle (o ∷ ps) (distinct_more a d) =
    let (before, after) = Distinct-middle ps d in
    let (other, _) = Apart-head (Apart-append ps a).1 in
    (apart_more (λ e. other (sym e)) before, after)

-- What that says of the ends of two rings, the second one's elements after the first's.
pub Distinct-ends :
    {r p : ℕ} (ts ps : List ℕ)
    → Distinct (ts ++ (p ∷ (ps ++ (r ∷ []))))
    → (r ≢ p) × Apart r ts × Apart p ts × Apart p ps
Distinct-ends {r} {p} ts ps d =
    let (p-ts, after) = Distinct-middle ts d in
    let (p-ps, p-r) = Apart-append ps after in
    let last : Distinct ((ts ++ (p ∷ ps)) ++ (r ∷ [])) =
      subst Distinct (sym (append_assoc ts (p ∷ ps) (r ∷ []))) d in
    ((Apart-head p-r).0, (Apart-append ts (Distinct-middle (ts ++ (p ∷ ps)) last).0).0, p-ts, p-ps)

module _ {T : Type 0} {h : Store T} where
  -- A walk to an element goes through these elements and it, the first of which it starts at.
  pub Walk-head :
      {s p : ℕ} {ts : List ℕ} {us : List T}
      → Walk h s ts us p
      → (rest : List ℕ) × (ts ++ (p ∷ []) ≡ s ∷ rest)
  Walk-head arrived = ([], refl)
  Walk-head (walked {r = p} {ps = ps} node there goes walk) = (ps ++ (p ∷ []), refl)

  Backed-rest : {p q : ℕ} {qs : List ℕ} → Backed h p (q ∷ qs) → Backed h q qs
  Backed-rest (backed_more at rest) = rest

  Backed-join :
      {r p : ℕ} (ts : List ℕ) {qs : List ℕ}
      → Backed h r (ts ++ (p ∷ []))
      → Backed h p qs
      → Backed h r (ts ++ (p ∷ qs))
  Backed-join [] (backed_more at rest) after = backed_more at after
  Backed-join (t ∷ ts) (backed_more at rest) after = backed_more at (Backed-join ts rest after)

module _ {T : Type 0} {h h' : Store T} where
  Backed-elsewhere :
      {s q p : ℕ} {qs : List ℕ}
      → ((i : ℕ) → i ≢ s → i ≢ q → prev_of h' i ≡ prev_of h i)
      → Backed h p qs
      → Apart s qs
      → Apart q qs
      → Backed h' p qs
  Backed-elsewhere same backed_none a a' = backed_none
  Backed-elsewhere same (backed_more {q = i} at rest) (apart_more other a) (apart_more other' a') =
      backed_more (same i other other' ∙ at) (Backed-elsewhere same rest a a')

  -- The prev pointers of two chains, where those of their first elements were exchanged.
  module _ {s q p r : ℕ} (xs ys : List ℕ)
      (elsewhere : (i : ℕ) → i ≢ s → i ≢ q → prev_of h' i ≡ prev_of h i)
      (at_s : prev_of h' s ≡ some r) (at_q : prev_of h' q ≡ some p) where
    exchanged :
        Distinct ((s ∷ xs) ++ (q ∷ ys))
        → Backed h p (s ∷ xs)
        → Backed h r (q ∷ ys)
        → Backed h' r (s ∷ xs) × Backed h' p (q ∷ ys)
    exchanged d backed backed' =
        let (a, d') = Distinct-rest d in
        let (s-xs, s-rest) = Apart-append xs a in
        let (q-xs, q-ys) = Distinct-middle xs d' in
        (
          backed_more at_s (Backed-elsewhere elsewhere (Backed-rest backed) s-xs q-xs),
          backed_more at_q
              (Backed-elsewhere elsewhere (Backed-rest backed') (Apart-head s-rest).1 q-ys),
        )

  -- Two rings whose prev pointers lead back are one after that exchange.
  pub Backed-linked :
      {s q p r : ℕ} {ts ps : List ℕ} {us vs : List T}
      → Walk h s ts us p
      → Walk h q ps vs r
      → Distinct (ts ++ (p ∷ (ps ++ (r ∷ []))))
      → ((i : ℕ) → i ≢ s → i ≢ q → prev_of h' i ≡ prev_of h i)
      → (s ≢ q → prev_of h' s ≡ some r)
      → prev_of h' q ≡ some p
      → Backed h p (ts ++ (p ∷ []))
      → Backed h r (ps ++ (r ∷ []))
      → Backed h' r (ts ++ (p ∷ (ps ++ (r ∷ []))))
  Backed-linked {s} {q} {p} {r} {ts} {ps} walk walk' d elsewhere at_s at_q backed backed' =
      let (xs, e) = Walk-head walk in
      let (ys, e') = Walk-head walk' in
      let d' : Distinct ((ts ++ (p ∷ [])) ++ (ps ++ (r ∷ []))) =
        subst Distinct (sym (append_assoc ts (p ∷ []) (ps ++ (r ∷ [])))) d in
      let d'' : Distinct ((s ∷ xs) ++ (q ∷ ys)) =
        subst Distinct (ap (λ k. k ++ (ps ++ (r ∷ []))) e ∙ ap (λ k. (s ∷ xs) ++ k) e') d' in
      let differ = (Apart-head (Apart-append xs (Distinct-rest d'').0).1).0 in
      let (joined, joined') =
        exchanged xs ys elsewhere (at_s λ e. differ (sym e)) at_q d'' (subst (Backed h p) e backed)
          (subst (Backed h r) e' backed') in
      Backed-join ts (subst (Backed h' r) (sym e) joined) (subst (Backed h' p) (sym e') joined')
