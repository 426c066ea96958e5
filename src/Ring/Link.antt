-- ===== src/Ring/Link.antt =====
-- Link of two rings.
use gbuf.Base.{
  [], ℕ, ◌≡◌, ◌≢◌, refl, sym, ap, ◌∙◌, Option, none, some, List, ◌∷◌, ◌++◌, ok, get_elem?, set,
}
use gbuf.Ring.{Node, Store, next, prev, link}
use gbuf.Ring.Walk.{Walk, arrived, walked, Apart, apart_more, IsRing}
use gbuf.Ring.Seen.{
  some-none, seen, view, Stored, Stored-set, Walk-step, append-Walk, append-Apart, Walk-elsewhere,
}
use gbuf.Ring.Backed.{Backed, Distinct, Distinct-ends, Backed-linked}
use gbuf.Ring.Assigned.{view-linked, prev_of-linked}
use gbuf.Ring.Count.{loaded, next_call}

-- A ring of the element `s`, as the walk to its last element `last`.
pub record IsRingTo {T : Type 0} (h : Store T) (s last : ℕ) (ts : List ℕ) (us : List T) (u : T)
    : Type 0 where
  pub first_node : Node T
  pub second : ℕ
  pub there : get_elem? h s ≡ some first_node
  pub starts : first_node.next ≡ some second
  pub back : first_node.prev ≡ some last
  pub last_node : Node T
  pub last_there : get_elem? h last ≡ some last_node
  pub closes : last_node.next ≡ some s
  pub holds : last_node.value ≡ u
  pub walk : Walk h s ts us last

module _ {T : Type 0} (h : Store T) where
  prev_call :
      (s q : ℕ) (p : Option ℕ) (node : Node T)
      → get_elem? h s ≡ some node
      → node.next ≡ some q
      → node.prev ≡ p
      → prev h s ≡ ok (p, h)
  unfolding prev
  prev_call s q p node there goes back = rw (loaded h s node there, goes, back) refl

  -- The four assignments of Link.
  link_call :
      (r s q p : ℕ) (n₀ n₁ n₂ n₃ : Node T)
      → next h r ≡ ok (some q, h)
      → prev h s ≡ ok (some p, h)
      → get_elem? h r ≡ some n₀
      → (let h₁ = set h r (record n₀ { next = some s }) in
          let h₂ = set h₁ s (record n₁ { prev = some r }) in
          let h₃ = set h₂ q (record n₂ { prev = some p }) in
          get_elem? h₁ s ≡ some n₁
          → get_elem? h₂ q ≡ some n₂
          → get_elem? h₃ p ≡ some n₃
          → link h r (some s) ≡ ok (some q, set h₃ p (record n₃ { next = some q })))
  unfolding link
  link_call r s q p n₀ n₁ n₂ n₃ next_is prev_is at at₁ at₂ at₃ =
      let h₁ = set h r (record n₀ { next = some s }) in
      let h₂ = set h₁ s (record n₁ { prev = some r }) in
      let h₃ = set h₂ q (record n₂ { prev = some p }) in
      rw
        (
          next_is,
          prev_is,
          loaded h r n₀ at,
          loaded h₁ s n₁ at₁,
          loaded h₂ q n₂ at₂,
          loaded h₃ p n₃ at₃,
        )
        refl

module _ {T : Type 0} (h : Store T) where
  view-node :
      (h : Store T) (i : ℕ) (n : Option ℕ) (v : T) (o : Option (Node T))
      → get_elem? h i ≡ o
      → seen o ≡ some (n, v)
      → (node : Node T) × (get_elem? h i ≡ some node) × (node.next ≡ n) × (node.value ≡ v)
  view-node h i n v none there at = absurd (some-none (sym at))
  view-node h i n v (some node) there at = (node, there, cc, cc)

  Walk-Stored : {q r : ℕ} {ps : List ℕ} {vs : List T} → Walk h q ps vs r → Stored h r → Stored h q
  Walk-Stored arrived end = end
  Walk-Stored (walked node there goes walk) end = (node, there)

  value_of :
      {node node' : Node T} (p : ℕ) (h' : Store T)
      → get_elem? h' p ≡ some node'
      → get_elem? h p ≡ some node
      → view h' p ≡ view h p
      → node'.value ≡ node.value
  value_of p h' at' at same = let e = sym (ap seen at') ∙ same ∙ ap seen at in cc

  linked_ring :
      {r s p : ℕ} {ps ts : List ℕ} {u v : T} {us vs : List T} (h' : Store T)
      → (ring : IsRing h r ps v vs) → IsRingTo h s p ts us u
      → r ≢ p
      → Apart r ts
      → Apart p ts
      → Apart p ps
      → view h' p ≡ some (some ring.second, u)
      → view h' r ≡ some (some s, v)
      → ((i : ℕ) → i ≢ r → i ≢ p → view h' i ≡ view h i)
      → IsRing h' r (ts ++ (p ∷ ps)) v (us ++ (u ∷ vs))
  linked_ring {r} {s} {p} {ps} {ts} {u} {v} {us} {vs} h' ring other differ r-ts p-ts p-ps at_p at_r
        elsewhere =
      let (node, there, goes, holds) = view-node h' r (some s) v (get_elem? h' r) refl at_r in
      let rest = Walk-elsewhere h h' elsewhere ring.walk ring.apart p-ps in
      record {
        node = node;
        second = s;
        there = there;
        starts = goes;
        holds = holds;
        walk =
            append-Walk h' (Walk-elsewhere h h' elsewhere other.walk r-ts p-ts)
              (Walk-step h' p ring.second r u ps vs at_p rest);
        apart = append-Apart r-ts (apart_more (λ e. differ (sym e)) ring.apart);
      }

  -- Link of an element of a ring with one of another ring, all of whose elements are different, makes
  -- one ring: from the first element on to the other ring's, up to its last, and then on with the rest
  -- of the first. The prev pointers, which lead to the element before in both rings, do so in that
  -- one. Link returns what came after the first element.
  pub link_refines :
      {r s p : ℕ} {ps ts : List ℕ} {u v : T} {us vs : List T}
      → (ring : IsRing h r ps v vs) → IsRingTo h s p ts us u
      → Backed h r (ps ++ (r ∷ []))
      → Backed h p (ts ++ (p ∷ []))
      → Distinct (ts ++ (p ∷ (ps ++ (r ∷ []))))
      → (h' : Store T) × (link h r (some s) ≡ ok (some ring.second, h'))
        × IsRing h' r (ts ++ (p ∷ ps)) v (us ++ (u ∷ vs))
        × Backed h' r (ts ++ (p ∷ (ps ++ (r ∷ []))))
  link_refines {r} {s} {p} {ps} {ts} {u} {v} {us} {vs} ring other backed backed' d =
      let (differ, r-ts, p-ts, p-ps) = Distinct-ends ts ps d in
      let q = ring.second in
      let n₀ = ring.node in
      let h₁ = set h r (record n₀ { next = some s }) in
      let (n₁, at₁) =
        Stored-set h r n₀ (record n₀ { next = some s }) s ring.there
          (other.first_node, other.there) in
      let h₂ = set h₁ s (record n₁ { prev = some r }) in
      let q-h₁ =
        Stored-set h r n₀ (record n₀ { next = some s }) q ring.there
          (Walk-Stored ring.walk (n₀, ring.there)) in
      let (n₂, at₂) = Stored-set h₁ s n₁ (record n₁ { prev = some r }) q at₁ q-h₁ in
      let h₃ = set h₂ q (record n₂ { prev = some p }) in
      let p-h₁ =
        Stored-set h r n₀ (record n₀ { next = some s }) p ring.there
          (other.last_node, other.last_there) in
      let p-h₂ = Stored-set h₁ s n₁ (record n₁ { prev = some r }) p at₁ p-h₁ in
      let (n₃, at₃) = Stored-set h₂ q n₂ (record n₂ { prev = some p }) p at₂ p-h₂ in
      let called =
        link_call h r s q p n₀ n₁ n₂ n₃ (next_call h r q n₀ ring.there ring.starts)
          (prev_call h s other.second (some p) other.first_node other.there other.starts other.back)
          ring.there at₁ at₂ at₃ in
      let seen_now = view-linked h r s q p n₀ n₁ n₂ n₃ ring.there at₁ at₂ at₃ differ in
      let (back_elsewhere, back_s, back_q) =
        prev_of-linked h r s q p n₀ n₁ n₂ n₃ ring.there at₁ at₂ at₃ in
      (
        set h₃ p (record n₃ { next = some q }),
        called,
        linked_ring (set h₃ p (record n₃ { next = some q })) ring other differ r-ts p-ts p-ps
            (seen_now.0
              ∙ ap (λ x. some (some q, x))
                  (value_of p h₃ at₃ other.last_there seen_now.3 ∙ other.holds))
            (seen_now.1 ∙ ap (λ x. some (some s, x)) ring.holds) seen_now.2,
        Backed-linked other.walk ring.walk d back_elsewhere back_s back_q backed' backed,
      )
