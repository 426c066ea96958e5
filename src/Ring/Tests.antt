-- ===== src/Ring/Tests.antt =====
-- Runs of a Ring at concrete inputs.
use gbuf.Base.{ℕ, ◌≡◌, refl, some, [], ◌∷◌, arith, ok}
use gbuf.Base.Int.{pos, negsuc}
use gbuf.Ring.{Node, Store, new_ring, link, unlink, len, do_each, move}
use gbuf.Ring.Walk.{arrived, walked, apart_none, apart_more, IsRing}
use gbuf.Ring.Count.{ring_lem}
use gbuf.Ring.Backed.{Backed, backed_none, backed_more, distinct_none, distinct_more}
use gbuf.Ring.Link.{IsRingTo, link_refines}

abbrev node : ℕ → ℕ → ℕ → Node ℕ
node q p v = record { next = some q; prev = some p; value = v }

-- A ring of three elements.
abbrev three : Store ℕ
three = node 1 2 7 ∷ node 2 0 8 ∷ node 0 1 9 ∷ []

three-IsRing : IsRing three 0 (1 ∷ 2 ∷ []) 7 (8 ∷ 9 ∷ [])
three-IsRing = record {
  node = node 1 2 7;
  second = 1;
  there = refl;
  starts = refl;
  holds = refl;
  walk = walked (node 2 0 8) refl refl (walked (node 0 1 9) refl refl arrived);
  apart = apart_more (λ e. ground arith) (apart_more (λ e. ground arith) apart_none);
}

ring_lem_example :
    (len 3 three (some 0) ≡ ok (3, three))
    × (do_each 3 three (some 0) ≡ ok (7 ∷ 8 ∷ 9 ∷ [], three))
    × (move three 0 (pos 3) ≡ ok (some 0, three))
ring_lem_example = ring_lem three 3 three-IsRing (omega arith)

new_run : new_ring 5 [] (pos 3) ≡ ok (some 0, node 1 2 5 ∷ node 2 0 5 ∷ node 0 1 5 ∷ [])
unfolding new_ring
new_run = refl

unlink_run : unlink three 0 (pos 1) ≡ ok (some 1, node 2 2 7 ∷ node 1 1 8 ∷ node 0 0 9 ∷ [])
unfolding unlink
unlink_run = refl

back_run : move three 0 (negsuc 0) ≡ ok (some 2, three)
unfolding move
back_run = refl

-- A ring of one element, and one of two.
abbrev apart : Store ℕ
apart = node 0 0 7 ∷ node 2 2 8 ∷ node 1 1 9 ∷ []

abbrev one_ring : IsRing apart 0 [] 7 []
one_ring = record {
  node = node 0 0 7;
  second = 0;
  there = refl;
  starts = refl;
  holds = refl;
  walk = arrived;
  apart = apart_none;
}

two-IsRingTo : IsRingTo apart 1 2 (1 ∷ []) (8 ∷ []) 9
two-IsRingTo = record {
  first_node = node 2 2 8;
  second = 2;
  there = refl;
  starts = refl;
  back = refl;
  last_node = node 1 1 9;
  last_there = refl;
  closes = refl;
  holds = refl;
  walk = walked (node 2 2 8) refl refl arrived;
}

link_refines_example :
    (h' : Store ℕ) × (link apart 0 (some 1) ≡ ok (some 0, h'))
    × IsRing h' 0 (1 ∷ 2 ∷ []) 7 (8 ∷ 9 ∷ [])
    × Backed h' 0 (1 ∷ 2 ∷ 0 ∷ [])
link_refines_example =
    link_refines apart one_ring two-IsRingTo (backed_more refl backed_none)
      (backed_more refl (backed_more refl backed_none))
      (distinct_more (apart_more (λ e. ground arith) (apart_more (λ e. ground arith) apart_none)) (
        distinct_more (apart_more (λ e. ground arith) apart_none)
          (distinct_more apart_none distinct_none)))

link_run : link apart 0 (some 1) ≡ ok (some 0, node 1 2 7 ∷ node 2 0 8 ∷ node 0 1 9 ∷ [])
unfolding link
link_run = refl
