-- ===== src/Ring/Walk.antt =====
-- Rings as walks along the pointers to the next element.
use gbuf.Base.{ℕ, ◌≡◌, ◌≢◌, some, List, [], ◌∷◌, get_elem?}
use gbuf.Ring.{Node, Store}

module _ {T : Type 0} (h : Store T) where
  -- From an element along `next` to another one, over these elements and values; the last is left out.
  pub data Walk : ℕ → List ℕ → List T → ℕ → Type 0 where
    arrived : {p : ℕ} → Walk p [] [] p
    walked :
        {p q r : ℕ} {ps : List ℕ} {vs : List T} (node : Node T)
        → get_elem? h p ≡ some node
        → node.next ≡ some q
        → Walk q ps vs r
        → Walk p (p ∷ ps) (node.value ∷ vs) r

-- The pointer is none of these.
pub data Apart (r : ℕ) : List ℕ → Type 0 where
  apart_none : Apart r []
  apart_more : {p : ℕ} {ps : List ℕ} → p ≢ r → Apart r ps → Apart r (p ∷ ps)

-- A ring of an element and others, with their values in order.
pub record IsRing {T : Type 0} (h : Store T) (r : ℕ) (ps : List ℕ) (v : T) (vs : List T)
    : Type 0 where
  pub node : Node T
  pub second : ℕ
  pub there : get_elem? h r ≡ some node
  pub starts : node.next ≡ some second
  pub holds : node.value ≡ v
  pub walk : Walk h second ps vs r
  pub apart : Apart r ps
