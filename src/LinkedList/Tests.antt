-- ===== src/LinkedList/Tests.antt =====
-- Runs of a List at concrete inputs.
use gbuf.Base.{Returns, ℕ, Option, none, some, [], ◌∷◌, ◌≡◌, refl, Run, ok, ◌>>=◌}
use gbuf.Base.Int.{pos}
use gbuf.LinkedList.{Element, Store, new_list, len}
use gbuf.LinkedList.Inverse.{AreNeighbours, InsertedSpec, at_back, inserts_lem}
use gbuf.LinkedList.Moves.{push_back, push_front, move_to_front, push_back_list}

abbrev entry : ℕ → ℕ → Option ℕ → ℕ → Element ℕ
entry q p l v = record { next = some q; prev = some p; list = l; value = v }

abbrev root_of : ℕ → ℕ → Element ℕ
root_of q p = entry q p none 0

-- Two lists, of two elements and of one.
abbrev two_lists : Store ℕ
two_lists = record {
  elements =
      root_of 1 2
      ∷ entry 2 0 (some 0) 7
      ∷ entry 0 1 (some 0) 8
      ∷ root_of 4 4
      ∷ entry 3 3 (some 1) 9
      ∷ [];
  lists = record { root = 0; len = pos 2 } ∷ record { root = 3; len = pos 1 } ∷ [];
}

-- The two elements of the first list.
abbrev first_two : AreNeighbours two_lists 0 1 2
first_two = record {
  list = record { root = 0; len = pos 2 };
  first = entry 2 0 (some 0) 7;
  second = entry 0 1 (some 0) 8;
  at_list = refl;
  at_first = refl;
  at_second = refl;
  goes = refl;
  back = refl;
}

-- An empty list, whose root is alone.
abbrev empty_list : Store ℕ
empty_list = record { elements = root_of 0 0 ∷ []; lists = record { root = 0; len = pos 0 } ∷ [] }

abbrev root_alone : AreNeighbours empty_list 0 0 0
root_alone = record {
  list = record { root = 0; len = pos 0 };
  first = root_of 0 0;
  second = root_of 0 0;
  at_list = refl;
  at_first = refl;
  at_second = refl;
  goes = refl;
  back = refl;
}

push_back-empty :
    Returns
      (InsertedSpec empty_list 0 5 0 0 (record { root = 0; len = pos 0 }))
      (push_back empty_list 0 5)
push_back-empty = inserts_lem empty_list 0 5 0 0 root_alone (at_back refl refl)

-- The list of 7 and 8, from the empty one.
abbrev built : Run (Store ℕ)
built = do
  (l, h) ← new_list 0 (record { elements = []; lists = [] })
  (_, h') ← push_back h l 8
  (_, h'') ← push_front h' l 7
  ok h''

build_run :
    built
    ≡ ok (record {
      elements = root_of 2 1 ∷ entry 0 2 (some 0) 8 ∷ entry 1 0 (some 0) 7 ∷ [];
      lists = record { root = 0; len = pos 2 } ∷ [];
    })
unfolding new_list push_back push_front
build_run = refl

front_run :
    (move_to_front two_lists 0 (some 2) >>= λ h. ok h.elements)
    ≡ ok (
        root_of 2 1
        ∷ entry 0 2 (some 0) 7
        ∷ entry 1 0 (some 0) 8
        ∷ root_of 4 4
        ∷ entry 3 3 (some 1) 9
        ∷ [])
unfolding move_to_front
front_run = refl

join_run : (push_back_list two_lists 1 1 >>= λ h. len h 1) ≡ ok (pos 2)
unfolding push_back_list len
join_run = refl
