-- ===== src/Reader/Tests.antt =====
-- reader.go at small inputs.
use gbuf.Base.{ℕ, none, List, [], ◌∷◌, ◌++◌, length, take, min, Returns}
use gbuf.Base.Int.{pos}
use gbuf.Streams.{Sink}
use gbuf.Reader.{read}
use gbuf.Reader.Refines.{reader, ReadSpec, reader_read_lem}

abbrev items : List ℕ
items = 10 ∷ 11 ∷ 12 ∷ 13 ∷ []

reader_read_lem_example :
    Returns
      (ReadSpec (11 ∷ 12 ∷ 13 ∷ []) items 1 (0 ∷ 0 ∷ []))
      (read (reader items 1 (pos 0)) (0 ∷ 0 ∷ []))
reader_read_lem_example = reader_read_lem items (0 ∷ 0 ∷ []) 1 (pos 0)

-- A writer that takes two items at most.
abbrev two_at_most : Sink (List ℕ) ℕ
two_at_most s b = (pos (min 2 (length b)), none, s ++ take (min 2 (length b)) b)
