-- ===== src/Gbufio/Reader/Tests.antt =====
-- Runs of a Reader at concrete inputs.
use gbuf.Base.{
  ℕ, ◌≡◌, refl, ◌⊎◌, none, some, List, [], ◌∷◌, ◌++◌, arith, min, true, false, leb, if◌then◌else◌,
  ok, panic, slice, copy_into, length, take, splice, Returns,
}
use gbuf.Base.Pointwise.{length-splice}
use gbuf.Base.Int.{pos}
use gbuf.Errors.{Error, eof, invalid_unread_item}
use gbuf.Streams.{Source}
use gbuf.Gbufio.Reader.{Reader, fill, try_reads, read_at}
use gbuf.Gbufio.Reader.Peek.{peek, discard}
use gbuf.Gbufio.Reader.Read.{read, read_item, unread_item}
use gbuf.Gbufio.Reader.Stream.{Honest}
use gbuf.Gbufio.Reader.Fill.{reader}
use gbuf.Gbufio.Reader.Items.{ItemSpec, read_item_lem, read_item-unread_item}
use gbuf.Gbufio.Reader.Slices.{ReadSpec, read_lem}
use gbuf.Gbufio.Reader.Ahead.{PeekSpec, peek_refines}

-- A reader that gives an item at a time, and io.EOF from the fourth call on.
abbrev sevens : Source (List ℕ) ℕ
sevens s p =
    let held = splice p 0 (7 ∷ []) in
    let count = min 1 (length p) in
    (pos count, (if leb 3 (length s) then some eof else none), held, s ++ take count held)

sevens-Honest : Honest sevens (λ s. s)
sevens-Honest = record {
  count = λ s p. min 1 (length p);
  fail = λ s p. if leb 3 (length s) then some eof else none;
  holds = λ s p. splice p 0 (7 ∷ []);
  after = λ s p. s ++ take (min 1 (length p)) (splice p 0 (7 ∷ []));
  answers = λ s p. refl;
  fits = λ s p. omega arith;
  whole = λ s p. length-splice p 0 (7 ∷ []);
  logs = λ s p. refl;
}

abbrev one_left : Reader (List ℕ) ℕ
one_left = reader (1 ∷ 2 ∷ 3 ∷ []) sevens 1 2 none false

abbrev none_buffered : Reader (List ℕ) ℕ
none_buffered = reader (1 ∷ 2 ∷ 3 ∷ []) sevens 2 2 none false

read_item_lem_example :
    Returns (ItemSpec (λ s. s) none_buffered []) (read_item 2 0 none_buffered [])
read_item_lem_example =
    read_item_lem sevens-Honest none_buffered [] 0 0 refl (omega arith, omega arith) (omega arith)

read_item-unread_item_example :
    Returns
      (λ (c, err, b', s').
        (unread_item b' ≡ ok (some invalid_unread_item, b')) ⊎ (e : Error) × (err ≡ some e))
      (read_item 2 0 none_buffered [])
read_item-unread_item_example =
    read_item-unread_item sevens-Honest none_buffered [] 0 0 refl (omega arith, omega arith)
      (omega arith)

read_lem_example :
    Returns (ReadSpec (λ s. s) none_buffered (5 ∷ 6 ∷ []) []) (read none_buffered (5 ∷ 6 ∷ []) [])
read_lem_example =
    read_lem sevens-Honest none_buffered (5 ∷ 6 ∷ []) [] refl (omega arith, omega arith)

peek_refines_example : Returns (PeekSpec (λ s. s) one_left 3 []) (peek 4 one_left (pos 3) [])
peek_refines_example =
    peek_refines sevens-Honest one_left 3 3 [] refl (omega arith, omega arith) (omega arith)

read_item_run :
    read_item 2 0 none_buffered []
    ≡ ok (7, none, reader (7 ∷ 2 ∷ 3 ∷ []) sevens 1 1 none true, 7 ∷ [])
unfolding read_item fill try_reads read_at slice copy_into
read_item_run = refl

read_run :
    read one_left (5 ∷ 6 ∷ []) []
    ≡ ok (1, none, 2 ∷ 6 ∷ [], reader (1 ∷ 2 ∷ 3 ∷ []) sevens 2 2 none true, [])
unfolding read slice copy_into
read_run = refl

peek_run :
    peek 4 one_left (pos 3) []
    ≡ ok (2 ∷ 7 ∷ 7 ∷ [], none, reader (2 ∷ 7 ∷ 7 ∷ []) sevens 0 3 none false, 7 ∷ 7 ∷ [])
unfolding peek fill try_reads read_at slice copy_into
peek_run = refl

discard_run :
    discard 5 one_left (pos 3) []
    ≡ ok (pos 3, none, reader (7 ∷ 2 ∷ 3 ∷ []) sevens 1 1 none false, 7 ∷ 7 ∷ [])
unfolding discard fill try_reads read_at slice copy_into
discard_run = refl

unread_run : unread_item one_left ≡ panic
unfolding unread_item
unread_run = refl
