-- ===== src/Buffer/Tests.antt =====
-- buffer.go at small inputs. The array of a bigger buffer has just the size asked of append.
use gbuf.Buffer.Stream.{write_to}
use gbuf.Buffer.Stream.WriteTo.{buffer_write_to_refines}
use gbuf.Errors.{short_write}
use gbuf.Base.{min, if◌then◌else◌}
use gbuf.Base.{
  ℕ, ◌+◌, ◌-◌, ◌≤◌, ◌<◌, ◌≡◌, refl, Bool, true, false, Option, none, some, List, [], ◌∷◌, ◌++◌,
  arith, ok, panic, ◌==◌, length, take, drop, ltb, Returns, Run,
}
use gbuf.Buffer.{Buffer}
use gbuf.Buffer.Contents.{IsWithin, contents}
use gbuf.Buffer.Write.{write}
use gbuf.Buffer.Write.Refines.{buffer_write_refines}
use gbuf.Buffer.Read.{read, read_item, unread_item, read_items}
use gbuf.Buffer.Read.Refines.{ReadSpec, buffer_read_refines, unread_item-buffer_read_item}
use gbuf.Buffer.Read.Items.{LineSpec, buffer_read_items_refines}

abbrev exactly : ℕ → ℕ
exactly c = c

-- Unread: 12, 13.
abbrev two : Buffer ℕ
two = record {
  array = 10 ∷ 11 ∷ 12 ∷ 13 ∷ [];
  size = 4;
  off = 2;
  is_reading = true;
  is_nil = false;
}

two-IsWithin : IsWithin two
two-IsWithin = (omega arith, omega arith, λ e. cc)

write_runs :
    write 0 exactly two (1 ∷ [])
    ≡ ok (
      1,
      none,
      record {
        array = 12 ∷ 13 ∷ 1 ∷ 0 ∷ 0 ∷ [];
        size = 3;
        off = 0;
        is_reading = false;
        is_nil = false;
      },
    )
unfolding write gbuf.Base.slice gbuf.Base.copy_into
write_runs = refl

buffer_write_refines_example :
    Returns
      (λ (n, err, b').
        (n ≡ 3)
        × (err ≡ none)
        × IsWithin b'
        × (contents b' ≡ contents two ++ (1 ∷ 2 ∷ 3 ∷ []))
        × (b'.is_reading ≡ false))
      (write 0 exactly two (1 ∷ 2 ∷ 3 ∷ []))
buffer_write_refines_example =
    buffer_write_refines 0 exactly (λ c. omega arith) two (1 ∷ 2 ∷ 3 ∷ []) two-IsWithin
      (omega arith)

buffer_read_refines_example :
    Returns (ReadSpec (contents two) (0 ∷ 0 ∷ 0 ∷ [])) (read two (0 ∷ 0 ∷ 0 ∷ []))
buffer_read_refines_example = buffer_read_refines two (0 ∷ 0 ∷ 0 ∷ []) two-IsWithin

unread_item-buffer_read_item_example :
    Returns
      (λ (item, err, b').
        (contents two ≡ item ∷ contents b')
        × (err ≡ none)
        × IsWithin b'
        × (unread_item b' ≡ (none, record two { is_reading = false })))
      (read_item 0 two)
unfolding contents
unread_item-buffer_read_item_example = unread_item-buffer_read_item 0 two two-IsWithin

abbrev is_twelve : ℕ → Bool
is_twelve x = x == 12

buffer_read_items_refines_example :
    Returns (LineSpec is_twelve (contents two)) (read_items two is_twelve)
buffer_read_items_refines_example = buffer_read_items_refines two is_twelve two-IsWithin

-- A writer that takes one item at most.
abbrev one_at_most : List ℕ → List ℕ → ℕ
one_at_most s b = min 1 (length b)

buffer_write_to_refines_example :
    Returns
      (λ (n, err, b', s').
        (n ≡ 1)
        × (s' ≡ (5 ∷ []) ++ take n (contents two))
        × (contents b' ≡ drop n (contents two))
        × IsWithin b'
        × (s' ≡ (5 ∷ []) ++ take 1 (contents two))
        × (err ≡ (if ltb n 2 then some short_write else none)))
      (write_to (λ s b. (one_at_most s b, none, s ++ take (one_at_most s b) b)) two (5 ∷ []))
unfolding contents
buffer_write_to_refines_example =
    buffer_write_to_refines one_at_most (λ s b. s ++ take (one_at_most s b) b) (λ s. s)
      (λ s b. omega arith) (λ s b. refl) two (5 ∷ []) two-IsWithin
