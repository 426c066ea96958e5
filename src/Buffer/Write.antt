-- ===== src/Buffer/Write.antt =====
-- buffer.go: Write and WriteItem.
pub mod Refines
pub mod Room
use gbuf.Base.{
  ℕ, Bool, true, false, Option, none, List, ltb, if◌then◌else◌, Run, ok, ◌>>=◌, ◌>>◌, require,
  length, set, copy_into,
}
use gbuf.Errors.{Error}
use gbuf.Buffer.{Buffer, try_grow_by_reslice, grow}

module _ {T : Type 0} (zero_value : T) (rounded : ℕ → ℕ) where
  -- The first lines of both: the index where the new items start, and the state with room for them.
  unfoldable pub make_room : Buffer T → ℕ → Run (ℕ × Buffer T)
  unfolding try_grow_by_reslice grow
  make_room b n =
      let b1 : Buffer T = record b { is_reading = false } in
      let (m, fits, b2) = try_grow_by_reslice b1 n in
      if fits then ok (m, b2) else grow zero_value rounded b1 n

  unfoldable pub write : Buffer T → List T → Run (ℕ × Option Error × Buffer T)
  unfolding make_room
  write b p = do
    (m, b') ← make_room b (length p)
    (array, n) ← copy_into b'.array m b'.size p
    ok (n, none, record b' { array = array })

  unfoldable pub write_item : Buffer T → T → Run (Option Error × Buffer T)
  unfolding make_room
  write_item b item = do
    (m, b') ← make_room b 1
    require (ltb m b'.size)
    ok (none, record b' { array = set b'.array m item })
