-- ===== src/Gbufio/ComparableReader.antt =====
-- gbufio/reader_comparable.go: ComparableReader, a Reader that looks for a delimiter. `eqb` stands
-- for the comparison `==` of the items. The fuel counts rounds of a loop.
pub mod Search
pub mod Windows
pub mod Slice
mod Tests
use gbuf.Base.{
  ℕ, zero, suc, ◌+◌, ◌-◌, Bool, true, false, ◌&&◌, ◌||◌, Option, none, some, List, [], ◌∷◌, ◌++◌,
  ltb, leb, ◌==◌, if◌then◌else◌, Run, ok, panic, out_of_fuel, ◌>>=◌, ◌>>◌, require, length,
  get_elem?, take, drop, replicate, splice, copy_into, slice, min,
}
use gbuf.Base.Int.{ℤ, pos, pos_part, ltb_ℤ, leb_ℤ}
use gbuf.Errors.{Error, buffer_full}
use gbuf.Streams.{Source}
use gbuf.Gbufio.Reader.{Reader, buffered, fill, read_err}

pub record ComparableReader (S T : Type 0) : Type 0 where
  pub reader : Reader S T
  pub delim : T
  pub excluded : Option T

-- The reader given is a ComparableReader, a Reader, or another one. For the last, the method reset
-- writes to the Reader that the new ComparableReader embeds, which is a nil pointer.
unfoldable pub new_comparable_reader :
    {S T : Type 0}
    → Option (ComparableReader S T)
    → Option (Reader S T)
    → ℤ
    → T
    → Run (ComparableReader S T)
new_comparable_reader (some b) r size delim = ok b
new_comparable_reader none (some r) size delim =
    ok (record { reader = r; delim = delim; excluded = none })
new_comparable_reader none none size delim = panic

-- `errors.Is(err, ErrBufferFull)`, at an error that ReadSlice returns; a caller's
-- errors are taken not to wrap it.
abbrev pub is_full : Option Error → Bool
is_full (some buffer_full) = true
is_full _ = false

module _ {T : Type 0} where
  -- The copies of ReadItems, from an index on.
  unfoldable pub join : List T → ℕ → List (List T) → List T → Run (List T)
  join buf n [] frag = do (buf', _) ← copy_into buf n (length buf) frag; ok buf'
  join buf n (piece ∷ full) frag = do
    (buf', m) ← copy_into buf n (length buf) piece
    join buf' (n + m) full frag

module _ {T : Type 0} (eqb : T → T → Bool) where
  -- `slices.Index`, with `none` for -1.
  unfoldable pub index_of : List T → T → Option ℕ
  index_of [] d = none
  index_of (x ∷ xs) d =
      let rest : Option ℕ = elim (index_of xs d) [ none ↦ none | some i ↦ some (suc i) ] in
      if eqb x d then some 0 else rest

  -- Whether the last item of a line, or the one before it, is the excluded one.
  abbrev pub is_excluded : Option T → Option T → Bool
  is_excluded none x = false
  is_excluded (some e) none = false
  is_excluded (some e) (some x) = eqb x e

module _ {S T : Type 0} where
  -- The last lines of ReadSlice.
  abbrev pub mark_last : List T → Reader S T → Reader S T
  mark_last [] b = b
  mark_last (x ∷ line) b = record b { last_item = true }

  -- A round of the loop of ReadSlice, with what the search from an index on found, and with the rest
  -- of the loop.
  unfoldable pub slice_round :
      Reader S T
      → ℕ
      → Option ℕ
      → Run (List T × Option Error × Reader S T × S)
      → S
      → Run (List T × Option Error × Reader S T × S)
  unfolding read_err buffered
  slice_round b from (some i) rest s = do
    line ← slice b.buf b.r (b.r + (i + from) + 1)
    ok (line, none, record b { r = b.r + (i + from + 1) }, s)
  slice_round b from none rest s =
      let failed = do
        line ← slice b.buf b.r b.w
        let (e, b') = read_err (record b { r = b.w })
        ok (line, e, b', s)
      in let unless_full =
          if leb_ℤ (pos (length b.buf)) (buffered b)
          then ok (b.buf, some buffer_full, record b { r = b.w }, s)
          else rest in
        elim b.err [ some e ↦ failed | none ↦ unless_full ]

module _ {S T : Type 0} (eqb : T → T → Bool) where
  unfoldable pub slice_loop :
      ℕ → Reader S T → T → ℕ → S → Run (List T × Option Error × Reader S T × S)
  unfolding slice_round
  slice_loop zero b d from s = out_of_fuel
  slice_loop (suc fuel) b d from s =
      let step = do (b', s') ← fill b s; slice_loop fuel b' d (b.w - b.r) s'
      in slice b.buf (b.r + from) b.w >>= λ window.
      slice_round b from (index_of eqb window d) step s

  unfoldable pub read_slice : ℕ → Reader S T → T → S → Run (List T × Option Error × Reader S T × S)
  unfolding slice_loop
  read_slice fuel b d s = do
    (line, err, b', s') ← slice_loop fuel b d 0 s
    ok (line, err, mark_last line b', s')

  -- ReadLine where the buffer is full.
  unfoldable pub cut_line :
      ComparableReader S T
      → List T
      → S
      → Run (List T × Bool × Option Error × ComparableReader S T × S)
  cut_line b line s =
      let rewound = do
        require (ltb 0 b.reader.r)
        line' ← slice line 0 (length line - 1)
        ok (line', true, none, record b { reader = record b.reader { r = b.reader.r - 1 } }, s)
      in if ltb 0 (length line) && is_excluded eqb b.excluded (get_elem? line (length line - 1))
        then rewound
        else ok (line, true, none, b, s)

  -- ReadLine of a line that is not empty, where the buffer is not full.
  unfoldable pub trim_line :
      ComparableReader S T
      → List T
      → S
      → Run (List T × Bool × Option Error × ComparableReader S T × S)
  trim_line b line s =
      let before = get_elem? line (length line - 2) in
      let drops : ℕ = if ltb 1 (length line) && is_excluded eqb b.excluded before then 2 else 1 in
      let trimmed = do line' ← slice line 0 (length line - drops); ok (line', false, none, b, s)
      in if is_excluded eqb (some b.delim) (get_elem? line (length line - 1))
        then trimmed
        else ok (line, false, none, b, s)

  -- A nil line is an empty one.
  unfoldable pub read_line :
      ℕ → ComparableReader S T → S → Run (List T × Bool × Option Error × ComparableReader S T × S)
  unfolding read_slice cut_line trim_line
  read_line fuel b s = do
    (line, err, r, s') ← read_slice fuel b.reader b.delim s
    let b' : ComparableReader S T = record b { reader = r }
    let ends = if length line == 0 then ok (line, false, err, b', s') else trim_line b' line s'
    if is_full err then cut_line b' line s' else ends

  -- Full buffers, the last fragment, the length of all and the error.
  unfoldable pub collect_fragments :
      ℕ
      → ℕ
      → Reader S T
      → T
      → List (List T)
      → ℕ
      → S
      → Run (List (List T) × List T × ℕ × Option Error × Reader S T × S)
  unfolding read_slice
  collect_fragments zero rounds b d full total s = out_of_fuel
  collect_fragments (suc fuel) rounds b d full total s = do
    (frag, e, b', s') ← read_slice rounds b d s
    let again = collect_fragments fuel rounds b' d (full ++ (frag ∷ [])) (total + length frag) s'
    let last = ok (full, frag, total + length frag, e, b', s')
    if is_full e then again else last

  unfoldable pub read_items :
      ℕ → ℕ → T → Reader S T → T → S → Run (List T × Option Error × Reader S T × S)
  unfolding collect_fragments join
  read_items fuel rounds zero_value b d s = do
    (full, frag, n, err, b', s') ← collect_fragments fuel rounds b d [] 0 s
    buf ← join (replicate n zero_value) 0 full frag
    ok (buf, err, b', s')
