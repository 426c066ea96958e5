-- ===== src/RingBuffer/Stream/ReadFrom.antt =====
-- ReadFrom against the list of unread items, for a reader that delivers its items and ends.
use gbuf.Base.{
  ℕ, zero, suc, ◌+◌, ◌-◌, ◌≤◌, ◌<◌, ◌≡◌, refl, ◌∙◌, ap, Bool, true, none, some, List, [], ◌++◌,
  arith, leb, ok, if◌then◌else◌, length, get_elem?, take, drop, splice, length-append, length-drop,
  length-take, slice-ok, Returns, returns, Returns-map, list_ext,
}
use mathlib.Core.List.{append-nil, append_assoc}
use gbuf.Base.Pointwise.{
  get_elem?-append, get_elem?-drop, get_elem?-take, get_elem?-splice, length-splice,
}
use gbuf.Base.Int.{pos}
use gbuf.Errors.{eof}
use gbuf.Streams.{Source}
use gbuf.RingBuffer.{RingBuffer}
use gbuf.RingBuffer.Contents.{
  rem_ℕ-wrap, ring, wrap, unread_count, IsValid, valid, contents, last_n, Holds, length-contents,
}
use gbuf.RingBuffer.Stored.{stored, contents-stored}
use gbuf.RingBuffer.Stream.{Outcome, return, continue, read_round, read_from_loop, read_from}

-- Keeping the last items twice is keeping them once.
last_n-append :
    {T : Type 0} (n : ℕ) (xs zs : List T) → last_n n (last_n n xs ++ zs) ≡ last_n n (xs ++ zs)
last_n-append n xs zs =
    let kept = drop (length xs - n) xs in
    let d = length (kept ++ zs) - n in
    let d' = length (xs ++ zs) - n in
    list_ext _ _ λ i. ground (
      arith,
      get_elem?-drop d (kept ++ zs) i,
      get_elem?-append kept zs (d + i),
      length-append kept zs,
      length-append xs zs,
      length-drop (length xs - n) xs,
      get_elem?-drop (length xs - n) xs (d + i),
      get_elem?-drop d' (xs ++ zs) i,
      get_elem?-append xs zs (d' + i),
    )

module _ {S T : Type 0} (source : Source S T) (n : ℕ) where
  -- From state `s`, and with the write index at `w` of a buffer of `n` items, the reader delivers
  -- the given items in a number of reads, and then io.EOF. A read fills the slice from its start and
  -- leaves the rest of it as it was.
  pub data Delivers : ℕ → S → List T → ℕ → Type 0 where
    ends :
        {w : ℕ} {s : S} (s' : S)
        → ((b : List T) → length b ≡ n - w → source s b ≡ (pos 0, some eof, b, s'))
        → Delivers w s [] 0
    gives :
        {w : ℕ} {s : S} (s' : S) (chunk rest : List T) (k : ℕ)
        → length chunk ≤ n - w
        → ((b : List T)
            → length b ≡ n - w
            → source s b ≡ (pos (length chunk), none, chunk ++ drop (length chunk) b, s'))
        → Delivers (wrap n (w + length chunk)) s' rest k
        → Delivers w s (chunk ++ rest) (suc k)

module _ {S T : Type 0} (source : Source S T) (f : Bool) (w k : ℕ) (xs : List T)
    (hw : w < length xs) (hk : k < length xs) (at : f ≡ true → k ≡ w) where
  abbrev pub free : List T
  free = take (length xs - w) (drop w xs)

  pub length-free : length free ≡ length xs - w
  length-free = omega (arith, length-take (length xs - w) (drop w xs), length-drop w xs)

  -- The storage after a read that delivered a chunk.
  abbrev pub filled : List T → List T
  filled chunk = splice xs w (take (length free) (chunk ++ drop (length chunk) free))

  pub filled_entries :
      (chunk : List T)
      → length chunk ≤ length xs - w
      → (j : ℕ) → j < length xs
      → get_elem? (filled chunk) j ≡ stored (length xs) w xs chunk j
  filled_entries chunk fits j hj =
      let p = chunk ++ drop (length chunk) free in
      ground (
        arith,
        length-free,
        get_elem?-splice xs w (take (length free) p) j,
        length-take (length free) p,
        length-append chunk (drop (length chunk) free),
        length-drop (length chunk) free,
        get_elem?-take (length free) p (j - w),
        get_elem?-append chunk (drop (length chunk) free) (j - w),
        get_elem?-drop (length chunk) free (j - w - length chunk),
        get_elem?-take (length xs - w) (drop w xs) (length chunk + (j - w - length chunk)),
        get_elem?-drop w xs (length chunk + (j - w - length chunk)),
      )

  pub unchanged : filled [] ≡ xs
  unchanged = list_ext _ _ λ j. ground (
    arith,
    length-free,
    get_elem?-splice xs w (take (length free) free) j,
    length-take (length free) free,
    get_elem?-take (length free) free (j - w),
    get_elem?-take (length xs - w) (drop w xs) (j - w),
    get_elem?-drop w xs (j - w),
  )

  abbrev pub over : List T → Bool
  over chunk = leb (length xs) (unread_count f w k (length xs) + length chunk)

  abbrev pub w' : List T → ℕ
  w' chunk = wrap (length xs) (w + length chunk)

  abbrev pub next_ring : List T → RingBuffer T
  next_ring chunk = ring (over chunk) (w' chunk) (if over chunk then w' chunk else k) (filled chunk)

  pub length-filled : (chunk : List T) → length (filled chunk) ≡ length xs
  length-filled chunk = length-splice xs w (take (length free) (chunk ++ drop (length chunk) free))

  pub next_ring-Holds :
      (chunk : List T)
      → length chunk ≤ length xs - w
      → Holds (length xs) (last_n (length xs) (contents (ring f w k xs) ++ chunk)) (next_ring chunk)
  next_ring-Holds chunk fits =
      let same = length-filled chunk in
      (
        valid (over chunk) (w' chunk) (if over chunk then w' chunk else k) (filled chunk)
            (rw same (ground arith)) (rw same (ground arith)) (ground arith),
        same,
        contents-stored f w k xs chunk (filled chunk) hw hk at (omega arith) same (over chunk)
            (w' chunk) (if over chunk then w' chunk else k) refl refl refl
            (filled_entries chunk fits),
      )

  module _ (n : ℕ) (s s' : S) where
    round-ends :
        ((b : List T) → length b ≡ length xs - w → source s b ≡ (pos 0, some eof, b, s'))
        → read_round source (ring f w k xs) n s ≡ ok (return (n, none, ring f w k xs, s'))
    unfolding read_round
    round-ends e =
        rw (slice-ok xs w (length xs) (omega arith) (omega arith), e free length-free, unchanged)
          (ground arith)

    round-gives :
        (chunk : List T)
        → length chunk ≤ length xs - w
        → ((b : List T)
            → length b ≡ length xs - w
            → source s b ≡ (pos (length chunk), none, chunk ++ drop (length chunk) b, s'))
        → read_round source (ring f w k xs) n s
          ≡ ok (continue (n + length chunk) (next_ring chunk) s')
    unfolding read_round
    round-gives chunk fits e =
        rw
          (
            slice-ok xs w (length xs) (omega arith) (omega arith),
            e free length-free,
            length-splice xs w (take (length free) (chunk ++ drop (length chunk) free)),
          )
          (ground (arith, rem_ℕ-wrap (w + length chunk) (length xs)))

  pub kept :
      (size : ℕ)
      → length xs ≡ size
      → contents (ring f w k xs) ≡ last_n size (contents (ring f w k xs) ++ [])
  kept size z =
      let q = contents (ring f w k xs) in
      let fits : length q - size ≡ 0 = ground (arith, length-contents f w k xs hw hk at) in
      rw append-nil (rw fits)

  pub rejoined :
      (size : ℕ)
      → length xs ≡ size
      → (chunk rest : List T) → length chunk ≤ length xs - w
      → last_n size (contents (next_ring chunk) ++ rest)
        ≡ last_n size (contents (ring f w k xs) ++ (chunk ++ rest))
  rejoined size z chunk rest fits =
      let q = contents (ring f w k xs) in
      let stored_items : contents (next_ring chunk) ≡ last_n size (q ++ chunk) =
        (next_ring-Holds chunk fits).2 ∙ ap (λ n. last_n n (q ++ chunk)) z in
      rw (stored_items, last_n-append, append_assoc)

-- What ReadFrom owes its caller, from a state with the unread items `q` and a reader that delivers
-- `items`, when the count stands at `n`.
abbrev pub ReadFromSpec : {S T : Type 0} → ℕ → List T → ℕ → List T → Outcome S T → Type 0
ReadFromSpec size q n items (count, err, r', s') =
    (count ≡ n + length items) × (err ≡ none) × Holds size (last_n size (q ++ items)) r'

module _ {S T : Type 0} (source : Source S T) where
  read_from_loop_refines :
      (size n : ℕ) {w : ℕ} {s : S} {items : List T} {k : ℕ} (fuel : ℕ) {r : RingBuffer T}
      → Delivers source size w s items k
      → IsValid r
      → r.write ≡ w
      → length r.items ≡ size
      → k < fuel
      → Returns (ReadFromSpec size (contents r) n items) (read_from_loop source fuel r n s)
  unfolding read_from_loop
  read_from_loop_refines size n zero d v e z h = absurd (omega arith)
  read_from_loop_refines size n (suc fuel) {r} (ends s' call) (valid f w k xs hw hk at) e z h =
      let q = contents (ring f w k xs) in
      let ended = round-ends source f w k xs hw hk at n _ s' (λ b eq. call b (omega arith)) in
      rw ended (
        returns
          (omega arith, refl, (valid f w k xs hw hk at, z, kept source f w k xs hw hk at size z)))
  read_from_loop_refines size n (suc fuel) {r} (gives s' chunk rest k' fits call d)
        (valid f w k xs hw hk at) e z h =
      let fits' : length chunk ≤ length xs - w = omega arith in
      let given =
        round-gives source f w k xs hw hk at n _ s' chunk fits' (λ b eq. call b (omega arith)) in
      let (v, same, q) = next_ring-Holds source f w k xs hw hk at chunk fits' in
      rw given (
        Returns-map
          (read_from_loop_refines size (n + length chunk) fuel
            {r = next_ring source f w k xs hw hk at chunk} d v (ground arith) (same ∙ z)
            (omega arith))
          λ (count, err, r', s'') (c, no_error, h'). (
            omega (arith, length-append chunk rest),
            no_error,
            (h'.0, h'.1, h'.2 ∙ rejoined source f w k xs hw hk at size z chunk rest fits'),
          ))

  -- ReadFrom a reader that delivers `items` in `k` reads, each of which leaves the rest of its slice
  -- as it was, and then io.EOF, on fuel above `k`, does not panic and returns their number and no error. The buffer then holds the last items of what was
  -- unread followed by them, as many as the capacity allows.
  pub read_from_refines :
      {r : RingBuffer T} {s : S} {items : List T} {k : ℕ} (fuel : ℕ)
      → IsValid r
      → Delivers source (length r.items) r.write s items k
      → k < fuel
      → Returns (ReadFromSpec (length r.items) (contents r) 0 items) (read_from source fuel r s)
  unfolding read_from
  read_from_refines {r} fuel v d h = read_from_loop_refines (length r.items) 0 fuel d v refl refl h
