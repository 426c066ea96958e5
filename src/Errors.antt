-- ===== src/Errors.antt =====
-- errors.go: the error values that the package's functions return, with the ones of Go's `io` and
-- of the readers, writers and filters that a caller supplies.
use gbuf.Base.{ℕ, Bool, true, false, Option, none, some}

pub data Error : Type 0 where
  -- `io.EOF`, `io.ErrShortWrite`, `io.ErrNoProgress`
  eof short_write no_progress : Error
  -- an error of a caller's code; the flag says whether it wraps `io.EOF`
  foreign : ℕ → Bool → Error
  ring_buffer_unread_item ring_filter_unread_item : Error
  ring_filter_invalid_whence : Error
  ring_buffer_negative_read ring_filter_negative_read : Error
  buffer_unread_item reader_at_the_beginning : Error
  reader_invalid_whence reader_negative_position reader_negative_offset : Error
  reader_negative_count : Error
  -- of the package gbufio
  buffer_full invalid_unread_item gbufio_negative_count : Error
  too_long negative_advance advance_too_far bad_read_count final_token : Error
  index_out_of_bounds peek_buffer_index_out_of_bounds : Error

-- `errors.Is(err, io.EOF)`, at an error and at one that may be nil.
abbrev pub is_eof : Error → Bool
is_eof eof = true
is_eof (foreign n b) = b
is_eof _ = false

abbrev pub some_eof : Option Error → Bool
some_eof none = false
some_eof (some e) = is_eof e

-- `err == io.EOF`, which does not look into what an error wraps.
abbrev pub exactly_eof : Option Error → Bool
exactly_eof (some eof) = true
exactly_eof _ = false
