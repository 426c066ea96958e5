-- ===== src/Gbufio/Sizes.antt =====
-- gbufio/reader.go: the constants of the package.
use gbuf.Base.{ℕ}

abbrev pub default_buf_size : ℕ
default_buf_size = 4096

abbrev pub min_read_buffer_size : ℕ
min_read_buffer_size = 16

abbrev pub max_consecutive_empty_reads : ℕ
max_consecutive_empty_reads = 100
