-- ===== src/Stream/Jobs.antt =====
-- The jobs of a chunk, src/stream.c: each block goes through `compthread` into the file, and through
-- `ucompthread` out of it.
pub mod Laws
pub mod Archive
use lrzip_next.Common.{ℕ, ltb, if◌then◌else◌, List, [], ◌∷◌, length, take}
use lrzip_next.Common.Results.{fatal, Result, ok, err, ◌>>=◌}
use lrzip_next.Stream.Out.{StreamNo}
use lrzip_next.Stream.Backend.{Libraries, Levels, CompressThread, UncompThread}
use lrzip_next.Stream.Backend.Threads.{Codec, Filters, FilterUse, compress_block, decompress_block}
use lrzip_next.Stream.Disk.Write.{Packed}

-- What a thread has for the file: `c_len` bytes of its buffer.
abbrev pub packed_of : CompressThread → Packed
packed_of cti = record { c_type = cti.c_type; s_len = cti.s_len; s_buf = take cti.c_len cti.s_buf }

-- A length that the buffer does not have is fatal when `write_buf` writes it: the -1 that bzip3 leaves
-- when it fails.
abbrev pub to_write : CompressThread → Result Packed
to_write cti = if ltb (length cti.s_buf) cti.c_len then err fatal else ok (packed_of cti)

module _ (libs later : Libraries) (levels : Levels) (codec : Codec) (sdk : Filters)
    (use_of : FilterUse) where
  -- One thread for each job, in their order.
  unfoldable pub compress_jobs :
      List (StreamNo × CompressThread) → Result (List (StreamNo × Packed))
  unfolding compress_block
  compress_jobs [] = ok []
  compress_jobs (j ∷ js) = do
    cti ← compress_block libs later levels codec sdk use_of j.1
    p ← to_write cti
    rest ← compress_jobs js
    ok ((j.0, p) ∷ rest)

  -- The buffers that the threads of a stream leave.
  unfoldable pub decompress_threads : List UncompThread → Result (List (List ℕ))
  unfolding decompress_block
  decompress_threads [] = ok []
  decompress_threads (t ∷ ts) = do
    uci ← decompress_block libs later levels sdk use_of t
    rest ← decompress_threads ts
    ok (uci.s_buf ∷ rest)
