-- ===== src/Tests/Disk.antt =====
-- The archive file of src/stream.c at a concrete input: a chunk of 200 bytes with two blocks of stream
-- 1, an empty one behind them, and one block of stream 0, in turns.
use lrzip_next.Common.{ℕ, ◌≡◌, refl, arith, true, inl, inr}
use lrzip_next.Common.{List, [], ◌∷◌}
use lrzip_next.Common.Results.{ok}
use lrzip_next.Stream.Out.{StreamNo, stream0, stream1}
use lrzip_next.Stream.Disk.{File, seek}
use lrzip_next.Stream.Disk.Write.{ChunkOut, Packed, begin_chunk, append_block, write_blocks}
use lrzip_next.Stream.Disk.Chain.{Placed}
use lrzip_next.Stream.Disk.Keeps.{Kept, more, preface, begin_chunk-Kept, append_block-Kept}
use lrzip_next.Stream.Disk.Read.{ChunkIn, open_stream_in, fill_stream}
use lrzip_next.Stream.Disk.Blocks.{threads_of}
use lrzip_next.Stream.Disk.Chunk.{write_blocks-read}
use lrzip_next.Stream.Disk.Ends.{open_stream_in-ends}
use lrzip_next.Common.{◌≢◌}
use lrzip_next.Common.Results.{err, no_end}

abbrev old_file : File
old_file = record { byte = λ (i : ℕ). 7; size = 21; ofs = 21 }

abbrev ctis : ChunkOut
ctis = record {
  chunk_bytes = 1;
  chunks = 0;
  size = 200;
  initial_pos = 0;
  cur_pos = 0;
  last_head0 = 0;
  last_head1 = 0;
  file = old_file;
}

abbrev literals : Packed
literals = record { c_type = 7; s_len = 90; s_buf = 1 ∷ 2 ∷ 3 ∷ [] }

abbrev more_literals : Packed
more_literals = record { c_type = 3; s_len = 2; s_buf = 4 ∷ 5 ∷ [] }

abbrev headers : Packed
headers = record { c_type = 3; s_len = 4; s_buf = 9 ∷ 9 ∷ 9 ∷ 9 ∷ [] }

abbrev nothing : Packed
nothing = record { c_type = 3; s_len = 0; s_buf = [] }

abbrev rest : List (StreamNo × Packed)
rest = (stream1, more_literals) ∷ (stream0, headers) ∷ (stream1, nothing) ∷ []

abbrev at_pos : ℕ → Packed → Placed
at_pos pos p = record { pos = pos; c_type = p.c_type; u_len = p.s_len; bytes = p.s_buf }

abbrev written : File
written = (write_blocks 1 ((stream1, literals) ∷ rest) ctis).file

write_blocks-read_example :
    (sinfo : ChunkIn) × (f : File) × (open_stream_in 1 (seek 22 written) ≡ ok (sinfo, f))
    × (sinfo.eof ≡ 1)
    × (sinfo.size ≡ 200)
    × (fill_stream (λ n. true) 4 sinfo stream0 sinfo.last_head0 f
        ≡ ok (threads_of stream0 (at_pos 21 headers ∷ [])))
    × (fill_stream (λ n. true) 4 sinfo stream1 sinfo.last_head1 f
        ≡ ok (
            threads_of stream1
              (at_pos 8 literals ∷ at_pos 15 more_literals ∷ at_pos 29 nothing ∷ [])))
write_blocks-read_example =
    write_blocks-read 1 ctis stream1 literals rest (at_pos 21 headers) (at_pos 8 literals) []
      (at_pos 15 more_literals ∷ at_pos 29 nothing ∷ []) refl refl refl refl (λ n. true) 4
      (λ n. refl) (omega arith) (omega arith) (omega arith) (omega arith, omega arith)
      (omega arith, omega arith) (omega arith, omega arith) (omega arith, omega arith)
      (inl (
        omega arith,
        (omega arith, omega arith, omega arith),
        (omega arith, omega arith, omega arith),
      ))
      (
        (
          omega arith,
          (omega arith, omega arith, omega arith),
          (omega arith, omega arith, omega arith),
        ),
        (omega arith, omega arith, omega arith, omega arith),
        (
          (
            omega arith,
            (omega arith, omega arith, omega arith),
            (omega arith, omega arith, omega arith),
          ),
          (omega arith, omega arith, omega arith, omega arith),
          inr (omega arith, refl, refl, refl),
        ),
      )

-- The chunk's headers are there, and its first block comes.
append_block-Kept_example :
    Kept
      (append_block stream1 literals (begin_chunk 1 ctis))
      (preface 1 ctis refl)
      (more (begin_chunk 1 ctis) literals stream0 stream1 [])
      (more (begin_chunk 1 ctis) literals stream1 stream1 [])
append_block-Kept_example =
    append_block-Kept (begin_chunk 1 ctis) literals stream1 (preface 1 ctis refl) [] []
      (begin_chunk-Kept 1 ctis refl)

-- Every pointer of this file is 1.
abbrev looped : File
looped = record { byte = λ (i : ℕ). 1; size = 500; ofs = 0 }

abbrev looped_in : ChunkIn
looped_in = record {
  chunk_bytes = 1;
  eof = 1;
  size = 200;
  initial_pos = 0;
  last_head0 = 1;
  last_head1 = 1;
}

open_stream_in-ends_example : open_stream_in 1 looped ≢ err no_end
open_stream_in-ends_example = open_stream_in-ends 1 looped
