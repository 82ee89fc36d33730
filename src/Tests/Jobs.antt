-- ===== src/Tests/Jobs.antt =====
-- The jobs of a chunk, src/stream.c, at a concrete input: a block of each stream, of which gzip packs
-- the first one, and the delta filter changes the other.
use lrzip_next.Common.{
  ℕ, ◌+◌, ◌≤◌, ◌≡◌, refl, arith, inl, List, [], ◌∷◌, flatten, map, length-replicate,
}
use lrzip_next.Common.Results.{ok}
use lrzip_next.Stream.Out.{StreamNo, stream0, stream1}
use lrzip_next.Stream.Backend.{CompressThread}
use lrzip_next.Stream.Backend.Threads.{gzip, bzip3}
use lrzip_next.Stream.Disk.{File, seek}
use lrzip_next.Stream.Disk.Write.{ChunkOut, Packed, write_blocks}
use lrzip_next.Stream.Disk.Chain.{Placed}
use lrzip_next.Stream.Disk.Read.{ChunkIn, open_stream_in}
use lrzip_next.Stream.Jobs.{compress_jobs}
use lrzip_next.Stream.Jobs.Laws.{buffers}
use lrzip_next.Stream.Jobs.Archive.{Returns, jobs-round_trip}
use lrzip_next.Tests.Backend.{
  libs, levels, sdk, delta_two, cti, block, law, inv, delta_two-IsFilterUse, not_riscv, cti-IsPlain,
}

abbrev pub literals : CompressThread
literals = record { streamno = 1; c_type = 3; s_len = 71; c_len = 71; s_buf = block }

abbrev pub jobs : List (StreamNo × CompressThread)
jobs = (stream0, cti) ∷ (stream1, literals) ∷ []

abbrev pub first : Packed
first = record { c_type = 7; s_len = 71; s_buf = 5 ∷ [] }

abbrev pub second : Packed
second = record { c_type = 3; s_len = 71; s_buf = map (λ x. x + 2) block }

pub jobs-compressed :
    compress_jobs libs libs levels gzip sdk delta_two jobs
    ≡ ok ((stream0, first) ∷ (stream1, second) ∷ [])
unfolding compress_jobs
jobs-compressed = refl

abbrev pub ctis : ChunkOut
ctis = record {
  chunk_bytes = 1;
  chunks = 0;
  size = 200;
  initial_pos = 0;
  cur_pos = 0;
  last_head0 = 0;
  last_head1 = 0;
  file = record { byte = λ (i : ℕ). 7; size = 21; ofs = 21 };
}

abbrev first_at : Placed
first_at = record { pos = 8; c_type = 7; u_len = 71; bytes = 5 ∷ [] }

abbrev second_at : Placed
second_at = record { pos = 13; c_type = 3; u_len = 71; bytes = map (λ x. x + 2) block }

not_bzip3 : {n : ℕ} → gzip ≡ bzip3 → n ≤ 8
not_bzip3 e = cc

jobs-round_trip_example :
    (sinfo : ChunkIn) × (f : File) × (open_stream_in 1
        (seek 22 (write_blocks 1 ((stream0, first) ∷ (stream1, second) ∷ []) ctis).file)
      ≡ ok (sinfo, f))
    × Returns libs libs levels gzip sdk delta_two law law
        (λ uci. refl)
        inv
        delta_two-IsFilterUse
        not_riscv
        (λ n. refl)
        (λ n. refl)
        (λ n. length-replicate n 0)
        (λ n. length-replicate n 0)
        1
        sinfo
        f
        stream0
        sinfo.last_head0
        (flatten (buffers stream0 jobs))
    × Returns libs libs levels gzip sdk delta_two law law
        (λ uci. refl)
        inv
        delta_two-IsFilterUse
        not_riscv
        (λ n. refl)
        (λ n. refl)
        (λ n. length-replicate n 0)
        (λ n. length-replicate n 0)
        1
        sinfo
        f
        stream1
        sinfo.last_head1
        (flatten (buffers stream1 jobs))
jobs-round_trip_example =
    jobs-round_trip libs libs levels gzip sdk delta_two law law (λ uci. refl) inv
      delta_two-IsFilterUse not_riscv (λ n. refl) (λ n. refl) (λ n. length-replicate n 0)
      (λ n. length-replicate n 0) 1 ctis jobs stream0 first ((stream1, second) ∷ []) first_at
      second_at [] []
      (
        (cti-IsPlain, refl, omega arith),
        ((record { none_yet = refl; len = refl; same = refl }, refl, omega arith), tt),
      )
      (λ e. not_bzip3 e, (λ e. not_bzip3 e, tt)) jobs-compressed refl refl refl refl 1 (omega arith)
      (omega arith) (omega arith) (omega arith, omega arith) (omega arith, omega arith)
      (omega arith, omega arith) (omega arith, omega arith)
      (inl (
        omega arith,
        (omega arith, omega arith, omega arith),
        (omega arith, omega arith, omega arith),
      ))
      (inl (
        omega arith,
        (omega arith, omega arith, omega arith),
        (omega arith, omega arith, omega arith),
      ))
