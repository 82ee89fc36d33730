-- ===== src/Tests/Turns.antt =====
-- The threads of src/stream.c at a concrete input: two threads and the two jobs of Jobs, of which the
-- second one is prepared before the first one.
use lrzip_next.Common.{ℕ, ◌+◌, ◌≤◌, ◌≡◌, ◌⊎◌, refl, arith, [], ◌∷◌, Option}
use lrzip_next.Stream.Out.{stream0, stream1}
use lrzip_next.Stream.Backend.Threads.{gzip, compress_try}
use lrzip_next.Stream.Disk.Write.{ChunkOut, write_block, write_blocks}
use lrzip_next.Stream.Turns.{Threads, Reach, here, later, hand_job, prepare, fresh}
use lrzip_next.Stream.Turns.Inv.{Written}
use lrzip_next.Stream.Turns.Progress.{Reach-Written}
use lrzip_next.Stream.Turns.Measure.{count, steps_left, count-le}
use lrzip_next.Stream.Turns.Blocks.{
  Task, Block, job_at, first_try, second_try, Goes, threads-write_blocks,
}
use lrzip_next.Tests.Backend.{libs, levels, sdk, delta_two}
use lrzip_next.Tests.Jobs.{jobs, first, second, literals, jobs-compressed, ctis}

abbrev tries : Task → Option Block
tries = first_try libs libs levels gzip sdk delta_two

abbrev retries : Task → Option Block
retries = second_try libs libs levels gzip sdk delta_two

abbrev write_to : Block → ChunkOut → ChunkOut
write_to b out = write_block 1 b.0 b.1 out

abbrev State : Type 0
State = Threads Task Block ChunkOut

abbrev at_first : State
at_first = fresh 2 2 (job_at jobs) tries retries write_to ctis

abbrev ComesTo : State → Type 0
ComesTo s = Reach 2 2 (job_at jobs) tries retries write_to at_first s

abbrev prepared : (s : State) × ComesTo s
unfolding compress_try
prepared = (
  _,
  later (later (later here (hand_job at_first (omega arith) refl)) (hand_job _ (omega arith) refl))
      (prepare _ 1 (stream1, literals) (stream1, second) (omega arith) refl refl),
)

threads-write_blocks_example :
    Goes libs libs levels gzip sdk delta_two 2 1 jobs
      ((stream0, first) ∷ (stream1, second) ∷ [])
      ctis
      (omega arith)
      jobs-compressed
      prepared.0
    ⊎ (prepared.0.handed ≡ 2)
      × (prepared.0.out ≡ write_blocks 1 ((stream0, first) ∷ (stream1, second) ∷ []) ctis)
threads-write_blocks_example =
    threads-write_blocks libs libs levels gzip sdk delta_two 2 1 jobs
      ((stream0, first) ∷ (stream1, second) ∷ []) ctis (omega arith) jobs-compressed prepared.0
      prepared.1

Reach-Written_example :
    (k : ℕ) × (k ≤ 2) × Written 2 2 (job_at jobs) tries retries write_to ctis k prepared.0.out
Reach-Written_example =
    Reach-Written 2 2 (job_at jobs) tries retries write_to ctis (omega arith) prepared.0 prepared.1

count-le_example :
    count 2 2 (job_at jobs) tries retries write_to prepared.1
      + steps_left 2 2 (job_at jobs) tries retries write_to prepared.0
    ≤ 12
count-le_example = count-le 2 2 (job_at jobs) tries retries write_to ctis (omega arith) prepared.1
