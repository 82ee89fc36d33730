-- ===== src/Stream/Turns/Blocks.antt =====
-- The threads of src/stream.c at work on the jobs of a chunk: whatever the order of their steps, the
-- archive file becomes the one that the blocks written in their order make.
use lrzip_next.Common.{ℕ, zero, suc, ◌≤◌, ◌<◌, ◌≡◌, ◌⊎◌, refl, sym, ap, ap₂, ◌∙◌, arith, subst}
use lrzip_next.Common.{inl, inr, Option, none, some, List, [], ◌∷◌, length, get_or}
use lrzip_next.Common.Results.{fatal, Result, ok, err, ◌>>=◌}
use lrzip_next.Stream.Out.{StreamNo, stream0}
use lrzip_next.Stream.Backend.{Libraries, Levels, CompressThread, ctype_none}
use lrzip_next.Stream.Backend.Threads.{
  Codec, Filters, FilterUse, filter_encode, filter_revert, compress_try, compress_block,
}
use lrzip_next.Stream.Disk.Write.{ChunkOut, Packed, write_block, write_blocks}
use lrzip_next.Stream.Jobs.{packed_of, compress_jobs}
use lrzip_next.Stream.Jobs.Laws.{compressed_parts, or_none}
use lrzip_next.Stream.Turns.{Threads, Step}
use lrzip_next.Stream.Turns.Inv.{Written, begin, write_next}
use lrzip_next.Stream.Turns.Progress.{Reached, Reach-steps}

abbrev pub Task : Type 0
Task = StreamNo × CompressThread

abbrev pub Block : Type 0
Block = StreamNo × Packed

-- No thread is given these two.
abbrev no_task : Task
no_task = (stream0, record { streamno = 0; c_type = ctype_none; s_len = 0; c_len = 0; s_buf = [] })

abbrev no_block : Block
no_block = (stream0, record { c_type = ctype_none; s_len = 0; s_buf = [] })

abbrev pub job_at : List Task → ℕ → Task
job_at js k = get_or js k no_task

-- A try that leaves no block: it has failed, or it has ended the program.
abbrev pub settle : StreamNo → Result (Option CompressThread) → Option Block
settle sn (ok (some cti)) = some (sn, packed_of cti)
settle sn (ok none) = none
settle sn (err e) = none

-- What `write_block` makes of the first `k` blocks.
abbrev runs : ℕ → List Block → ChunkOut → ℕ → ChunkOut
runs eof bs ctis zero = ctis
runs eof bs ctis (suc k) =
    write_block eof (get_or bs k no_block).0 (get_or bs k no_block).1 (runs eof bs ctis k)

runs-cons :
    (eof : ℕ) (b : Block) (bs : List Block) (ctis : ChunkOut) (k : ℕ)
    → runs eof (b ∷ bs) ctis (suc k) ≡ runs eof bs (write_block eof b.0 b.1 ctis) k
runs-cons eof b bs ctis zero = refl
runs-cons eof b bs ctis (suc k) =
    ap (write_block eof (get_or bs k no_block).0 (get_or bs k no_block).1)
      (runs-cons eof b bs ctis k)

runs-length :
    (eof : ℕ) (bs : List Block) (ctis : ChunkOut)
    → runs eof bs ctis (length bs) ≡ write_blocks eof bs ctis
unfolding write_blocks
runs-length eof [] ctis = refl
runs-length eof (b ∷ bs) ctis =
    runs-cons eof b bs ctis (length bs) ∙ runs-length eof bs (write_block eof b.0 b.1 ctis)

module _ (libs later : Libraries) (levels : Levels) (codec : Codec) (sdk : Filters)
    (use_of : FilterUse) where
  abbrev pub first_try : Task → Option Block
  first_try j = settle j.0 (compress_try libs levels codec sdk use_of j.1)

  -- With the buffer that the first try has left, its filter reverted.
  abbrev pub second_try : Task → Option Block
  second_try j =
      let reverted =
        filter_revert sdk use_of j.1.streamno (filter_encode sdk use_of j.1.streamno j.1.s_buf) in
      settle j.0 (compress_try later levels codec sdk use_of (record j.1 { s_buf = reverted }))

  decides :
      (sn : StreamNo) (r s : Result (Option CompressThread)) (cti : CompressThread)
      → (r >>= λ first. elim first [
        | some c ↦ ok c
        | none ↦ s >>= λ second. elim second [ some c ↦ ok c | none ↦ err fatal ]
      ])
        ≡ ok cti
      → (settle sn r ≡ some (sn, packed_of cti))
        ⊎ (settle sn r ≡ none) × (settle sn s ≡ some (sn, packed_of cti))
  decides sn (ok (some c)) s cti e = inl (cc)
  decides sn (ok none) (ok (some c)) cti e = inr (refl, cc)
  decides sn (ok none) (ok none) cti e = cc
  decides sn (ok none) (err x) cti e = cc
  decides sn (err x) s cti e = cc

  -- A job that `compress_block` does makes that block, and no other.
  compress_block-Decided :
      (j : Task) (cti : CompressThread)
      → compress_block libs later levels codec sdk use_of j.1 ≡ ok cti
      → (first_try j ≡ some (j.0, packed_of cti))
        ⊎ (first_try j ≡ none) × (second_try j ≡ some (j.0, packed_of cti))
  unfolding compress_block
  compress_block-Decided j cti e =
      decides j.0 (compress_try libs levels codec sdk use_of j.1) _ cti e

  abbrev Decided : Task → Block → Type 0
  Decided j b = (first_try j ≡ some b) ⊎ (first_try j ≡ none) × (second_try j ≡ some b)

  compress_jobs-Decided :
      (js : List Task) (bs : List Block)
      → compress_jobs libs later levels codec sdk use_of js ≡ ok bs
      → (length bs ≡ length js)
        × ((k : ℕ) → k < length js → Decided (job_at js k) (get_or bs k no_block))
  unfolding compress_jobs
  compress_jobs-Decided [] bs e =
      (ap length (sym (ap or_none e)), λ k lt. absurd (omega (arith, lt)))
  compress_jobs-Decided (j ∷ js) bs e =
      let (cti, rest, r, s, b) =
        compressed_parts j.0 (compress_block libs later levels codec sdk use_of j.1)
          (compress_jobs libs later levels codec sdk use_of js) bs e in
      let (n, each) = compress_jobs-Decided js rest s in
      subst
        (λ l.
          (length l ≡ suc (length js))
          × ((k : ℕ) → k < suc (length js) → Decided (job_at (j ∷ js) k) (get_or l k no_block)))
        b (ap suc n, at_each j js cti rest r each)
    where
      at_each :
          (j : Task) (js : List Task) (cti : CompressThread) (rest : List Block)
          → compress_block libs later levels codec sdk use_of j.1 ≡ ok cti
          → ((k : ℕ) → k < length js → Decided (job_at js k) (get_or rest k no_block))
          → (k : ℕ) → k < suc (length js)
          → Decided (job_at (j ∷ js) k) (get_or ((j.0, packed_of cti) ∷ rest) k no_block)
      at_each j js cti rest r each zero lt = compress_block-Decided j cti r
      at_each j js cti rest r each (suc k) lt = each k (omega (arith, lt))

  module _ (n eof : ℕ) (js : List Task) (bs : List Block) (ctis : ChunkOut) (some_threads : 0 < n)
      (compressed : compress_jobs libs later levels codec sdk use_of js ≡ ok bs) where
    -- The file is what the threads write to.
    abbrev put_block : Block → ChunkOut → ChunkOut
    put_block b out = write_block eof b.0 b.1 out

    abbrev pub Working : Threads Task Block ChunkOut → Type 0
    Working s = Reached n (length js) (job_at js) first_try second_try put_block ctis some_threads s

    abbrev pub Goes : Threads Task Block ChunkOut → Type 0
    Goes s =
        (t : Threads Task Block ChunkOut) × Step n (length js) (job_at js) first_try second_try
          put_block s t

    unique : (j : Task) (a b : Block) → Decided j a → Decided j b → a ≡ b
    unique j a b (inl x) (inl y) = cc
    unique j a b (inl x) (inr y) = cc
    unique j a b (inr x) (inl y) = cc
    unique j a b (inr x) (inr y) = cc

    Written-runs :
        {k : ℕ} {s : ChunkOut}
        → Written n (length js) (job_at js) first_try second_try put_block ctis k s
        → k ≤ length js
        → s ≡ runs eof bs ctis k
    Written-runs begin le = refl
    Written-runs (write_next {k} {s} {p} w m) le =
        ap₂ put_block
          (unique (job_at js k) p (get_or bs k no_block) m
            ((compress_jobs-Decided js bs compressed).1 k (omega (arith, le))))
          (Written-runs w (omega (arith, le)))

    succeeds :
        (k : ℕ)
        → k < length js
        → first_try (job_at js k) ≡ none
        → (b : Block) × (second_try (job_at js k) ≡ some b)
    succeeds k lt e = elim ((compress_jobs-Decided js bs compressed).1 k lt) [
      | inl x ↦ absurd (differ (sym e ∙ x))
      | inr x ↦ (get_or bs k no_block, x.1)
    ]
      where
        differ : ◌≡◌ {A = Option Block} none (some (get_or bs k no_block)) → ⊥
        differ x = cc

    -- Where the jobs of a chunk can be compressed one after another, first try or second: whatever the
    -- number of the threads and the order of their steps so far, there is a next step, or all jobs have
    -- been handed over and the file is that of the blocks written one after another.
    pub threads-write_blocks :
        (s : Threads Task Block ChunkOut)
        → Working s
        → Goes s ⊎ (s.handed ≡ length js) × (s.out ≡ write_blocks eof bs ctis)
    threads-write_blocks s r =
        elim (Reach-steps n (length js) (job_at js) first_try second_try put_block ctis some_threads
          succeeds s r) [
            | inl goes ↦ inl goes
            | inr (all, w) ↦ inr (
              all,
              Written-runs w (omega arith)
                  ∙ ap (runs eof bs ctis) (sym (compress_jobs-Decided js bs compressed).0)
                  ∙ runs-length eof bs ctis,
            )
          ]
