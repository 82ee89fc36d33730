-- ===== src/Stream/Jobs/Archive.antt =====
-- The jobs of a chunk through the archive file, src/stream.c: `compthread`, `open_stream_in`,
-- `fill_buffer` and `ucompthread`.
use lrzip_next.Common.{ℕ, ◌+◌, ◌^◌, ◌≤◌, ◌<◌, ◌≡◌, ◌≢◌, sym, subst, true}
use lrzip_next.Common.{List, ◌∷◌, length, flatten, All}
use lrzip_next.Common.Results.{ok}
use lrzip_next.Stream.Out.{StreamNo, stream0, stream1}
use lrzip_next.Stream.Backend.{Libraries, Levels, CompressThread, UncompThread}
use lrzip_next.Stream.Backend.Threads.{Codec, Filters, FilterUse, decompress_buf}
use lrzip_next.Stream.Backend.Laws.{Lossless}
use lrzip_next.Stream.Backend.Block.{Invertible, IsFilterUse}
use lrzip_next.Stream.Disk.{File, seek}
use lrzip_next.Stream.Disk.Write.{ChunkOut, Packed, write_blocks}
use lrzip_next.Stream.Disk.Chain.{Placed}
use lrzip_next.Stream.Disk.Read.{ChunkIn, open_stream_in, fill_stream}
use lrzip_next.Stream.Disk.Blocks.{IsAccepted, threads_of}
use lrzip_next.Stream.Disk.Layout.{layout, first_pos}
use lrzip_next.Stream.Disk.Chunk.{write_blocks-read}
use lrzip_next.Stream.Jobs.{compress_jobs, decompress_threads}
use lrzip_next.Stream.Jobs.Laws.{
  IsJob, IsWithin, buffers, Leaves, compress_jobs-GiveBack, layout-Leaves,
}

module _ (libs later : Libraries) (levels : Levels) (codec : Codec) (sdk : Filters)
    (use_of : FilterUse) (law : Lossless libs levels) (law_later : Lossless later levels)
    (same : (uci : UncompThread) → decompress_buf later levels uci ≡ decompress_buf libs levels uci)
    (inv : Invertible sdk) (valid : IsFilterUse use_of) (no_riscv : use_of.flag ≢ 8)
    (granted : (n : ℕ) → libs.can_malloc n ≡ true)
    (granted_later : (n : ℕ) → later.can_malloc n ≡ true)
    (fresh_size : (n : ℕ) → length (libs.fresh n) ≡ n)
    (fresh_later : (n : ℕ) → length (later.fresh n) ≡ n) where
  -- The threads of a stream, from the pointer `head` of its header on, leave buffers that are `whole`.
  abbrev pub Returns : ℕ → ChunkIn → File → StreamNo → ℕ → List ℕ → Type 0
  Returns fuel sinfo f sn head whole =
      (ts : List UncompThread) × (bss : List (List ℕ)) × (fill_stream libs.can_malloc fuel sinfo sn
          head f
        ≡ ok ts)
      × (decompress_threads libs later levels codec sdk use_of ts ≡ ok bss)
      × (flatten bss ≡ whole)

  returns :
      (fuel : ℕ) (sinfo : ChunkIn) (f : File) (sn : StreamNo) (head : ℕ) (ps : List Placed)
      (whole : List ℕ)
      → fill_stream libs.can_malloc fuel sinfo sn head f ≡ ok (threads_of sn ps)
      → Leaves libs later levels codec sdk use_of law law_later same inv valid no_riscv granted
          granted_later fresh_size fresh_later sn ps whole
      → Returns fuel sinfo f sn head whole
  returns fuel sinfo f sn head ps whole e (bss, d, w) = (threads_of sn ps, bss, e, d, w)

  module _ (eof : ℕ) (ctis : ChunkOut) (js : List (StreamNo × CompressThread)) (sn : StreamNo)
      (p : Packed) (bs : List (StreamNo × Packed)) (p0 p1 : Placed) (ps0 ps1 : List Placed)
      (jobs : All IsJob js) (within : All (IsWithin levels codec) js)
      (compressed : compress_jobs libs later levels codec sdk use_of js ≡ ok ((sn, p) ∷ bs))
      (at_start : ctis.cur_pos ≡ 0) (unused : ctis.chunks ≡ 0)
      (blocks0 : layout ctis.chunk_bytes stream0 (first_pos ctis.chunk_bytes) ((sn, p) ∷ bs)
        ≡ p0 ∷ ps0)
      (blocks1 : layout ctis.chunk_bytes stream1 (first_pos ctis.chunk_bytes) ((sn, p) ∷ bs)
        ≡ p1 ∷ ps1) where
    jobs-Leaves :
        (s : StreamNo) (ps : List Placed)
        → layout ctis.chunk_bytes s (first_pos ctis.chunk_bytes) ((sn, p) ∷ bs) ≡ ps
        → IsAccepted ctis.chunk_bytes ctis.size s ps
        → Leaves libs later levels codec sdk use_of law law_later same inv valid no_riscv granted
            granted_later fresh_size fresh_later s ps
            (flatten (buffers s js))
    jobs-Leaves s ps e acc =
        subst
          (λ l.
            Leaves libs later levels codec sdk use_of law law_later same inv valid no_riscv granted
              granted_later fresh_size fresh_later s l (flatten (buffers s js)))
          e
          (layout-Leaves libs later levels codec sdk use_of law law_later same inv valid no_riscv
            granted granted_later fresh_size fresh_later ctis.chunk_bytes ctis.size s
            (first_pos ctis.chunk_bytes) js ((sn, p) ∷ bs)
            (compress_jobs-GiveBack libs later levels codec sdk use_of law law_later same inv valid
              no_riscv granted granted_later fresh_size fresh_later js ((sn, p) ∷ bs) jobs within
              compressed)
            (subst (IsAccepted ctis.chunk_bytes ctis.size s) (sym e) acc))

    -- With libraries that lose nothing and unpack alike at both tries, decoders that undo their encoders,
    -- a filter other than RISC-V, memory, fresh jobs of less than 4 GiB (for bzip3, within its block
    -- size), a fresh chunk whose width, size and first positions fit and are below 2 ^ 63, and whose blocks
    -- are what `fill_buffer` accepts: when the jobs have been compressed and written, `open_stream_in` reads the chunk, and in each stream the threads that are
    -- started from there leave buffers that are those of the jobs, put together.
    pub jobs-round_trip :
        (fuel : ℕ)
        → length ps0 < fuel
        → length ps1 < fuel
        → eof < 256
        → (1 ≤ ctis.chunk_bytes) × (ctis.chunk_bytes ≤ 8)
        → (ctis.size < 2 ^ 63) × (ctis.size < 256 ^ ctis.chunk_bytes)
        → (p0.pos < 256 ^ ctis.chunk_bytes) × (p1.pos < 256 ^ ctis.chunk_bytes)
        → (p0.pos < 2 ^ 63) × (p1.pos < 2 ^ 63)
        → IsAccepted ctis.chunk_bytes ctis.size stream0 (p0 ∷ ps0)
        → IsAccepted ctis.chunk_bytes ctis.size stream1 (p1 ∷ ps1)
        → (sinfo : ChunkIn) × (f : File) × (open_stream_in ctis.chunk_bytes
              (seek (ctis.file.ofs + 1) (write_blocks eof ((sn, p) ∷ bs) ctis).file)
            ≡ ok (sinfo, f))
          × Returns fuel sinfo f stream0 sinfo.last_head0 (flatten (buffers stream0 js))
          × Returns fuel sinfo f stream1 sinfo.last_head1 (flatten (buffers stream1 js))
    jobs-round_trip fuel lt0 lt1 eof_fits width size_fits fits low acc0 acc1 =
        let (sinfo, f, opens, e, s, fills0, fills1) =
          write_blocks-read eof ctis sn p bs p0 p1 ps0 ps1 at_start unused blocks0 blocks1
            libs.can_malloc fuel granted lt0 lt1 eof_fits width size_fits fits low acc0 acc1 in
        (
          sinfo,
          f,
          opens,
          returns fuel sinfo f stream0 _ (p0 ∷ ps0) _ fills0
              (jobs-Leaves stream0 (p0 ∷ ps0) blocks0 acc0),
          returns fuel sinfo f stream1 _ (p1 ∷ ps1) _ fills1
              (jobs-Leaves stream1 (p1 ∷ ps1) blocks1 acc1),
        )
