-- ===== src/Stream/Disk/Chunk.antt =====
-- A chunk written by the threads of src/stream.c, and read again.
use lrzip_next.Common.{ℕ, ◌+◌, ◌*◌, ◌^◌, ◌≤◌, ◌<◌, ◌≡◌, refl, ap, ◌∙◌, arith, subst, true}
use lrzip_next.Common.{Bool, List, [], ◌∷◌, length, All}
use lrzip_next.Common.Results.{ok}
use lrzip_next.Bytes.{length-le_bytes}
use lrzip_next.Stream.Out.{StreamNo, stream0, stream1}
use lrzip_next.Stream.Disk.{File, seek, put}
use lrzip_next.Stream.Disk.Write.{ChunkOut, Packed, begin_chunk, write_blocks}
use lrzip_next.Stream.Disk.Chain.{Placed, Chain}
use lrzip_next.Stream.Disk.Keeps.{Kept, preface, first_head}
use lrzip_next.Stream.Disk.Read.{ChunkIn, open_stream_in, fill_stream}
use lrzip_next.Stream.Disk.Blocks.{IsAccepted, threads_of}
use lrzip_next.Stream.Disk.Layout.{layout, first_pos, counted, write_blocks-Kept, write_blocks-base}
use lrzip_next.Stream.Disk.Opening.{opening, opened-read}

abbrev IsFrom : ℕ → Placed → Type 0
IsFrom pos p = pos ≤ p.pos

IsFrom-later : (a b : ℕ) (ps : List Placed) → a ≤ b → All (IsFrom b) ps → All (IsFrom a) ps
IsFrom-later a b [] le h = tt
IsFrom-later a b (p ∷ ps) le h = (omega (arith, h.0), IsFrom-later a b ps le h.1)

layout-IsFrom :
    (wl : ℕ) (sn : StreamNo) (pos : ℕ) (bs : List (StreamNo × Packed))
    → All (IsFrom pos) (layout wl sn pos bs)
layout-IsFrom wl sn pos [] = tt
layout-IsFrom wl stream0 pos ((stream0, p) ∷ bs) = (
  omega arith,
  IsFrom-later pos (pos + (1 + wl * 3) + length p.s_buf)
      (layout wl stream0 (pos + (1 + wl * 3) + length p.s_buf) bs) (omega arith)
      (layout-IsFrom wl stream0 (pos + (1 + wl * 3) + length p.s_buf) bs),
)
layout-IsFrom wl stream0 pos ((stream1, p) ∷ bs) =
    IsFrom-later pos (pos + (1 + wl * 3) + length p.s_buf)
      (layout wl stream0 (pos + (1 + wl * 3) + length p.s_buf) bs) (omega arith)
      (layout-IsFrom wl stream0 (pos + (1 + wl * 3) + length p.s_buf) bs)
layout-IsFrom wl stream1 pos ((stream0, p) ∷ bs) =
    IsFrom-later pos (pos + (1 + wl * 3) + length p.s_buf)
      (layout wl stream1 (pos + (1 + wl * 3) + length p.s_buf) bs) (omega arith)
      (layout-IsFrom wl stream1 (pos + (1 + wl * 3) + length p.s_buf) bs)
layout-IsFrom wl stream1 pos ((stream1, p) ∷ bs) = (
  omega arith,
  IsFrom-later pos (pos + (1 + wl * 3) + length p.s_buf)
      (layout wl stream1 (pos + (1 + wl * 3) + length p.s_buf) bs) (omega arith)
      (layout-IsFrom wl stream1 (pos + (1 + wl * 3) + length p.s_buf) bs),
)

module _ (eof : ℕ) (ctis : ChunkOut) (at_start : ctis.cur_pos ≡ 0) where
  preface-opening :
      preface eof (counted ctis) at_start ≡ opening ctis.file.ofs eof ctis.size ctis.chunk_bytes
  unfolding begin_chunk put
  preface-opening =
      rw (length-le_bytes ctis.chunk_bytes ctis.size, length-le_bytes ctis.chunk_bytes 0) refl

  base-opening :
      (begin_chunk eof (counted ctis)).initial_pos ≡ ctis.file.ofs + 1 + 1 + ctis.chunk_bytes
  unfolding begin_chunk put
  base-opening = ap (λ n. ctis.file.ofs + 1 + 1 + n) (length-le_bytes ctis.chunk_bytes ctis.size)

module _ (eof : ℕ) (ctis : ChunkOut) (sn : StreamNo) (p : Packed) (bs : List (StreamNo × Packed))
    (p0 p1 : Placed) (ps0 ps1 : List Placed) (at_start : ctis.cur_pos ≡ 0)
    (unused : ctis.chunks ≡ 0)
    (blocks0 : layout ctis.chunk_bytes stream0 (first_pos ctis.chunk_bytes) ((sn, p) ∷ bs)
      ≡ p0 ∷ ps0)
    (blocks1 : layout ctis.chunk_bytes stream1 (first_pos ctis.chunk_bytes) ((sn, p) ∷ bs)
      ≡ p1 ∷ ps1) where
  abbrev out : ChunkOut
  out = write_blocks eof ((sn, p) ∷ bs) ctis

  abbrev begins_at : ℕ
  begins_at = ctis.file.ofs + 1 + 1 + ctis.chunk_bytes

  base_is : out.initial_pos ≡ begins_at
  base_is = (write_blocks-base eof ctis at_start unused sn p bs).1 ∙ base-opening eof ctis at_start

  width_is : out.chunk_bytes ≡ ctis.chunk_bytes
  width_is = (write_blocks-base eof ctis at_start unused sn p bs).0

  kept : Kept out (opening ctis.file.ofs eof ctis.size ctis.chunk_bytes) (p0 ∷ ps0) (p1 ∷ ps1)
  kept =
      subst (λ cs. Kept out cs (p0 ∷ ps0) (p1 ∷ ps1)) (preface-opening eof ctis at_start)
        (subst (λ l. Kept out (preface eof (counted ctis) at_start) (p0 ∷ ps0) l) blocks1
          (subst
            (λ l.
              Kept out (preface eof (counted ctis) at_start) l
                (layout ctis.chunk_bytes stream1 (first_pos ctis.chunk_bytes) ((sn, p) ∷ bs)))
            blocks0 (write_blocks-Kept eof ctis at_start unused sn p bs)))

  chain0 :
      Chain begins_at ctis.chunk_bytes out.file.byte out.cur_pos out.last_head0 out.last_head1
        (first_head ctis.chunk_bytes stream0)
        (p0 ∷ ps0)
  chain0 =
      subst
        (λ b.
          Chain b ctis.chunk_bytes out.file.byte out.cur_pos out.last_head0 out.last_head1
            (first_head ctis.chunk_bytes stream0) (p0 ∷ ps0))
        base_is
        (subst
          (λ w.
            Chain out.initial_pos w out.file.byte out.cur_pos out.last_head0 out.last_head1
              (first_head w stream0) (p0 ∷ ps0))
          width_is kept.chain0)

  chain1 :
      Chain begins_at ctis.chunk_bytes out.file.byte out.cur_pos out.last_head1 out.last_head0
        (first_head ctis.chunk_bytes stream1)
        (p1 ∷ ps1)
  chain1 =
      subst
        (λ b.
          Chain b ctis.chunk_bytes out.file.byte out.cur_pos out.last_head1 out.last_head0
            (first_head ctis.chunk_bytes stream1) (p1 ∷ ps1))
        base_is
        (subst
          (λ w.
            Chain out.initial_pos w out.file.byte out.cur_pos out.last_head1 out.last_head0
              (first_head w stream1) (p1 ∷ ps1))
          width_is kept.chain1)

  positive0 : 0 < p0.pos
  positive0 = omega (
    arith,
    (subst (All (IsFrom (first_pos ctis.chunk_bytes))) blocks0
        (layout-IsFrom ctis.chunk_bytes stream0 (first_pos ctis.chunk_bytes) ((sn, p) ∷ bs))).0,
  )

  positive1 : 0 < p1.pos
  positive1 = omega (
    arith,
    (subst (All (IsFrom (first_pos ctis.chunk_bytes))) blocks1
        (layout-IsFrom ctis.chunk_bytes stream1 (first_pos ctis.chunk_bytes) ((sn, p) ∷ bs))).0,
  )

  headers_fit : first_head ctis.chunk_bytes stream1 + ctis.chunk_bytes ≤ out.cur_pos
  headers_fit = omega (arith, chain1.settled.0.0, length-le_bytes ctis.chunk_bytes p1.pos)

  -- Where a fresh chunk has blocks in both streams, its width is 1 to 8 bytes, its size and the first
  -- positions fit that width and are below 2 ^ 63, the blocks are what `fill_buffer` accepts, and memory is granted:
  -- `open_stream_in` reads the flag and the size back from the file, and then the blocks of each stream
  -- are handed to the threads in the order in which they were written, with their types, lengths and
  -- bytes.
  pub write_blocks-read :
      (can_malloc : ℕ → Bool) (fuel : ℕ)
      → ((n : ℕ) → can_malloc n ≡ true)
      → length ps0 < fuel
      → length ps1 < fuel
      → eof < 256
      → (1 ≤ ctis.chunk_bytes) × (ctis.chunk_bytes ≤ 8)
      → (ctis.size < 2 ^ 63) × (ctis.size < 256 ^ ctis.chunk_bytes)
      → (p0.pos < 256 ^ ctis.chunk_bytes) × (p1.pos < 256 ^ ctis.chunk_bytes)
      → (p0.pos < 2 ^ 63) × (p1.pos < 2 ^ 63)
      → IsAccepted ctis.chunk_bytes ctis.size stream0 (p0 ∷ ps0)
      → IsAccepted ctis.chunk_bytes ctis.size stream1 (p1 ∷ ps1)
      → (sinfo : ChunkIn) × (f : File) × (open_stream_in ctis.chunk_bytes
            (seek (ctis.file.ofs + 1) out.file)
          ≡ ok (sinfo, f))
        × (sinfo.eof ≡ eof)
        × (sinfo.size ≡ ctis.size)
        × (fill_stream can_malloc fuel sinfo stream0 sinfo.last_head0 f
            ≡ ok (threads_of stream0 (p0 ∷ ps0)))
        × (fill_stream can_malloc fuel sinfo stream1 sinfo.last_head1 f
            ≡ ok (threads_of stream1 (p1 ∷ ps1)))
  write_blocks-read can_malloc fuel granted lt0 lt1 eof_fits width size_fits fits low acc0 acc1 =
      opened-read out.file ctis.file.ofs eof ctis.size ctis.chunk_bytes out.cur_pos out.last_head0
        out.last_head1 p0 p1 ps0 ps1 chain0 chain1 (omega (arith, kept.long, base_is)) kept.fixed
        eof_fits width size_fits (positive0, fits.0, low.0) (positive1, fits.1, low.1) headers_fit
        can_malloc fuel granted lt0 lt1 acc0 acc1
