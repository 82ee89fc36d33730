-- ===== src/Stream/Disk/Layout.antt =====
-- Where the blocks of a chunk come to stand in the file that src/stream.c writes.
use lrzip_next.Common.{ℕ, suc, ◌+◌, ◌*◌, ◌≡◌, ◌==◌, refl, ap, arith, subst, true, false}
use lrzip_next.Common.{List, [], ◌∷◌, ◌++◌, length, append-nil, append_assoc}
use lrzip_next.Stream.Out.{StreamNo, stream0, stream1}
use lrzip_next.Stream.Disk.Cells.{Cell}
use lrzip_next.Stream.Disk.Write.{
  ChunkOut, Packed, begin_chunk, append_block, write_block, write_blocks,
}
use lrzip_next.Stream.Disk.Chain.{Placed}
use lrzip_next.Stream.Disk.Keeps.{Kept, placed_at, append_block-Kept, begin_chunk-Kept, preface}

-- The blocks of one stream, with their positions, where the first block of the list comes at `pos`.
abbrev pub layout : ℕ → StreamNo → ℕ → List (StreamNo × Packed) → List Placed
layout wl sn pos [] = []
layout wl sn pos ((stream0, p) ∷ bs) = elim sn [
  | stream0 ↦ placed_at pos p ∷ layout wl sn (pos + (1 + wl * 3) + length p.s_buf) bs
  | stream1 ↦ layout wl sn (pos + (1 + wl * 3) + length p.s_buf) bs
]
layout wl sn pos ((stream1, p) ∷ bs) = elim sn [
  | stream0 ↦ layout wl sn (pos + (1 + wl * 3) + length p.s_buf) bs
  | stream1 ↦ placed_at pos p ∷ layout wl sn (pos + (1 + wl * 3) + length p.s_buf) bs
]

abbrev pub counted : ChunkOut → ChunkOut
counted ctis = record ctis { chunks = ctis.chunks + 1 }

counted-Kept :
    (ctis : ChunkOut) (cs : List Cell) (ps0 ps1 : List Placed)
    → Kept ctis cs ps0 ps1
    → Kept (counted ctis) cs ps0 ps1
counted-Kept ctis cs ps0 ps1 k = record {
  chain0 = k.chain0;
  chain1 = k.chain1;
  fixed = k.fixed;
  settled = k.settled;
  long = k.long;
}

later_block :
    (eof : ℕ) (sn : StreamNo) (p : Packed) (ctis : ChunkOut) (n : ℕ)
    → ctis.chunks ≡ suc n
    → write_block eof sn p ctis ≡ append_block sn p (counted ctis)
unfolding write_block
later_block eof sn p ctis n e = let t : (ctis.chunks == 0) ≡ false = ground arith in rw t refl

module _ (eof : ℕ) where
  write_blocks-cons :
      (sn : StreamNo) (p : Packed) (bs : List (StreamNo × Packed)) (ctis : ChunkOut) (n : ℕ)
      → ctis.chunks ≡ suc n
      → write_blocks eof ((sn, p) ∷ bs) ctis
        ≡ write_blocks eof bs (append_block sn p (counted ctis))
  unfolding write_blocks
  write_blocks-cons sn p bs ctis n e = ap (write_blocks eof bs) (later_block eof sn p ctis n e)

  write_blocks-nil : (ctis : ChunkOut) → write_blocks eof [] ctis ≡ ctis
  unfolding write_blocks
  write_blocks-nil ctis = refl

  write_blocks-later :
      (bs : List (StreamNo × Packed)) (ctis : ChunkOut) (n : ℕ) (cs : List Cell)
      (ps0 ps1 : List Placed)
      → ctis.chunks ≡ suc n
      → Kept ctis cs ps0 ps1
      → Kept
          (write_blocks eof bs ctis)
          cs
          (ps0 ++ layout ctis.chunk_bytes stream0 ctis.cur_pos bs)
          (ps1 ++ layout ctis.chunk_bytes stream1 ctis.cur_pos bs)
  unfolding append_block
  write_blocks-later [] ctis n cs ps0 ps1 e k =
      rw (write_blocks-nil ctis, append-nil ps0, append-nil ps1) k
  write_blocks-later ((stream0, p) ∷ bs) ctis n cs ps0 ps1 e k =
      rw (write_blocks-cons stream0 p bs ctis n e) (
        subst
          (λ ps. Kept (write_blocks eof bs (append_block stream0 p (counted ctis))) cs ps (
            ps1
            ++ layout ctis.chunk_bytes stream1
                (ctis.cur_pos + (1 + ctis.chunk_bytes * 3) + length p.s_buf) bs))
          (append_assoc ps0 _ _)
          (write_blocks-later bs (append_block stream0 p (counted ctis)) (suc n) cs _ ps1
            (omega arith)
            (append_block-Kept (counted ctis) p stream0 cs ps0 ps1
              (counted-Kept ctis cs ps0 ps1 k))))
  write_blocks-later ((stream1, p) ∷ bs) ctis n cs ps0 ps1 e k =
      rw (write_blocks-cons stream1 p bs ctis n e) (
        subst
          (λ ps.
            Kept (write_blocks eof bs (append_block stream1 p (counted ctis))) cs
              (ps0
                ++ layout ctis.chunk_bytes stream0
                    (ctis.cur_pos + (1 + ctis.chunk_bytes * 3) + length p.s_buf) bs)
              ps)
          (append_assoc ps1 _ _)
          (write_blocks-later bs (append_block stream1 p (counted ctis)) (suc n) cs ps0 _
            (omega arith)
            (append_block-Kept (counted ctis) p stream1 cs ps0 ps1
              (counted-Kept ctis cs ps0 ps1 k))))

  -- The place of the chunk in the file is settled.
  write_blocks-where :
      (bs : List (StreamNo × Packed)) (ctis : ChunkOut) (n : ℕ)
      → ctis.chunks ≡ suc n
      → ((write_blocks eof bs ctis).chunk_bytes ≡ ctis.chunk_bytes)
        × ((write_blocks eof bs ctis).initial_pos ≡ ctis.initial_pos)
  unfolding append_block
  write_blocks-where [] ctis n e = rw (write_blocks-nil ctis) (refl, refl)
  write_blocks-where ((stream0, p) ∷ bs) ctis n e =
      rw (write_blocks-cons stream0 p bs ctis n e)
        (write_blocks-where bs (append_block stream0 p (counted ctis)) (suc n) (omega arith))
  write_blocks-where ((stream1, p) ∷ bs) ctis n e =
      rw (write_blocks-cons stream1 p bs ctis n e)
        (write_blocks-where bs (append_block stream1 p (counted ctis)) (suc n) (omega arith))

  -- The block that begins a chunk.
  write_blocks-first :
      (sn : StreamNo) (p : Packed) (bs : List (StreamNo × Packed)) (ctis : ChunkOut)
      → ctis.chunks ≡ 0
      → write_blocks eof ((sn, p) ∷ bs) ctis
        ≡ write_blocks eof bs (append_block sn p (begin_chunk eof (counted ctis)))
  unfolding write_blocks write_block
  write_blocks-first sn p bs ctis e =
      let t : (ctis.chunks == 0) ≡ true = ground arith in
      let one : write_block eof sn p ctis ≡ append_block sn p (begin_chunk eof (counted ctis)) =
        rw t refl in
      ap (write_blocks eof bs) one

-- Where the first block of a chunk comes, behind two headers.
abbrev pub first_pos : ℕ → ℕ
first_pos wl = 0 + (1 + wl * 3) + (1 + wl * 3)

module _ (eof : ℕ) (ctis : ChunkOut) (at_start : ctis.cur_pos ≡ 0) (unused : ctis.chunks ≡ 0) where
  -- With the headers of the chunk at position `c`.
  abbrev LaidOut : StreamNo → Packed → List (StreamNo × Packed) → ℕ → Type 0
  LaidOut sn p bs c =
      let pos = c + (1 + ctis.chunk_bytes * 3) + (1 + ctis.chunk_bytes * 3) in
      Kept (write_blocks eof bs (append_block sn p (begin_chunk eof (counted ctis))))
        (preface eof (counted ctis) at_start) (layout ctis.chunk_bytes stream0 pos ((sn, p) ∷ bs))
        (layout ctis.chunk_bytes stream1 pos ((sn, p) ∷ bs))

  from_here :
      (sn : StreamNo) (p : Packed) (bs : List (StreamNo × Packed)) → LaidOut sn p bs ctis.cur_pos
  unfolding append_block begin_chunk
  from_here stream0 p bs =
      write_blocks-later eof bs (append_block stream0 p (begin_chunk eof (counted ctis))) 0 _ _ _
        (omega (arith, unused))
        (append_block-Kept (begin_chunk eof (counted ctis)) p stream0 _ [] []
          (begin_chunk-Kept eof (counted ctis) at_start))
  from_here stream1 p bs =
      write_blocks-later eof bs (append_block stream1 p (begin_chunk eof (counted ctis))) 0 _ _ _
        (omega (arith, unused))
        (append_block-Kept (begin_chunk eof (counted ctis)) p stream1 _ [] []
          (begin_chunk-Kept eof (counted ctis) at_start))

  -- The blocks of each stream stand in the file as one chain, in the order of the turns, and the
  -- headers of the chunk before them.
  pub write_blocks-Kept :
      (sn : StreamNo) (p : Packed) (bs : List (StreamNo × Packed))
      → Kept
          (write_blocks eof ((sn, p) ∷ bs) ctis)
          (preface eof (counted ctis) at_start)
          (layout ctis.chunk_bytes stream0 (first_pos ctis.chunk_bytes) ((sn, p) ∷ bs))
          (layout ctis.chunk_bytes stream1 (first_pos ctis.chunk_bytes) ((sn, p) ∷ bs))
  write_blocks-Kept sn p bs =
      rw (write_blocks-first eof sn p bs ctis unused)
        (subst (LaidOut sn p bs) at_start (from_here sn p bs))

  pub write_blocks-base :
      (sn : StreamNo) (p : Packed) (bs : List (StreamNo × Packed))
      → ((write_blocks eof ((sn, p) ∷ bs) ctis).chunk_bytes ≡ ctis.chunk_bytes)
        × ((write_blocks eof ((sn, p) ∷ bs) ctis).initial_pos
            ≡ (begin_chunk eof (counted ctis)).initial_pos)
  unfolding append_block begin_chunk
  write_blocks-base stream0 p bs = rw (write_blocks-first eof stream0 p bs ctis unused) (
      write_blocks-where eof bs (append_block stream0 p (begin_chunk eof (counted ctis))) 0
        (omega (arith, unused)))
  write_blocks-base stream1 p bs = rw (write_blocks-first eof stream1 p bs ctis unused) (
      write_blocks-where eof bs (append_block stream1 p (begin_chunk eof (counted ctis))) 0
        (omega (arith, unused)))
