-- ===== src/Stream/Disk/Keeps.antt =====
-- What `compthread` of src/stream.c writes keeps the two chains of a chunk.
use lrzip_next.Common.{ℕ, ◌+◌, ◌*◌, ◌≤◌, ◌≡◌, refl, sym, arith, inl, inr, subst}
use lrzip_next.Common.{List, [], ◌∷◌, ◌++◌, length, All}
use lrzip_next.Bytes.{le_bytes, length-le_bytes}
use lrzip_next.Stream.Out.{StreamNo, stream0, stream1}
use lrzip_next.Stream.Backend.{ctype_none}
use lrzip_next.Stream.Disk.{File, patch, put, put_val, seek}
use lrzip_next.Stream.Disk.Cells.{Cell, IsAt, All-map, run_cells, run-run_cells, patches}
use lrzip_next.Stream.Disk.Write.{
  ChunkOut, Packed, last_head, put_block_header, begin_chunk, append_block,
}
use lrzip_next.Stream.Disk.Chain.{
  Placed, Chain, writes, Chain-snoc, Chain-other, Settled, Settled-kept,
}

-- Where the empty headers of a fresh chunk point from.
abbrev pub first_head : ℕ → StreamNo → ℕ
first_head wl stream0 = 0 + 1 + wl * 2
first_head wl stream1 = 0 + (1 + wl * 3) + 1 + wl * 2

-- The chains of both streams and some other cells, in a file that is as long as the chunk so far.
pub record Kept (ctis : ChunkOut) (cs : List Cell) (ps0 ps1 : List Placed) : Type 0 where
  pub chain0 :
      Chain ctis.initial_pos ctis.chunk_bytes ctis.file.byte ctis.cur_pos ctis.last_head0
        ctis.last_head1
        (first_head ctis.chunk_bytes stream0)
        ps0
  pub chain1 :
      Chain ctis.initial_pos ctis.chunk_bytes ctis.file.byte ctis.cur_pos ctis.last_head1
        ctis.last_head0
        (first_head ctis.chunk_bytes stream1)
        ps1
  pub fixed : All (IsAt ctis.file.byte) cs
  pub settled :
      All
        (Settled ctis.initial_pos ctis.chunk_bytes ctis.cur_pos ctis.last_head0 ctis.last_head1)
        cs
  pub long : ctis.cur_pos + ctis.initial_pos ≤ ctis.file.size

abbrev pub placed_at : ℕ → Packed → Placed
placed_at pos p = record { pos = pos; c_type = p.c_type; u_len = p.s_len; bytes = p.s_buf }

put_header-byte :
    (wl c_type c_len s_len : ℕ) (bs : List ℕ) (f : File)
    → (put bs (put_block_header wl c_type c_len s_len f)).byte
      ≡ patch (f.ofs + 1 + wl + wl + wl) bs (
          patch (f.ofs + 1 + wl + wl) (le_bytes wl 0) (
            patch
              (f.ofs + 1 + wl)
              (le_bytes wl s_len)
              (patch (f.ofs + 1) (le_bytes wl c_len) (patch f.ofs (c_type ∷ []) f.byte))))
unfolding put
put_header-byte wl c_type c_len s_len bs f =
    rw (length-le_bytes wl c_len, length-le_bytes wl s_len, length-le_bytes wl 0) refl

put_header-size :
    (wl c_type c_len s_len : ℕ) (bs : List ℕ) (f : File)
    → f.ofs + (1 + wl * 3) + length bs ≤ (put bs (put_block_header wl c_type c_len s_len f)).size
unfolding put
put_header-size wl c_type c_len s_len bs f =
    let e : f.ofs + 1 + wl + wl + wl + length bs ≡ f.ofs + (1 + wl * 3) + length bs = omega arith in
    rw (length-le_bytes wl c_len, length-le_bytes wl s_len, length-le_bytes wl 0) (omega arith)

module _ (ctis : ChunkOut) (p : Packed) where
  -- Once the pointer to the block is written.
  abbrev linked : StreamNo → File
  linked sn = seek (ctis.cur_pos + ctis.initial_pos) (
      put_val ctis.chunk_bytes ctis.cur_pos (seek (last_head ctis sn + ctis.initial_pos) ctis.file))

  append_block-byte :
      (sn : StreamNo)
      → (append_block sn p ctis).file.byte
        ≡ patches
            (writes ctis.initial_pos ctis.chunk_bytes
              (last_head ctis sn)
              (placed_at ctis.cur_pos p))
            ctis.file.byte
  unfolding append_block put
  append_block-byte stream0 =
      put_header-byte ctis.chunk_bytes p.c_type (length p.s_buf) p.s_len p.s_buf (linked stream0)
  append_block-byte stream1 =
      put_header-byte ctis.chunk_bytes p.c_type (length p.s_buf) p.s_len p.s_buf (linked stream1)

  append_block-long :
      (sn : StreamNo)
      → ctis.cur_pos + (1 + ctis.chunk_bytes * 3) + length p.s_buf + ctis.initial_pos
        ≤ (append_block sn p ctis).file.size
  unfolding append_block
  append_block-long stream0 = omega (
    arith,
    put_header-size ctis.chunk_bytes p.c_type (length p.s_buf) p.s_len p.s_buf (linked stream0),
  )
  append_block-long stream1 = omega (
    arith,
    put_header-size ctis.chunk_bytes p.c_type (length p.s_buf) p.s_len p.s_buf (linked stream1),
  )

  -- A block more in the stream that it is for.
  abbrev pub more : StreamNo → StreamNo → List Placed → List Placed
  more stream0 stream0 ps = ps ++ (placed_at ctis.cur_pos p ∷ [])
  more stream0 stream1 ps = ps
  more stream1 stream0 ps = ps
  more stream1 stream1 ps = ps ++ (placed_at ctis.cur_pos p ∷ [])

  abbrev base : ℕ
  base = ctis.initial_pos

  abbrev wl : ℕ
  wl = ctis.chunk_bytes

  abbrev ending : ℕ
  ending = ctis.cur_pos + (1 + ctis.chunk_bytes * 3) + length p.s_buf

  abbrev pointer : ℕ
  pointer = ctis.cur_pos + 1 + ctis.chunk_bytes * 2

  module _ (sn : StreamNo) (other h : ℕ) (ps : List Placed)
      (inside : last_head ctis sn + ctis.chunk_bytes ≤ ctis.cur_pos)
      (inside_other : other + ctis.chunk_bytes ≤ ctis.cur_pos) where
    longer :
        Chain base wl ctis.file.byte ctis.cur_pos (last_head ctis sn) other h ps
        → Chain base wl
            (append_block sn p ctis).file.byte
            ending
            pointer
            other
            h
            (ps ++ (placed_at ctis.cur_pos p ∷ []))
    longer k =
        subst
          (λ byte.
            Chain base wl byte ending pointer other h (ps ++ (placed_at ctis.cur_pos p ∷ [])))
          (sym (append_block-byte sn))
          (Chain-snoc base wl ctis.file.byte ctis.cur_pos (last_head ctis sn) other
            (placed_at ctis.cur_pos p) refl h ps inside_other k)

    untouched :
        Chain base wl ctis.file.byte ctis.cur_pos other (last_head ctis sn) h ps
        → Chain base wl (append_block sn p ctis).file.byte ending other pointer h ps
    untouched k =
        subst (λ byte. Chain base wl byte ending other pointer h ps) (sym (append_block-byte sn))
          (Chain-other base wl ctis.file.byte ctis.cur_pos (last_head ctis sn) other
            (placed_at ctis.cur_pos p) refl h ps inside k)

  cells_kept :
      (sn : StreamNo) (other : ℕ) (cs : List Cell)
      → All (Settled base wl ctis.cur_pos (last_head ctis sn) other) cs
      → All (IsAt ctis.file.byte) cs
      → All (IsAt (append_block sn p ctis).file.byte) cs
        × All (Settled base wl ending pointer other) cs
  cells_kept sn other cs s h =
      let (a, b) =
        Settled-kept base wl ctis.file.byte ctis.cur_pos (last_head ctis sn) other
          (placed_at ctis.cur_pos p) refl cs s h in
      (subst (λ byte. All (IsAt byte) cs) (sym (append_block-byte sn)) a, b)

  swap :
      (cur t t' : ℕ) (cs : List Cell)
      → All (Settled base wl cur t t') cs
      → All (Settled base wl cur t' t) cs
  swap cur t t' cs =
      All-map (Settled base wl cur t t') (Settled base wl cur t' t) cs (λ c s. (s.0, s.2, s.1))

  -- Appending a block keeps both chains of the chunk: that of its stream has the block at its end, that
  -- of the other stream is as it was. Other cells away from the last pointers are kept, too.
  pub append_block-Kept :
      (sn : StreamNo) (cs : List Cell) (ps0 ps1 : List Placed)
      → Kept ctis cs ps0 ps1
      → Kept (append_block sn p ctis) cs (more stream0 sn ps0) (more stream1 sn ps1)
  unfolding append_block
  append_block-Kept stream0 cs ps0 ps1 k = record {
    chain0 = longer stream0 ctis.last_head1 _ ps0 k.chain0.inside k.chain1.inside k.chain0;
    chain1 = untouched stream0 ctis.last_head1 _ ps1 k.chain0.inside k.chain1.inside k.chain1;
    fixed = (cells_kept stream0 ctis.last_head1 cs k.settled k.fixed).0;
    settled = (cells_kept stream0 ctis.last_head1 cs k.settled k.fixed).1;
    long = append_block-long stream0;
  }
  append_block-Kept stream1 cs ps0 ps1 k = record {
    chain0 = untouched stream1 ctis.last_head0 _ ps0 k.chain1.inside k.chain0.inside k.chain0;
    chain1 = longer stream1 ctis.last_head0 _ ps1 k.chain1.inside k.chain0.inside k.chain1;
    fixed =
        (cells_kept stream1 ctis.last_head0 cs
          (swap ctis.cur_pos ctis.last_head0 ctis.last_head1 cs k.settled) k.fixed).0;
    settled =
        swap ending pointer ctis.last_head0 cs
          (cells_kept stream1 ctis.last_head0 cs
            (swap ctis.cur_pos ctis.last_head0 ctis.last_head1 cs k.settled) k.fixed).1;
    long = append_block-long stream1;
  }

module _ (eof : ℕ) (ctis : ChunkOut) (at_start : ctis.cur_pos ≡ 0) where
  -- The bytes of a length of 0, as they are counted by the writes.
  abbrev none : List ℕ
  none = le_bytes ctis.chunk_bytes 0

  abbrev start_of : ℕ
  start_of = (begin_chunk eof ctis).initial_pos

  abbrev header0 : ℕ
  header0 = start_of + 1 + length none + length none

  abbrev header1 : ℕ
  header1 = header0 + length none

  abbrev none_at : ℕ → Cell
  none_at a = record { addr = a; bytes = none }

  -- All that is written, one behind the other.
  abbrev written : List (List ℕ)
  written =
      (ctis.chunk_bytes ∷ [])
      ∷ (eof ∷ [])
      ∷ le_bytes ctis.chunk_bytes ctis.size
      ∷ (ctype_none ∷ [])
      ∷ none
      ∷ none
      ∷ none
      ∷ (ctype_none ∷ [])
      ∷ none
      ∷ none
      ∷ none
      ∷ []

  written-IsAt : All (IsAt (begin_chunk eof ctis).file.byte) (run_cells ctis.file.ofs written)
  unfolding begin_chunk put
  written-IsAt = run-run_cells ctis.file.ofs written ctis.file.byte

  moved :
      (a b : ℕ)
      → a ≡ b
      → IsAt (begin_chunk eof ctis).file.byte (none_at a)
      → IsAt (begin_chunk eof ctis).file.byte (none_at b)
  moved a b e h = subst (λ k. IsAt (begin_chunk eof ctis).file.byte (none_at k)) e h

  -- The width, the flag, the size and the two headers, less their pointers.
  abbrev pub preface : List Cell
  preface =
      record { addr = ctis.file.ofs; bytes = ctis.chunk_bytes ∷ [] }
      ∷ record { addr = ctis.file.ofs + 1; bytes = eof ∷ [] }
      ∷ record { addr = ctis.file.ofs + 1 + 1; bytes = le_bytes ctis.chunk_bytes ctis.size }
      ∷ record { addr = start_of; bytes = ctype_none ∷ [] }
      ∷ none_at (start_of + 1)
      ∷ none_at (start_of + 1 + length none)
      ∷ record { addr = header1; bytes = ctype_none ∷ [] }
      ∷ none_at (header1 + 1)
      ∷ none_at (header1 + 1 + length none)
      ∷ []

  -- The headers that begin a chunk, at position 0, are two empty chains.
  pub begin_chunk-Kept : Kept (begin_chunk eof ctis) preface [] []
  unfolding begin_chunk put
  begin_chunk-Kept =
      let n = length-le_bytes ctis.chunk_bytes 0 in
      let all = written-IsAt in
      record {
        chain0 = record {
          ends = omega (arith, at_start);
          zero = moved header0 _ (omega (arith, at_start, n)) all.1.1.1.1.1.1.0;
          holds = tt;
          settled = tt;
          inside = omega arith;
          apart = inl (omega arith);
        };
        chain1 = record {
          ends = omega (arith, at_start);
          zero =
              moved (header1 + 1 + length none + length none) _ (omega (arith, at_start, n))
                all.1.1.1.1.1.1.1.1.1.1.0;
          holds = tt;
          settled = tt;
          inside = omega arith;
          apart = inr (omega arith);
        };
        fixed = (
          all.0,
          (
            all.1.0,
            (
              all.1.1.0,
              (
                all.1.1.1.0,
                (
                  all.1.1.1.1.0,
                  (
                    all.1.1.1.1.1.0,
                    (all.1.1.1.1.1.1.1.0, (all.1.1.1.1.1.1.1.1.0, (all.1.1.1.1.1.1.1.1.1.0, tt))),
                  ),
                ),
              ),
            ),
          ),
        );
        settled = (
          (omega arith, inl (omega arith), inl (omega arith)),
          (
            (omega arith, inl (omega arith), inl (omega arith)),
            (
              (omega arith, inl (omega arith), inl (omega arith)),
              (
                (omega arith, inl (omega arith), inl (omega arith)),
                (
                  (omega (arith, n), inl (omega (arith, n)), inl (omega (arith, n))),
                  (
                    (omega (arith, n), inl (omega (arith, n)), inl (omega (arith, n))),
                    (
                      (omega (arith, n), inr (omega (arith, n, at_start)), inl (omega (arith, n))),
                      (
                        (
                          omega (arith, n),
                          inr (omega (arith, n, at_start)),
                          inl (omega (arith, n)),
                        ),
                        (
                          (
                            omega (arith, n),
                            inr (omega (arith, n, at_start)),
                            inl (omega (arith, n)),
                          ),
                          tt,
                        ),
                      ),
                    ),
                  ),
                ),
              ),
            ),
          ),
        );
        long = omega (arith, n);
      }
