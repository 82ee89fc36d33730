-- ===== src/RoundTrip/Passes.antt =====
-- The passes of `rzip_fd` of src/rzip.c: each leaves a chunk that `runzip_chunk` of src/runzip.c reads
-- back.
use lrzip_next.Common.{ℕ, zero, suc, ◌+◌, ◌-◌, ◌^◌, ◌≤◌, ◌<◌, ◌≡◌, ◌⊎◌, refl, ap, ◌∙◌, arith, min}
use lrzip_next.Common.{
  Bool, true, false, ◌&&◌, ◌||◌, not, leb, ltb, ◌==◌, if◌then◌else◌, Bool-cases, inl, inr,
}
use lrzip_next.Common.{List, [], ◌++◌, flatten, some}
use lrzip_next.Common.Results.{ok, ◌>>=◌}
use lrzip_next.Stream.Out.{stream0, stream1, close_stream_out}
use lrzip_next.Stream.In.{Chan}
use lrzip_next.Stream.Out.Laws.{Holds, written, blocks_of}
use lrzip_next.Rzip.State.{RzipState}
use lrzip_next.Rzip.Slice.{slice, slice-agree}
use lrzip_next.Rzip.Put.Token.{Token}
use lrzip_next.Rzip.Search.Result.{Done}
use lrzip_next.Rzip.Search.Returns.{Grants, hash_search-encodes}
use lrzip_next.Rzip.Files.{
  FileControl, Chunk, RzipFd, mapped, max_chunk, max_mmap, map_loop, chunk_limit, fresh_streams,
  byte_width, first_mmap, next_chunk, rzip_pass,
}
use lrzip_next.Rzip.Files.Width.{byte_width-fits, byte_width-le}
use lrzip_next.Rzip.Files.Retry.{round_to_page-pos}
use lrzip_next.Runzip.{Runzip, unzip_chunk}
use lrzip_next.Runzip.Chunk.{unzip_chunk-hashed}
use lrzip_next.Runzip.Files.{ArchiveChunk, runzip_chunk}
use lrzip_next.RoundTrip.{good0, good1, Delivers, handed_chan, handed_chan-Delivers}

-- The reader finds the chunk: its byte width, and streams with the bytes of its jobs. Where the size of
-- the file is not known, it finds the flag of the pass as well.
pub record Delivered (expected : ℕ) (c : Chunk) (a : ArchiveChunk) : Type 0 where
  pub width : a.chunk_bytes ≡ c.chunk_bytes
  pub not_at_end : a.at_end ≡ false
  pub s0 : Chan
  pub s1 : Chan
  pub opened : a.streams ≡ some (s0, s1)
  pub delivers : Delivers c.streams.jobs s0 s1
  pub flag : (0 < expected) ⊎ (a.eof ≡ c.eof)

-- What the reader makes of a chunk, whatever it has read before: `n` bytes of the file from `off` on.
pub record Readable (crc : List ℕ → ℕ) (file : ℕ → ℕ) (a : ArchiveChunk) (off n : ℕ) (r : Runzip)
    : Type 0 where
  pub after : Runzip
  pub runs : runzip_chunk crc true a r ≡ ok (n, after)
  pub output : after.out ≡ r.out ++ slice file off n
  pub digest : after.hashed ≡ r.hashed ++ slice file off n

-- Whatever finds the chunk can read it, and what gets the blocks as they are finds it.
pub record Comes (crc : List ℕ → ℕ) (file : ℕ → ℕ) (c : Chunk) (off n : ℕ) : Type 0 where
  pub reads :
      (expected : ℕ) (a : ArchiveChunk)
      → Delivered expected c a
      → (r : Runzip) → Readable crc file a off n r
  pub valid :
      Delivers c.streams.jobs (handed_chan stream0 c.streams) (handed_chan stream1 c.streams)

opened_chunk :
    (crc : List ℕ → ℕ) (a : ArchiveChunk) (r : Runzip) (wl : ℕ) (s0 s1 : Chan)
    → (ltb wl 1 || ltb 8 wl) ≡ false
    → a.chunk_bytes ≡ wl
    → a.at_end ≡ false
    → a.streams ≡ some (s0, s1)
    → runzip_chunk crc true a r ≡ unzip_chunk crc true (record r { s0 = s0; s1 = s1 }) wl
unfolding runzip_chunk
opened_chunk crc a r wl s0 s1 fits e more opened =
    let within : (ltb a.chunk_bytes 1 || ltb 8 a.chunk_bytes) ≡ false =
      ap (λ n. ltb n 1 || ltb 8 n) e ∙ fits in
    rw (within, more, opened) (ap (λ n. unzip_chunk crc true (record r { s0 = s0; s1 = s1 }) n) e)

module _ (c : FileControl) (file : ℕ → ℕ) (small : c.st_size < 2 ^ 63)
    (crc32 : (xs : List ℕ) → c.env.crc xs < 2 ^ 32) where
  shifted : (off n : ℕ) → slice (λ i. file (off + i)) 0 n ≡ slice file off n
  shifted off n = slice-agree (λ i. file (off + i)) file 0 off n (λ i lt. ap file (omega arith))

  Done-Readable :
      (off n : ℕ) (old : List ℕ) (st' : RzipState) (hashed : List ℕ) (ks : List Token) (eof : Bool)
      → n < 2 ^ 63
      → Done c.env (λ i. file (off + i)) n (byte_width n) old st' hashed ks
      → (expected : ℕ) (a : ArchiveChunk)
      → Delivered expected
          (record { chunk_bytes = byte_width n; eof = eof; streams = close_stream_out st'.ss })
          a
      → (r : Runzip) → Readable c.env.crc file a off n r
  Done-Readable off n old st' hashed ks eof lt d expected a found r =
      let byte = λ (i : ℕ). file (off + i) in
      let rd : Runzip = record r { s0 = found.s0; s1 = found.s1 } in
      let (r', run, u) =
        unzip_chunk-hashed c.env.crc (byte_width n) ks rd (c.env.crc (slice byte 0 n)) [] []
          (slice byte 0 n) d.fits (omega (arith, d.spans, lt)) (crc32 (slice byte 0 n))
          (good0 c.env byte n (byte_width n) old rd st' hashed ks lt (crc32 (slice byte 0 n)) d
            found.delivers)
          (good1 c.env byte n (byte_width n) old rd st' hashed ks lt (crc32 (slice byte 0 n)) d
            found.delivers)
          (d.expands r.out) in
      record {
        after = r';
        runs =
            opened_chunk c.env.crc a r (byte_width n) found.s0 found.s1 accepted found.width
              found.not_at_end found.opened
            ∙ run
            ∙ ap (λ m. ok (m, r')) d.spans;
        output = u.out ∙ ap (λ xs. r.out ++ xs) (shifted off n);
        digest = u.hashed ∙ ap (λ xs. r.hashed ++ xs) (shifted off n);
      }
    where
      accepted : (ltb (byte_width n) 1 || ltb 8 (byte_width n)) ≡ false
      accepted =
          ground
            (arith, (byte_width-fits n (omega (arith, lt))).1, byte_width-le n (omega (arith, lt)))

-- What the compression needs: every chunk is mapped whole, `malloc` grants what `hash_search` asks for, there
-- are buffers, and a hash is stored.
pub record Works (c : FileControl) : Type 0 where
  pub some_page : 0 < c.env.page_size
  pub whole : min (max_chunk c) c.st_size ≤ max_mmap c
  pub maps : (n : ℕ) → (n ≤ max_mmap c) ⊎ (n ≡ c.env.page_size) → c.can_map n ≡ mapped
  pub grants : Grants c.env
  pub buffers : 0 < c.stream_bufsize
  pub has_hash : c.env.has_hash ≡ true
  pub small : c.st_size < 2 ^ 63
  pub crc32 : (xs : List ℕ) → c.env.crc xs < 2 ^ 32

pub max_chunk-pos : (c : FileControl) → 0 < c.env.page_size → 0 < c.st_size → 0 < max_chunk c
max_chunk-pos c page some_bytes = elim (Bool-cases (ltb (chunk_limit c) c.st_size)) [
  | inl e ↦ rw e (round_to_page-pos (c.env.page_size) (chunk_limit c) page)
  | inr e ↦ rw e (ground (arith, e, some_bytes))
]

fresh_streams-Holds : (c : FileControl) → 0 < c.stream_bufsize → Holds (fresh_streams c) [] []
unfolding written blocks_of flatten
fresh_streams-Holds c lo = record {
  valid = record { room0 = lo; room1 = lo; full = tt };
  held0 = refl;
  held1 = refl;
}

-- A pass takes `n` bytes of the file, and leaves a chunk that is read back.
pub record Passed (c : FileControl) (file : ℕ → ℕ) (fd : RzipFd) (chunk : Chunk) (fd' : RzipFd)
    : Type 0 where
  pub run : rzip_pass c file fd ≡ ok (chunk, fd')
  pub left : fd'.len ≡ fd.len - min (max_chunk c) fd.len
  pub last : chunk.eof ≡ (min (max_chunk c) fd.len == fd.len)
  pub same : fd'.eof ≡ chunk.eof
  pub fed : fd'.hashed ≡ fd.hashed ++ slice file (c.st_size - fd.len) (min (max_chunk c) fd.len)
  pub comes : Comes c.env.crc file chunk (c.st_size - fd.len) (min (max_chunk c) fd.len)

map_loop-now :
    (fuel : ℕ) (c : FileControl) (n : ℕ)
    → 0 < fuel
    → c.can_map n ≡ mapped
    → map_loop fuel c n ≡ ok n
unfolding map_loop
map_loop-now zero c n lo e = absurd (omega (arith, lo))
map_loop-now (suc fuel) c n lo e = rw (e, map_loop) refl

module _ (c : FileControl) (file : ℕ → ℕ) (works : Works c) where
  first_mmap-can_map : (len : ℕ) → c.can_map (first_mmap c len) ≡ mapped
  first_mmap-can_map len = elim (Bool-cases (min (max_chunk c) len == 0)) [
    | inl e ↦ rw e (works.maps c.env.page_size (inr refl))
    | inr e ↦ rw e (works.maps (min (max_mmap c) len) (inl (omega arith)))
  ]

  first_mmap-holds : (len : ℕ) → len ≤ c.st_size → min (max_chunk c) len ≤ first_mmap c len
  first_mmap-holds len le = elim (Bool-cases (min (max_chunk c) len == 0)) [
    | inl e ↦ rw e (ground (arith, e))
    | inr e ↦ rw e (omega (arith, le, works.whole))
  ]

  pub rzip_pass-Passed :
      (fd : RzipFd)
      → fd.len ≤ c.st_size
      → fd.eof ≡ false
      → (chunk : Chunk) × (fd' : RzipFd) × Passed c file fd chunk fd'
  unfolding rzip_pass
  rzip_pass-Passed fd le not_yet =
      let off = c.st_size - fd.len in
      let n = min (max_chunk c) fd.len in
      let m = first_mmap c fd.len in
      let maps : map_loop (m + 2) c m ≡ ok m =
        map_loop-now (m + 2) c m (omega arith) (first_mmap-can_map fd.len) in
      let mapped_whole : leb n m ≡ true = ground (arith, first_mmap-holds fd.len le) in
      let n_small : n < 2 ^ 63 = omega (arith, le, works.small) in
      let (st', hashed, ks, found, d) =
        hash_search-encodes c.env (λ i. file (off + i)) works.grants (next_chunk c fd) fd.hashed
          (omega (arith, (byte_width-fits n (omega (arith, n_small))).0))
          (fresh_streams-Holds c works.buffers) in
      let eof = fd.eof || (n == fd.len) in
      let goes_on : not (ltb 0 (fd.len - st'.chunk_size) && eof) ≡ true =
        rw not_yet (ground (arith, d.sized)) in
      (
        record { chunk_bytes = byte_width n; eof = eof; streams = close_stream_out st'.ss },
        record { st = st'; len = fd.len - st'.chunk_size; eof = eof; hashed = hashed },
        record {
          run =
              rw (maps, ◌>>=◌)
                (rw (mapped_whole, ◌>>=◌) (rw (found, ◌>>=◌) (rw (goes_on, ◌>>=◌) refl)));
          left = ap (λ k. fd.len - k) d.sized;
          last = ap (λ b. b || (n == fd.len)) not_yet;
          same = refl;
          fed =
              d.hashed_all
              ∙ ap (λ b. if b then fd.hashed ++ slice (λ i. file (off + i)) 0 n else fd.hashed)
                  works.has_hash
              ∙ ap (λ xs. fd.hashed ++ xs) (shifted c file works.small works.crc32 off n);
          comes = record {
            reads =
                Done-Readable c file works.small works.crc32 off n fd.hashed st' hashed ks eof
                  n_small d;
            valid = handed_chan-Delivers st'.ss d.holds.valid;
          };
        },
      )
