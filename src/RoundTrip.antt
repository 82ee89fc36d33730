-- ===== src/RoundTrip.antt =====
-- Compression and decompression of a chunk, put together: `hash_search` of src/rzip.c, then
-- `close_stream_out` of src/stream.c, then `unzip_chunk` of src/runzip.c on streams with the bytes of the
-- jobs that were handed over. Stream/Jobs/Archive is about the way of those jobs through the file.
pub mod Passes
pub mod Covers
pub mod Files
use lrzip_next.Common.{ℕ, ◌^◌, ◌≤◌, ◌<◌, ◌≡◌, ◌⊎◌, refl, sym, ap, ◌∙◌, arith, subst}
use lrzip_next.Common.{true, false, if◌then◌else◌, Bool-cases, inl, inr, some}
use lrzip_next.Common.{List, [], ◌∷◌, ◌++◌, length, flatten, All, append_assoc, append-nil}
use lrzip_next.Bytes.{le_bytes}
use lrzip_next.Stream.Out.{StreamNo, stream0, stream1, Job, StreamInfo, buf, clear_buffer}
use lrzip_next.Stream.Out.{close_stream_out}
use lrzip_next.Stream.Out.Laws.{
  same, blocks_of, blocks_of-append, written, IsValid, Holds, blocks-close_stream_out,
}
use lrzip_next.Stream.In.{Chan}
use lrzip_next.Stream.In.Laws.{IsDense, Good}
use lrzip_next.Rzip.State.{RzipState}
use lrzip_next.Rzip.Slice.{slice}
use lrzip_next.Rzip.Put.Token.{Token, headers, payloads}
use lrzip_next.Rzip.Search.{Env, hash_search}
use lrzip_next.Rzip.Search.Result.{Done, hash_search-Done}
use lrzip_next.Runzip.{Runzip, ok, unzip_chunk}
use lrzip_next.Runzip.Chunk.{unzip_chunk-hashed, unzip_chunk-summed}

-- Blocks with bytes, then any last one.
IsDense-snoc :
    (sn : StreamNo) (n : ℕ) (js : List Job) (x : List ℕ)
    → 0 < n
    → All (λ (j : Job). length j.s_buf ≡ n) js
    → IsDense (blocks_of sn js ++ (x ∷ []))
unfolding blocks_of
IsDense-snoc sn n [] x lo h = tt
IsDense-snoc sn n (j ∷ js) x lo h = elim (Bool-cases (same sn j.streamno)) [
  | inr skip ↦ rw skip (IsDense-snoc sn n js x lo h.1)
  | inl keep ↦
      rw keep (
        IsDense-cons j.s_buf (blocks_of sn js) (omega (arith, h.0)) (IsDense-snoc sn n js x lo h.1))
]
  where
    IsDense-cons :
        (b : List ℕ) (bs : List (List ℕ))
        → 0 < length b
        → IsDense (bs ++ (x ∷ []))
        → IsDense (b ∷ bs ++ (x ∷ []))
    IsDense-cons b [] lt d = (lt, d)
    IsDense-cons b (c ∷ bs) lt d = (lt, d)

blocks_of-closed :
    (sn : StreamNo) (ss : StreamInfo)
    → blocks_of sn (close_stream_out ss).jobs ≡ blocks_of sn ss.jobs ++ (buf ss sn ∷ [])
unfolding close_stream_out blocks_of
blocks_of-closed stream0 ss =
    blocks_of-append stream0 (clear_buffer ss stream0 false).jobs _
    ∙ append-nil _
    ∙ blocks_of-append stream0 ss.jobs _
blocks_of-closed stream1 ss =
    blocks_of-append stream1 (clear_buffer ss stream0 false).jobs _
    ∙ ap (λ r. r ++ (ss.s1 ∷ [])) (blocks_of-append stream1 ss.jobs _ ∙ append-nil _)

-- The streams that a reader opens hold the bytes of the jobs that were handed over, in blocks of which
-- only the last can be empty.
pub record Delivers (jobs : List Job) (s0 s1 : Chan) : Type 0 where
  pub bytes0 : Good s0 (flatten (blocks_of stream0 jobs))
  pub bytes1 : Good s1 (flatten (blocks_of stream1 jobs))

-- A reader that gets the blocks of a stream as they were handed over.
abbrev pub handed_chan : StreamNo → StreamInfo → Chan
handed_chan sn ss = record { buf = []; bufp = 0; blocks = blocks_of sn ss.jobs }

-- What is written to a valid stream is there to be read once it is closed.
handed_chan-Good :
    (sn : StreamNo) (ss : StreamInfo)
    → IsValid ss
    → Good (handed_chan sn (close_stream_out ss)) (written ss sn)
handed_chan-Good sn ss v = record {
  inside = omega arith;
  dense =
      subst IsDense (sym (blocks_of-closed sn ss))
        (IsDense-snoc sn ss.bufsize ss.jobs (buf ss sn) (omega (arith, v.room0)) v.full);
  holds = blocks-close_stream_out ss sn;
}

pub handed_chan-Delivers :
    (ss : StreamInfo)
    → IsValid ss
    → Delivers
        (close_stream_out ss).jobs
        (handed_chan stream0 (close_stream_out ss))
        (handed_chan stream1 (close_stream_out ss))
handed_chan-Delivers ss v = record {
  bytes0 =
      subst (Good (handed_chan stream0 (close_stream_out ss)))
        (sym (blocks-close_stream_out ss stream0)) (handed_chan-Good stream0 ss v);
  bytes1 =
      subst (Good (handed_chan stream1 (close_stream_out ss)))
        (sym (blocks-close_stream_out ss stream1)) (handed_chan-Good stream1 ss v);
}

module _ (env : Env) (byte : ℕ → ℕ) (size cb : ℕ) (old : List ℕ) (r : Runzip) where
  -- The chunk comes back, and the hash of the reader is the hash of the writer.
  pub record Restored (hashed : List ℕ) (r' : Runzip) : Type 0 where
    pub unzips : unzip_chunk env.crc env.has_hash r cb ≡ ok (size, r')
    pub output : r'.out ≡ r.out ++ slice byte 0 size
    pub digest : r'.hashed ≡ hashed

  module _ (st' : RzipState) (hashed : List ℕ) (ks : List Token) (small : size < 2 ^ 63)
      (crc32 : env.crc (slice byte 0 size) < 2 ^ 32) (d : Done env byte size cb old st' hashed ks)
      (delivers : Delivers (close_stream_out st'.ss).jobs r.s0 r.s1) where
    pub good0 :
        Good r.s0 (headers cb ks ++ (0 ∷ 0 ∷ 0 ∷ le_bytes 4 (env.crc (slice byte 0 size)) ++ []))
    good0 =
        subst (Good r.s0)
          (blocks-close_stream_out st'.ss stream0
            ∙ d.holds.held0
            ∙ append_assoc (headers cb ks) (0 ∷ 0 ∷ 0 ∷ [])
                (le_bytes 4 (env.crc (slice byte 0 size)))
            ∙ ap (λ xs. headers cb ks ++ (0 ∷ 0 ∷ 0 ∷ xs)) (sym (append-nil _)))
          delivers.bytes0

    pub good1 : Good r.s1 (payloads ks ++ [])
    good1 =
        subst (Good r.s1)
          (blocks-close_stream_out st'.ss stream1 ∙ d.holds.held1 ∙ sym (append-nil (payloads ks)))
          delivers.bytes1

    back_hashed : r.hashed ≡ old → env.has_hash ≡ true → (r' : Runzip) × Restored hashed r'
    back_hashed from e =
        let (r', run, u) =
          unzip_chunk-hashed env.crc cb ks r (env.crc (slice byte 0 size)) [] [] (slice byte 0 size)
            d.fits (omega (arith, d.spans)) crc32 good0 good1 (d.expands r.out) in
        (
          r',
          record {
            unzips = ap (λ b. unzip_chunk env.crc b r cb) e ∙ run ∙ ap (λ n. ok (n, r')) d.spans;
            output = u.out;
            digest =
                u.hashed
                ∙ ap (λ h. h ++ slice byte 0 size) from
                ∙ sym (d.hashed_all ∙ ap (λ b. if b then old ++ slice byte 0 size else old) e);
          },
        )

    back_summed :
        r.hashed ≡ old → r.summed ≡ [] → env.has_hash ≡ false → (r' : Runzip) × Restored hashed r'
    back_summed from nothing e =
        let (r', run, u) =
          unzip_chunk-summed env.crc cb ks r (env.crc (slice byte 0 size)) [] [] (slice byte 0 size)
            d.fits (omega (arith, d.spans)) crc32 good0 good1 (d.expands r.out)
            (ap (λ xs. env.crc (xs ++ slice byte 0 size)) (sym nothing)) in
        (
          r',
          record {
            unzips = ap (λ b. unzip_chunk env.crc b r cb) e ∙ run ∙ ap (λ n. ok (n, r')) d.spans;
            output = u.out;
            digest =
                u.hashed
                ∙ from
                ∙ sym (d.hashed_all ∙ ap (λ b. if b then old ++ slice byte 0 size else old) e);
          },
        )

  -- For what `hash_search` returns, where the byte width can hold the size of the chunk, the size is below
  -- 2 ^ 63, the CRC has 32 bits and the streams were fresh: a reader whose streams hold the bytes of the
  -- jobs of the closed streams, in blocks of which only the last can be empty, and whose hash goes on from
  -- the same bytes, retrieves `size` bytes with `unzip_chunk`, writes just the chunk behind its earlier
  -- output, and ends with the same hash. Without a stored hash this is so where nothing has been
  -- summed before, as in front of the first chunk of an archive.
  pub chunk-round_trip :
      (st st' : RzipState) (hashed : List ℕ)
      → hash_search env byte st old ≡ some (st', hashed)
      → st.chunk_size ≡ size
      → st.chunk_bytes ≡ cb
      → size ≤ 256 ^ cb
      → size < 2 ^ 63
      → env.crc (slice byte 0 size) < 2 ^ 32
      → Holds st.ss [] []
      → Delivers (close_stream_out st'.ss).jobs r.s0 r.s1
      → r.hashed ≡ old
      → (env.has_hash ≡ true) ⊎ (r.summed ≡ [])
      → (r' : Runzip) × Restored hashed r'
  chunk-round_trip st st' hashed run e f fits small crc32 h delivers from first =
      let (ks, d) = hash_search-Done env byte size cb old st st' hashed e f fits h run in
      elim (Bool-cases env.has_hash) [
        | inl t ↦ back_hashed st' hashed ks small crc32 d delivers from t
        | inr t ↦ elim first [
          | inl t' ↦ back_hashed st' hashed ks small crc32 d delivers from t'
          | inr nothing ↦ back_summed st' hashed ks small crc32 d delivers from nothing t
        ]
      ]
