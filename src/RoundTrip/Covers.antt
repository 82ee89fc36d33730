-- ===== src/RoundTrip/Covers.antt =====
-- The loop over the passes of `rzip_fd` of src/rzip.c, and the chunks that it leaves.
use lrzip_next.Common.{ℕ, zero, suc, ◌+◌, ◌-◌, ◌≤◌, ◌<◌, ◌≡◌, refl, sym, ap, ◌∙◌, arith, subst, min}
use lrzip_next.Common.{true, false, ltb, ◌==◌, Bool-cases, inl, inr, some}
use lrzip_next.Common.{List, [], ◌∷◌, ◌++◌, append_assoc}
use lrzip_next.Common.Results.{Result, ok, ◌>>=◌}
use lrzip_next.Stream.Out.{stream0, stream1}
use lrzip_next.Rzip.Slice.{slice, slice-add}
use lrzip_next.Rzip.Files.{
  FileControl, Chunk, RzipFd, max_chunk, Passes, passes_from, rzip_pass, rzip_loop,
}
use lrzip_next.Runzip.Files.{ArchiveChunk}
use lrzip_next.RoundTrip.Passes.{Delivered, Comes, Works, max_chunk-pos, rzip_pass-Passed}
use lrzip_next.RoundTrip.{handed_chan}

-- Chunks that come back as the bytes of the file from `off` up to `end`; the last one is marked.
pub data Covers (crc : List ℕ → ℕ) (file : ℕ → ℕ) (end : ℕ) : List Chunk → ℕ → Type 0 where
  last :
      {c : Chunk} {off n : ℕ}
      → Comes crc file c off n
      → c.eof ≡ true
      → off + n ≡ end
      → Covers crc file end (c ∷ []) off
  more :
      {c : Chunk} {cs : List Chunk} {off n : ℕ}
      → Comes crc file c off n
      → c.eof ≡ false
      → 0 < n
      → off + n < end
      → Covers crc file end cs (off + n)
      → Covers crc file end (c ∷ cs) off

pub slice-join :
    (file : ℕ → ℕ) (xs : List ℕ) (off n m : ℕ)
    → (xs ++ slice file off n) ++ slice file (off + n) m ≡ xs ++ slice file off (n + m)
slice-join file xs off n m =
    append_assoc xs (slice file off n) (slice file (off + n) m)
    ∙ ap (λ ys. xs ++ ys) (sym (slice-add file off n m))

passes_from-done :
    (again : RzipFd → Passes) (chunk : Chunk) (fd : RzipFd)
    → ltb 0 fd.len ≡ false
    → passes_from again chunk fd ≡ ok (chunk ∷ [], fd.hashed)
unfolding passes_from
passes_from-done again chunk fd e = rw (e, passes_from) refl

passes_from-more :
    (again : RzipFd → Passes) (chunk : Chunk) (fd : RzipFd) (cs : List Chunk) (h : List ℕ)
    → ltb 0 fd.len ≡ true
    → again fd ≡ ok (cs, h)
    → passes_from again chunk fd ≡ ok (chunk ∷ cs, h)
unfolding passes_from
passes_from-more again chunk fd cs h e run = rw (e, passes_from) (rw (run, ◌>>=◌) refl)

pub then_passes :
    {A B : Type 0} (r : Result A) (a : A) (next : A → Result B) → r ≡ ok a → (r >>= next) ≡ next a
then_passes r a next e = rw (e, ◌>>=◌) refl

module _ (c : FileControl) (file : ℕ → ℕ) (works : Works c) where
  pub rzip_loop-Covers :
      (fuel : ℕ) (fd : RzipFd)
      → fd.len < fuel
      → fd.len ≤ c.st_size
      → fd.eof ≡ false
      → (cs : List Chunk) × (rzip_loop fuel c file fd
          ≡ ok (cs, fd.hashed ++ slice file (c.st_size - fd.len) fd.len))
        × Covers c.env.crc file c.st_size cs (c.st_size - fd.len)
  unfolding rzip_loop
  rzip_loop-Covers zero fd lt le e = absurd (omega (arith, lt))
  rzip_loop-Covers (suc fuel) fd lt le e =
      let (chunk, fd', p) = rzip_pass-Passed c file works fd le e in
      elim (Bool-cases (ltb 0 fd'.len)) [
        | inr done ↦
            let all : min (max_chunk c) fd.len ≡ fd.len = ground (arith, done, p.left) in
            (
              chunk ∷ [],
              then_passes (rzip_pass c file fd) (chunk, fd')
                    (λ x. passes_from (rzip_loop fuel c file) x.0 x.1) p.run
                  ∙ passes_from-done (rzip_loop fuel c file) chunk fd' done
                  ∙ ap (λ h. ok (chunk ∷ [], h))
                      (p.fed ∙ ap (λ n. fd.hashed ++ slice file (c.st_size - fd.len) n) all),
              last p.comes (p.last ∙ ground (arith, all)) (omega (arith, all, le)),
            )
        | inl goes_on ↦
            let n = min (max_chunk c) fd.len in
            let before : n < fd.len = ground (arith, goes_on, p.left) in
            let some_bytes : 0 < n =
              omega
                (arith, before, le, max_chunk-pos c works.some_page (omega (arith, before, le))) in
            let unfinished : (n == fd.len) ≡ false = ground (arith, before) in
            let at : c.st_size - fd'.len ≡ c.st_size - fd.len + n =
              omega (arith, p.left, before, le) in
            let (cs, run, covers) =
              rzip_loop-Covers fuel fd' (omega (arith, p.left, lt, some_bytes, before))
                (omega (arith, p.left, le)) (p.same ∙ p.last ∙ unfinished) in
            (
              chunk ∷ cs,
              then_passes (rzip_pass c file fd) (chunk, fd')
                    (λ x. passes_from (rzip_loop fuel c file) x.0 x.1) p.run
                  ∙ passes_from-more (rzip_loop fuel c file) chunk fd' cs _ goes_on run
                  ∙ ap (λ h. ok (chunk ∷ cs, h))
                      (ap (λ h. h ++ slice file (c.st_size - fd'.len) fd'.len) p.fed
                        ∙ ap
                            (λ o.
                              (fd.hashed ++ slice file (c.st_size - fd.len) n)
                              ++ slice file o fd'.len)
                            at
                        ∙ slice-join file fd.hashed (c.st_size - fd.len) n fd'.len
                        ∙ ap (λ k. fd.hashed ++ slice file (c.st_size - fd.len) k)
                            (let z : n + fd'.len ≡ fd.len = omega (arith, p.left, before) in z)),
              more p.comes (p.last ∙ unfinished) some_bytes (omega (arith, before, le))
                  (subst (Covers c.env.crc file c.st_size cs) at covers),
            )
      ]

-- The reader finds each of the chunks, and no other.
abbrev pub AllDelivered : ℕ → List Chunk → List ArchiveChunk → Type 0
AllDelivered expected [] [] = Unit {0}
AllDelivered expected [] (a ∷ found_cs) = ⊥
AllDelivered expected (c ∷ cs) [] = ⊥
AllDelivered expected (c ∷ cs) (a ∷ found_cs) =
    Delivered expected c a × AllDelivered expected cs found_cs

-- The chunks with the blocks as they were handed over, and the flags of the passes.
abbrev pub handed_chunks : List Chunk → List ArchiveChunk
handed_chunks [] = []
handed_chunks (c ∷ cs) =
    record {
      chunk_bytes = c.chunk_bytes;
      at_end = false;
      streams = some (handed_chan stream0 c.streams, handed_chan stream1 c.streams);
      eof = c.eof;
    }
    ∷ handed_chunks cs

handed :
    {crc : List ℕ → ℕ} {file : ℕ → ℕ} {off n : ℕ} (expected : ℕ) (c : Chunk)
    → Comes crc file c off n
    → Delivered expected c (record {
      chunk_bytes = c.chunk_bytes;
      at_end = false;
      streams = some (handed_chan stream0 c.streams, handed_chan stream1 c.streams);
      eof = c.eof;
    })
handed expected c comes = record {
  width = refl;
  not_at_end = refl;
  s0 = handed_chan stream0 c.streams;
  s1 = handed_chan stream1 c.streams;
  opened = refl;
  delivers = comes.valid;
  flag = inr refl;
}

pub Covers-handed :
    {crc : List ℕ → ℕ} {file : ℕ → ℕ} {size : ℕ} (expected : ℕ) (cs : List Chunk) (off : ℕ)
    → Covers crc file size cs off
    → AllDelivered expected cs (handed_chunks cs)
Covers-handed expected [] off x = elim x [ ]
Covers-handed expected (c ∷ cs) off (last comes e at_size) = (handed expected c comes, tt)
Covers-handed expected (c ∷ cs) off (more comes e lo lt covers) =
    (handed expected c comes, Covers-handed expected cs _ covers)
