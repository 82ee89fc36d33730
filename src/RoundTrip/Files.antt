-- ===== src/RoundTrip/Files.antt =====
-- A whole file: `rzip_fd` of src/rzip.c, then `runzip_fd` of src/runzip.c on the chunks that it leaves.
use lrzip_next.Common.{◌<◌}
use lrzip_next.Common.{ℕ, zero, suc, ◌+◌, ◌-◌, ◌≡◌, ◌⊎◌, refl, sym, ap, ◌∙◌, arith, subst}
use lrzip_next.Common.{
  Bool, true, false, ◌&&◌, ◌||◌, not, ltb, ◌==◌, if◌then◌else◌, inl, inr, Option, some, none,
}
use lrzip_next.Common.{List, [], ◌∷◌, ◌++◌}
use lrzip_next.Common.Results.{Result, ok, err, fatal, guard, ◌>>=◌, ◌>>◌}
use lrzip_next.Rzip.State.{RzipState}
use lrzip_next.Rzip.Slice.{slice}
use lrzip_next.Rzip.Files.{FileControl, Chunk, RzipFd, rzip_loop, rzip_fd}
use lrzip_next.Runzip.{Runzip}
use lrzip_next.Runzip.Files.{
  ArchiveChunk, runzip_loop, strncmp_equal, check_hash, no_output, runzip_fd,
}
use lrzip_next.RoundTrip.Passes.{Works}
use lrzip_next.RoundTrip.Covers.{
  Covers, last, more, slice-join, then_passes, rzip_loop-Covers, AllDelivered, handed_chunks,
  Covers-handed,
}

-- The chunks are read one after another. Where the size of the file is not known, it is the mark of the
-- last chunk that ends the reading.
record Retrieved (crc : List ℕ → ℕ) (file : ℕ → ℕ) (size expected : ℕ)
    (found_cs : List ArchiveChunk) (off : ℕ) (r : Runzip) : Type 0 where
  after : Runzip
  runs : runzip_loop crc true expected found_cs off r ≡ ok (size, after)
  output : after.out ≡ r.out ++ slice file off (size - off)
  digest : after.hashed ≡ r.hashed ++ slice file off (size - off)

-- The size is known from the magic header, or it is 0 there.
abbrev pub Known : ℕ → ℕ → Type 0
Known expected size = (expected ≡ size) ⊎ (expected ≡ 0)

flag_where : {expected : ℕ} {b c : Bool} → (0 < expected) ⊎ (b ≡ c) → expected ≡ 0 → b ≡ c
flag_where (inl lo) z = absurd (omega (arith, lo, z))
flag_where (inr e) z = e

module _ (crc : List ℕ → ℕ) (file : ℕ → ℕ) (size expected : ℕ) (known : Known expected size) where
  runzip_loop-Covers :
      (cs : List Chunk) (found_cs : List ArchiveChunk) (off : ℕ) (r : Runzip)
      → Covers crc file size cs off
      → AllDelivered expected cs found_cs
      → Retrieved crc file size expected found_cs off r
  unfolding runzip_loop
  runzip_loop-Covers [] found_cs off r x f = elim x [ ]
  runzip_loop-Covers (c ∷ cs) [] off r x f = absurd f
  runzip_loop-Covers (c ∷ cs) (a ∷ b ∷ found_cs) off r (last comes eof e) f = absurd f.1
  runzip_loop-Covers (c ∷ cs) (a ∷ []) off r (last {n = n} comes eof e) f =
      let x = comes.reads expected a f.0 r in
      let mark : expected ≡ 0 → a.eof ≡ true = λ z. flag_where f.0.flag z ∙ eof in
      let enough : not (ltb n 1 && ltb off expected) ≡ true = elim known [
        | inl k ↦ ground (arith, k, e)
        | inr k ↦ ground (arith, k)
      ] in
      let ends : (ltb (off + n) expected || ((expected == 0) && not a.eof)) ≡ false = elim known [
        | inl k ↦ ground (arith, k, e)
        | inr k ↦ ground (arith, k, mark k)
      ] in
      record {
        after = x.after;
        runs =
            rw (x.runs, runzip_loop) (rw (enough, ◌>>=◌) (rw ends (ap (λ k. ok (k, x.after)) e)));
        output =
            x.output
            ∙ ap (λ k. r.out ++ slice file off k) (let z : n ≡ size - off = omega (arith, e) in z);
        digest =
            x.digest
            ∙ ap (λ k. r.hashed ++ slice file off k)
                (let z : n ≡ size - off = omega (arith, e) in z);
      }
  runzip_loop-Covers (c ∷ cs) (a ∷ found_cs) off r (more {n = n} comes not_eof lo lt covers) f =
      let x = comes.reads expected a f.0 r in
      let unmarked : expected ≡ 0 → a.eof ≡ false = λ z. flag_where f.0.flag z ∙ not_eof in
      let y = runzip_loop-Covers cs found_cs (off + n) x.after covers f.1 in
      let enough : not (ltb n 1 && ltb off expected) ≡ true = ground (arith, lo) in
      let goes_on : (ltb (off + n) expected || ((expected == 0) && not a.eof)) ≡ true = elim known [
        | inl k ↦ ground (arith, k, lt)
        | inr k ↦ ground (arith, k, unmarked k)
      ] in
      let rest : n + (size - (off + n)) ≡ size - off = omega (arith, lt) in
      record {
        after = y.after;
        runs = rw (x.runs, runzip_loop) (rw (enough, ◌>>=◌) (rw goes_on y.runs));
        output =
            y.output
            ∙ ap (λ xs. xs ++ slice file (off + n) (size - (off + n))) x.output
            ∙ slice-join file r.out off n (size - (off + n))
            ∙ ap (λ k. r.out ++ slice file off k) rest;
        digest =
            y.digest
            ∙ ap (λ xs. xs ++ slice file (off + n) (size - (off + n))) x.digest
            ∙ slice-join file r.hashed off n (size - (off + n))
            ∙ ap (λ k. r.hashed ++ slice file off k) rest;
      }

strncmp_equal-same : (n : ℕ) (xs : List ℕ) → strncmp_equal n xs xs ≡ true
unfolding strncmp_equal
strncmp_equal-same zero xs = refl
strncmp_equal-same (suc n) [] = refl
strncmp_equal-same (suc n) (x ∷ xs) = rw (strncmp_equal-same n xs) (ground arith)

or_true : (b : Bool) → guard (b || true) fatal ≡ ok tt
or_true true = refl
or_true false = refl

check_hash-same :
    (md : List ℕ → List ℕ) (hash_len : ℕ) (check_file : Bool) (r : Runzip)
    → r.hashed ≡ r.out
    → check_hash md hash_len check_file (md r.hashed) r ≡ ok tt
unfolding check_hash
check_hash-same md hash_len check_file r e =
    rw (strncmp_equal-same hash_len (md r.hashed), ◌>>=◌)
      (ap (λ xs. guard (not check_file || strncmp_equal hash_len (md r.hashed) (md xs)) fatal)
          (sym e)
        ∙ ap (λ b. guard (not check_file || b) fatal) (strncmp_equal-same hash_len (md r.hashed))
        ∙ or_true (not check_file))

-- Two answers to the same call.
same_answer :
    {x : Result (List Chunk × Option (List ℕ))} {cs cs' : List Chunk} {h h' : Option (List ℕ)}
    → x ≡ ok (cs, h)
    → x ≡ ok (cs', h')
    → (cs ≡ cs') × (h ≡ h')
same_answer {cs = cs} {h = h} e f =
    let of : Result (List Chunk × Option (List ℕ)) → List Chunk × Option (List ℕ) =
      λ (r : Result (List Chunk × Option (List ℕ))). elim r [ ok p ↦ p | err x ↦ (cs, h) ] in
    let p = ap of (sym e ∙ f) in (ap (λ q. q.0) p, ap (λ q. q.1) p)

module _ (c : FileControl) (file : ℕ → ℕ) (works : Works c) (md : List ℕ → List ℕ)
    (st : RzipState) where
  -- What `rzip_fd` returns.
  record Compressed (cs : List Chunk) (hash : Option (List ℕ)) : Type 0 where
    run : rzip_fd c md file st ≡ ok (cs, hash)
    stored : hash ≡ some (md (slice file 0 c.st_size))
    covers : Covers c.env.crc file c.st_size cs 0

  compresses : (cs : List Chunk) × (hash : Option (List ℕ)) × Compressed cs hash
  unfolding rzip_fd
  compresses =
      let fd : RzipFd = record { st = st; len = c.st_size; eof = false; hashed = [] } in
      let (cs, run, covers) =
        rzip_loop-Covers c file works (c.st_size + 1) fd (omega arith) (omega arith) refl in
      let from_start : c.st_size - c.st_size ≡ 0 = omega arith in
      (
        cs,
        some (md (slice file 0 c.st_size)),
        record {
          run =
              then_passes (rzip_loop (c.st_size + 1) c file fd) _
                (λ y. ok (y.0, if c.env.has_hash then some (md y.1) else none)) run
              ∙ ap
                  (λ b. ok (
                    cs,
                    if b then some (md (slice file (c.st_size - c.st_size) c.st_size)) else none,
                  ))
                  works.has_hash
              ∙ ap (λ o. ok (cs, some (md (slice file o c.st_size)))) from_start;
          stored = refl;
          covers = subst (Covers c.env.crc file c.st_size cs) from_start covers;
        },
      )

  pub rzip_fd-returns :
      (expected : ℕ)
      → (cs : List Chunk) × (rzip_fd c md file st ≡ ok (cs, some (md (slice file 0 c.st_size))))
        × AllDelivered expected cs (handed_chunks cs)
  rzip_fd-returns expected =
      let (cs, hash, x) = compresses in
      (cs, x.run ∙ ap (λ h. ok (cs, h)) x.stored, Covers-handed expected cs 0 x.covers)

  -- Where every chunk is mapped whole, `malloc` grants what `hash_search` asks for, the buffers of the streams
  -- are not empty, the CRC has 32 bits, the file has less than 2 ^ 63 bytes and a hash is stored: what
  -- `rzip_fd` returns is such that `runzip_fd` gets the bytes of the file and their number, and the hash
  -- is right, when it finds each of the chunks: the byte width, and streams that hold the bytes of the
  -- jobs in blocks of which only the last can be empty. The size that it expects is that of the file, or 0
  -- for one that is not known; then `control->eof` behind each chunk must be the one of its pass, too.
  pub file-round_trip :
      (hash_len : ℕ) (check_file : Bool) (expected : ℕ) (cs : List Chunk) (hash : Option (List ℕ))
      (archive : List ArchiveChunk)
      → Known expected c.st_size
      → rzip_fd c md file st ≡ ok (cs, hash)
      → AllDelivered expected cs archive
      → runzip_fd c.env.crc md hash_len check_file expected archive hash
        ≡ ok (c.st_size, slice file 0 c.st_size)
  unfolding runzip_fd
  file-round_trip hash_len check_file expected cs hash archive known returned found =
      let (cs', hash', w) = compresses in
      let (same_chunks, same_hash) = same_answer returned w.run in
      let x =
        runzip_loop-Covers c.env.crc file c.st_size expected known cs' archive 0 no_output w.covers
          (subst (λ l. AllDelivered expected l archive) same_chunks found) in
      let whole : c.st_size - 0 ≡ c.st_size = omega arith in
      let output : x.after.out ≡ slice file 0 c.st_size = x.output ∙ ap (slice file 0) whole in
      let digest : x.after.hashed ≡ slice file 0 c.st_size = x.digest ∙ ap (slice file 0) whole in
      let stored = md (slice file 0 c.st_size) in
      ap (runzip_fd c.env.crc md hash_len check_file expected archive) (same_hash ∙ w.stored)
      ∙ then_passes (runzip_loop c.env.crc true expected archive 0 no_output) (c.st_size, x.after)
          (λ y. check_hash md hash_len check_file stored y.1 >> ok (y.0, y.1.out)) x.runs
      ∙ ap (λ h. check_hash md hash_len check_file (md h) x.after >> ok (c.st_size, x.after.out))
          (sym digest)
      ∙ ap (λ m. m >> ok (c.st_size, x.after.out))
          (check_hash-same md hash_len check_file x.after (digest ∙ sym output))
      ∙ ap (λ o. ok (c.st_size, o)) output
