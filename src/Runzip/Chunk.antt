-- ===== src/Runzip/Chunk.antt =====
-- A whole chunk of src/runzip.c: the loop has enough fuel, the output is what the tokens mean, and
-- the CRC is checked.
use lrzip_next.Common.{ℕ, ◌+◌, ◌^◌, ◌≤◌, ◌<◌, ◌≡◌, ◌≢◌, refl, sym, ap, ◌∙◌, arith}
use lrzip_next.Common.{Bool, true, false, ◌==◌, if◌then◌else◌}
use lrzip_next.Common.{List, [], ◌∷◌, ◌++◌, length, drop, flatten}
use lrzip_next.Common.{length-append, length-drop, drop-append_length}
use lrzip_next.Bytes.{le_bytes}
use lrzip_next.Stream.In.Laws.{Good}
use lrzip_next.Rzip.Put.Token.{Token, literal, copy, header, headers, payloads, expand, total, Fits}
use lrzip_next.Runzip.{Runzip, ok, err, fatal, token_loop, tokens, unzip_chunk, ◌>>=◌}
use lrzip_next.Runzip.Rounds.{Ran}
use lrzip_next.Runzip.Laws.{token_loop-Ran}
use lrzip_next.Runzip.Reads.{read_u32-Good}

length-headers : (cb : ℕ) (ks : List Token) → length ks ≤ length (headers cb ks)
length-headers cb [] = omega arith
length-headers cb (literal bs ∷ ks) =
    omega (arith, length-headers cb ks, length-append (header cb (literal bs)) (headers cb ks))
length-headers cb (copy ofs len ∷ ks) = omega (
  arith,
  length-headers cb ks,
  length-append (header cb (copy ofs len)) (headers cb ks),
  length-append (1 ∷ le_bytes 2 len) (le_bytes cb ofs),
)

pub tokens-enough :
    (cb : ℕ) (ks : List Token) (r : Runzip) (rest : List ℕ)
    → Good r.s0 (headers cb ks ++ rest)
    → length ks < tokens r
unfolding flatten
tokens-enough cb ks r rest h = omega (
  arith,
  ap length h.holds,
  length-append (headers cb ks) rest,
  length-headers cb ks,
  length-append (drop r.s0.bufp r.s0.buf) (flatten r.s0.blocks),
  length-drop r.s0.bufp r.s0.buf,
)

-- The chunk is read: the bytes are written, each is fed to the hash, or to the CRC.
pub record Unzipped (has_hash : Bool) (r r' : Runzip) (xs : List ℕ) : Type 0 where
  pub out : r'.out ≡ r.out ++ xs
  pub summed : r'.summed ≡ (if has_hash then r.summed else r.summed ++ xs)
  pub hashed : r'.hashed ≡ (if has_hash then r.hashed ++ xs else r.hashed)

Unzipped-Ran :
    (has_hash : Bool) (r r' : Runzip) (ks : List Token) (rest0 rest1 xs : List ℕ)
    → expand ks r.out ≡ r.out ++ xs
    → Ran has_hash r r' ks rest0 rest1
    → Unzipped has_hash r r' xs
Unzipped-Ran has_hash r r' ks rest0 rest1 xs e ran =
    let (bs, w) = ran.wrote in
    let same : bs ≡ xs =
      sym (drop-append_length r.out bs)
      ∙ ap (drop (length r.out)) (sym w.out ∙ ran.expands ∙ e)
      ∙ drop-append_length r.out xs in
    record {
      out = ran.expands ∙ e;
      summed = w.summed ∙ ap (λ k. if has_hash then r.summed else r.summed ++ k) same;
      hashed = w.hashed ∙ ap (λ k. if has_hash then r.hashed ++ k else r.hashed) same;
    }

module _ (crc : List ℕ → ℕ) (cb : ℕ) (ks : List Token) (r : Runzip) (ck : ℕ)
    (rest0 rest1 xs : List ℕ) (fits : Fits cb 0 ks) (small : total ks < 2 ^ 63) (ck32 : ck < 2 ^ 32)
    (h0 : Good r.s0 (headers cb ks ++ (0 ∷ 0 ∷ 0 ∷ le_bytes 4 ck ++ rest0)))
    (h1 : Good r.s1 (payloads ks ++ rest1)) (meaning : expand ks r.out ≡ r.out ++ xs) where
  loop :
      (has_hash : Bool)
      → (r' : Runzip) × (token_loop (tokens r) has_hash r cb 0 ≡ ok (0 + total ks, r'))
        × Ran has_hash r r' ks (le_bytes 4 ck ++ rest0) rest1
  loop has_hash =
      token_loop-Ran has_hash cb ks (tokens r) 0 0 r (le_bytes 4 ck ++ rest0) rest1
        (tokens-enough cb ks r _ h0) fits (omega arith) (omega arith) h0 h1

  from_zero : 0 + total ks ≡ total ks
  from_zero = omega arith

  -- For streams with tokens that fit, of less than 2 ^ 63 bytes, their end, a CRC of 32 bits and
  -- the literals: with a stored hash the chunk is written and hashed, whatever the CRC.
  pub unzip_chunk-hashed :
      (r' : Runzip) × (unzip_chunk crc true r cb ≡ ok (total ks, r')) × Unzipped true r r' xs
  unfolding unzip_chunk
  unzip_chunk-hashed =
      let (r', run, ran) = loop true in
      (
        r',
        rw (run, unzip_chunk) (ap (λ n. ok (n, r')) from_zero),
        Unzipped-Ran true r r' ks _ rest1 xs meaning ran,
      )

  -- For streams with tokens that fit, of less than 2 ^ 63 bytes, their end, a CRC of 32 bits and
  -- the literals: without a stored hash, where the CRC is that of what was summed before
  -- and the chunk, the chunk is written and summed.
  pub unzip_chunk-summed :
      ck ≡ crc (r.summed ++ xs)
      → (r' : Runzip) × (unzip_chunk crc false r cb ≡ ok (total ks, r')) × Unzipped false r r' xs
  unfolding unzip_chunk
  unzip_chunk-summed e =
      let (r1, run, ran) = loop false in
      let u = Unzipped-Ran false r r1 ks _ rest1 xs meaning ran in
      let (s, e4, g) = read_u32-Good r1 ck rest0 ck32 ran.good0 in
      let c : ck ≡ crc r1.summed = e ∙ ap crc (sym u.summed) in
      let t : (ck == crc r1.summed) ≡ true = ground arith in
      (
        record r1 { s0 = s },
        rw (run, unzip_chunk)
            (rw (e4, unzip_chunk)
              (rw (t, ◌>>=◌) (ap (λ n. ok (n, record r1 { s0 = s })) from_zero))),
        record { out = u.out; summed = u.summed; hashed = u.hashed },
      )

  -- For streams with tokens that fit, of less than 2 ^ 63 bytes, their end, a CRC of 32 bits and
  -- the literals: without a stored hash, where the CRC is not that of what was summed
  -- before and the chunk, the program ends with an error.
  pub unzip_chunk-refused : ck ≢ crc (r.summed ++ xs) → unzip_chunk crc false r cb ≡ err fatal
  unfolding unzip_chunk
  unzip_chunk-refused ne =
      let (r1, run, ran) = loop false in
      let u = Unzipped-Ran false r r1 ks _ rest1 xs meaning ran in
      let (s, e4, g) = read_u32-Good r1 ck rest0 ck32 ran.good0 in
      let c : ck ≢ crc r1.summed = λ q. ne (q ∙ ap crc u.summed) in
      let t : (ck == crc r1.summed) ≡ false = ground arith in
      rw (run, unzip_chunk) (rw (e4, unzip_chunk) (rw (t, ◌>>=◌) refl))
