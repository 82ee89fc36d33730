-- ===== src/Runzip/Rounds.antt =====
-- One round of the loop over the tokens of src/runzip.c takes one token.
use lrzip_next.Common.{ℕ, zero, suc, ◌+◌, ◌^◌, ◌≤◌, ◌<◌, min, ◌≡◌, refl, sym, arith}
use lrzip_next.Common.{Bool, false, ◌&&◌, ◌==◌, if◌then◌else◌, subst}
use lrzip_next.Common.{List, [], ◌∷◌, ◌++◌, length, take, append_assoc}
use lrzip_next.Common.{length-append}
use lrzip_next.Bytes.{le_bytes}
use lrzip_next.Stream.In.Laws.{Good}
use lrzip_next.Rzip.Put.Token.{Token, literal, copy, header, expand_one}
use lrzip_next.Rzip.Put.Token.{expand, width, total, FitsOne, copy_back}
use lrzip_next.Runzip.{Runzip, ok, write_out, repeat_loop, token_loop, ◌>>=◌}
use lrzip_next.Runzip.{read_header, unzip_literal, unzip_match}
use lrzip_next.Runzip.Copy.{take-take, back, Wrote, write_out-Wrote, write_out-s0}
use lrzip_next.Runzip.Copy.{write_out-s1, repeat_loop-Copied}
use lrzip_next.Runzip.Reads.{read_header-Good, unzip_literal-Good, unzip_match-Good}

-- `r'` comes out of `r`: the tokens are read and written, and the rest of the two streams is there.
pub record Ran (has_hash : Bool) (r r' : Runzip) (ks : List Token) (rest0 rest1 : List ℕ)
    : Type 0 where
  pub good0 : Good r'.s0 rest0
  pub good1 : Good r'.s1 rest1
  pub expands : r'.out ≡ expand ks r.out
  pub wrote : (bs : List ℕ) × Wrote has_hash r r' bs

pub length-copy_back : (n ofs : ℕ) (out : List ℕ) → length (copy_back n ofs out) ≡ length out + n
unfolding copy_back
length-copy_back zero ofs out = omega arith
length-copy_back (suc n) ofs out = omega (arith, length-copy_back n ofs _, length-append out _)

pub length-expand_one :
    (k : Token) (out : List ℕ) → length (expand_one k out) ≡ length out + width k
length-expand_one (literal bs) out = length-append out bs
length-expand_one (copy ofs len) out = length-copy_back len ofs out

pub length-expand :
    (ks : List Token) (out : List ℕ) → length (expand ks out) ≡ length out + total ks
length-expand [] out = omega arith
length-expand (k ∷ ks) out =
    omega (arith, length-expand ks (expand_one k out), length-expand_one k out)

take-same : (n : ℕ) (xs : List ℕ) → take n (take n xs) ≡ take n xs
take-same n xs = take-take n n xs (omega arith)

module _ (has_hash : Bool) (cb : ℕ) where
  token_step :
      (fuel tot head len u : ℕ) (r r1 r2 : Runzip)
      → read_header r ≡ ok (head, len, r1)
      → (len == 0 && (head == 0)) ≡ false
      → (if head == 0 then unzip_literal has_hash r1 len else unzip_match has_hash r1 len cb)
        ≡ ok (u, r2)
      → token_loop (suc fuel) has_hash r cb tot ≡ token_loop fuel has_hash r2 cb (tot + u)
  unfolding token_loop
  token_step fuel tot head len u r r1 r2 e z e' =
      rw (e, token_loop) (rw (z, ◌>>=◌) (rw (e', ◌>>=◌) refl))

  -- One round takes one token.
  abbrev pub Round : Runzip → Runzip → Token → List ℕ → List ℕ → Type 0
  Round r r' k rest0 rest1 =
      ((fuel tot : ℕ)
        → token_loop (suc fuel) has_hash r cb tot ≡ token_loop fuel has_hash r' cb (tot + width k))
      × Ran has_hash r r' (k ∷ []) rest0 rest1

  pub take_literal :
      (r : Runzip) (bs rest0 rest1 : List ℕ)
      → 0 < length bs
      → length bs ≤ 0xffff
      → Good r.s0 (header cb (literal bs) ++ rest0)
      → Good r.s1 (bs ++ rest1)
      → (r' : Runzip) × Round r r' (literal bs) rest0 rest1
  unfolding token_loop
  take_literal r bs rest0 rest1 lo hi h0 h1 =
      let (s, e, g) = read_header-Good r 0 (length bs) rest0 (omega arith) h0 in
      let r1 = record r { s0 = s } in
      let (t, e', g') = unzip_literal-Good has_hash r1 bs rest1 h1 in
      let r2 = record r1 { s1 = t } in
      let z : (length bs == 0 && (0 == 0)) ≡ false = ground arith in
      let w = write_out-Wrote has_hash r2 bs in
      (
        write_out has_hash r2 bs,
        (
          λ fuel tot. token_step fuel tot 0 (length bs) (length bs) r r1 _ e z e',
          record {
            good0 = subst (λ c. Good c rest0) (sym (write_out-s0 has_hash r2 bs)) g;
            good1 = subst (λ c. Good c rest1) (sym (write_out-s1 has_hash r2 bs)) g';
            expands = w.out;
            wrote = (bs, record { out = w.out; summed = w.summed; hashed = w.hashed });
          },
        ),
      )

  pub take_copy :
      (r : Runzip) (ofs len : ℕ) (rest0 rest1 : List ℕ)
      → FitsOne cb (length r.out) (copy ofs len)
      → ofs < 2 ^ 63
      → Good r.s0 (header cb (copy ofs len) ++ rest0)
      → Good r.s1 rest1
      → (r' : Runzip) × Round r r' (copy ofs len) rest0 rest1
  unfolding token_loop
  take_copy r ofs len rest0 rest1 (lo, hi, o, le, fit) small h0 h1 =
      let h0' = subst (Good r.s0) (append_assoc (1 ∷ le_bytes 2 len) (le_bytes cb ofs) rest0) h0 in
      let (s, e, g) = read_header-Good r 1 len (le_bytes cb ofs ++ rest0) (omega arith) h0' in
      let r1 = record r { s0 = s } in
      let (t, e', g') = unzip_match-Good has_hash r1 ofs len cb rest0 lo o le fit small g in
      let r2 = record r1 { s0 = t } in
      let buf = take (min len ofs) (back ofs r.out) in
      let z : (len == 0 && (1 == 0)) ≡ false = ground arith in
      let c =
        repeat_loop-Copied len has_hash r2 buf ofs len (omega arith) o le
          (take-same (min len ofs) (back ofs r.out)) in
      let (bs, w) = c.bytes in
      (
        repeat_loop len has_hash r2 buf ofs len,
        (
          λ fuel tot. token_step fuel tot 1 len len r r1 _ e z e',
          record {
            good0 = subst (λ k. Good k rest0) (sym c.same0) g';
            good1 = subst (λ k. Good k rest1) (sym c.same1) h1;
            expands = c.copied;
            wrote = (bs, record { out = w.out; summed = w.summed; hashed = w.hashed });
          },
        ),
      )
