-- ===== src/Runzip/Laws.antt =====
-- The loop over the tokens of src/runzip.c rebuilds what the tokens mean.
use lrzip_next.Common.{ℕ, zero, suc, ◌+◌, ◌^◌, ◌≤◌, ◌<◌, ◌≡◌, refl, ap, ◌∙◌, arith}
use lrzip_next.Common.{Bool, subst}
use lrzip_next.Common.{List, [], ◌∷◌, ◌++◌, length, append_assoc}
use lrzip_next.Bytes.{le_bytes}
use lrzip_next.Stream.In.Laws.{Good}
use lrzip_next.Rzip.Put.Token.{Token, literal, copy, header, headers, payload, payloads}
use lrzip_next.Rzip.Put.Token.{expand, width, total, FitsOne, Fits}
use lrzip_next.Runzip.{Runzip, ok, token_loop}
use lrzip_next.Runzip.Copy.{Wrote-nil, Wrote-trans}
use lrzip_next.Runzip.Rounds.{Ran, Round, take_literal, take_copy, length-expand_one}
use lrzip_next.Runzip.Reads.{read_header-Good}

Ran-trans :
    (has_hash : Bool) (a b c : Runzip) (k : Token) (ks : List Token) (xs ys xs' ys' : List ℕ)
    → Ran has_hash a b (k ∷ []) xs ys
    → Ran has_hash b c ks xs' ys'
    → Ran has_hash a c (k ∷ ks) xs' ys'
Ran-trans has_hash a b c k ks xs ys xs' ys' h g =
    let (bs, w) = h.wrote in
    let (bs', w') = g.wrote in
    record {
      good0 = g.good0;
      good1 = g.good1;
      expands = g.expands ∙ ap (expand ks) h.expands;
      wrote = (bs ++ bs', Wrote-trans has_hash a b c bs bs' w w');
    }

module _ (has_hash : Bool) (cb : ℕ) where
  round :
      (k : Token) (pos : ℕ) (r : Runzip) (rest0 rest1 : List ℕ)
      → FitsOne cb pos k
      → pos ≤ length r.out
      → pos < 2 ^ 63
      → Good r.s0 (header cb k ++ rest0)
      → Good r.s1 (payload k ++ rest1)
      → (r' : Runzip) × Round has_hash cb r r' k rest0 rest1
  round (literal bs) pos r rest0 rest1 (lo, hi) le small h0 h1 =
      take_literal has_hash cb r bs rest0 rest1 lo hi h0 h1
  round (copy ofs len) pos r rest0 rest1 (lo, hi, o, near, fit) le small h0 h1 =
      take_copy has_hash cb r ofs len rest0 rest1 (lo, hi, o, omega arith, fit) (omega arith) h0 h1

  -- With tokens that fit, of less than 2 ^ 63 bytes, their headers and their end on stream 0 and the
  -- literals on stream 1, and with more rounds than tokens, the loop ends, counts the bytes of the
  -- tokens, has done what they say, and leaves the rest of the streams.
  pub token_loop-Ran :
      (ks : List Token) (fuel tot pos : ℕ) (r : Runzip) (rest0 rest1 : List ℕ)
      → length ks < fuel
      → Fits cb pos ks
      → pos ≤ length r.out
      → pos + total ks < 2 ^ 63
      → Good r.s0 (headers cb ks ++ (0 ∷ 0 ∷ 0 ∷ rest0))
      → Good r.s1 (payloads ks ++ rest1)
      → (r' : Runzip) × (token_loop fuel has_hash r cb tot ≡ ok (tot + total ks, r'))
        × Ran has_hash r r' ks rest0 rest1
  unfolding token_loop le_bytes
  token_loop-Ran ks zero tot pos r rest0 rest1 f fits le small h0 h1 = absurd (omega arith)
  token_loop-Ran [] (suc fuel) tot pos r rest0 rest1 f fits le small h0 h1 =
      let (s, e, g) = read_header-Good r 0 0 rest0 (omega arith) h0 in
      (
        record r { s0 = s },
        rw (e, token_loop)
            (ap (λ n. ok (n, record r { s0 = s })) (let z : tot ≡ tot + 0 = omega arith in z)),
        record {
          good0 = g;
          good1 = h1;
          expands = refl;
          wrote = (
            [],
            let w = Wrote-nil has_hash r in
                record { out = w.out; summed = w.summed; hashed = w.hashed },
          );
        },
      )
  token_loop-Ran (k ∷ ks) (suc fuel) tot pos r rest0 rest1 f fits le small h0 h1 =
      let rest0' = headers cb ks ++ (0 ∷ 0 ∷ 0 ∷ rest0) in
      let (r', (step, ran)) =
        round k pos r rest0' (payloads ks ++ rest1) fits.0 le (omega arith)
          (subst (Good r.s0) (append_assoc (header cb k) (headers cb ks) _) h0)
          (subst (Good r.s1) (append_assoc (payload k) (payloads ks) rest1) h1) in
      let grown : length r'.out ≡ length r.out + width k =
        ap length ran.expands ∙ length-expand_one k r.out in
      let (r'', run, ran') =
        token_loop-Ran ks fuel (tot + width k) (pos + width k) r' rest0 rest1 (omega arith) fits.1
          (omega (arith, grown)) (omega arith) ran.good0 ran.good1 in
      (
        r'',
        step fuel tot
            ∙ run
            ∙ ap (λ n. ok (n, r''))
                (let z : tot + width k + total ks ≡ tot + (width k + total ks) = omega arith in z),
        Ran-trans has_hash r r' r'' k ks _ _ rest0 rest1 ran ran',
      )
