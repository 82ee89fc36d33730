-- ===== src/Rzip/Put/Frame.antt =====
-- What `put_literal` and `put_match` leave alone, and how they count.
use lrzip_next.Common.{ℕ, zero, suc, ◌+◌, ◌-◌, ◌<◌, ◌≡◌, refl, ◌∙◌, subst, arith, ltb, ◌==◌}
use lrzip_next.Common.{Bool-cases, inl, inr}
use lrzip_next.Rzip.State.{RzipState}
use lrzip_next.Rzip.Put.{
  piece, match_round, put_match_loop, put_match, literal_round, put_literal_loop, put_literal,
}

-- The sizes, the mask table and `last_match` are the same, and the counts have grown by these bytes.
pub record Keeps (st st' : RzipState) (literals matches : ℕ) : Type 0 where
  pub size : st'.chunk_size ≡ st.chunk_size
  pub bytes : st'.chunk_bytes ≡ st.chunk_bytes
  pub index : st'.hash_index ≡ st.hash_index
  pub last : st'.last_match ≡ st.last_match
  pub literal : st'.stats.literal_bytes ≡ st.stats.literal_bytes + literals
  pub match : st'.stats.match_bytes ≡ st.stats.match_bytes + matches

Keeps-trans :
    (a b c : RzipState) (l l' l'' m m' m'' : ℕ)
    → l + l' ≡ l''
    → m + m' ≡ m''
    → Keeps a b l m
    → Keeps b c l' m'
    → Keeps a c l'' m''
Keeps-trans a b c l l' l'' m m' m'' el em h k = record {
  size = k.size ∙ h.size;
  bytes = k.bytes ∙ h.bytes;
  index = k.index ∙ h.index;
  last = k.last ∙ h.last;
  literal = omega (arith, h.literal, k.literal);
  match = omega (arith, h.match, k.match);
}

match_round-Keeps : (st : RzipState) (p offset n : ℕ) → Keeps st (match_round st p offset n) 0 n
unfolding match_round
match_round-Keeps st p offset n = record {
  size = refl;
  bytes = refl;
  index = refl;
  last = refl;
  literal = omega arith;
  match = refl;
}

put_match_loop-Keeps :
    (fuel : ℕ) (st : RzipState) (p offset len : ℕ)
    → len < fuel
    → Keeps st (put_match_loop fuel st p offset len) 0 len
unfolding put_match_loop
put_match_loop-Keeps zero st p offset len f = absurd (omega arith)
put_match_loop-Keeps (suc fuel) st p offset len f =
    let n = piece len in
    let one = match_round-Keeps st p offset n in
    elim (Bool-cases (len - n == 0)) [
      | inl done ↦ rw done (
          let e : n ≡ len = ground arith in
          subst (λ k. Keeps st (match_round st p offset n) 0 k) e one)
      | inr more ↦ rw more (
          Keeps-trans st (match_round st p offset n) _ 0 0 0 n (len - n) len (omega arith)
            (ground arith) one
            (put_match_loop-Keeps fuel (match_round st p offset n) (p + n) (offset + n) (len - n)
              (ground arith)))
    ]

-- `put_match` adds its length to the bytes in matches, adds none to the literal bytes, and leaves the
-- sizes, the tags of bytes and `last_match` alone.
pub put_match-Keeps :
    (st : RzipState) (p offset len : ℕ) → Keeps st (put_match st p offset len) 0 len
unfolding put_match
put_match-Keeps st p offset len = put_match_loop-Keeps (suc len) st p offset len (omega arith)

module _ (byte : ℕ → ℕ) where
  literal_round-Keeps : (st : RzipState) (last n : ℕ) → Keeps st (literal_round byte st last n) n 0
  unfolding literal_round
  literal_round-Keeps st last n = record {
    size = refl;
    bytes = refl;
    index = refl;
    last = refl;
    literal = refl;
    match = omega arith;
  }

  put_literal_loop-Keeps :
      (fuel : ℕ) (st : RzipState) (last p : ℕ)
      → p - last < fuel
      → Keeps st (put_literal_loop byte fuel st last p) (p - last) 0
  unfolding put_literal_loop
  put_literal_loop-Keeps zero st last p f = absurd (omega arith)
  put_literal_loop-Keeps (suc fuel) st last p f =
      let n = piece (p - last) in
      let one = literal_round-Keeps st last n in
      elim (Bool-cases (ltb (last + n) p)) [
        | inl more ↦ rw more (
            Keeps-trans st (literal_round byte st last n) _ n (p - (last + n)) (p - last) 0 0 0
              (ground arith) (omega arith) one
              (put_literal_loop-Keeps fuel (literal_round byte st last n) (last + n) p
                (ground arith)))
        | inr done ↦ rw done (
            let e : n ≡ p - last = ground arith in
            subst (λ k. Keeps st (literal_round byte st last n) k 0) e one)
      ]

  -- `put_literal` adds the bytes between `last` and `p` to the literal bytes, adds none to those in
  -- matches, and leaves the sizes, the tags of bytes and `last_match` alone.
  pub put_literal-Keeps :
      (st : RzipState) (last p : ℕ) → Keeps st (put_literal byte st last p) (p - last) 0
  unfolding put_literal
  put_literal-Keeps st last p = put_literal_loop-Keeps (suc (p - last)) st last p (omega arith)
