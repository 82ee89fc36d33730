-- ===== src/Rzip/Search/Result.antt =====
-- What `hash_search` leaves behind when it is done.
use lrzip_next.Common.{ℕ, zero, suc, ◌+◌, ◌-◌, ◌*◌, ◌/◌, ◌%◌, ◌^◌, ◌≤◌, ◌<◌, ◌≡◌, refl, sym}
use lrzip_next.Common.{ap, ◌∙◌, subst, arith, List, [], ◌∷◌, ◌++◌, Option, none, some}
use lrzip_next.Common.{Bool, true, false, ltb, if◌then◌else◌, Bool-cases, inl, inr, ltb→lt, ltb→ge}
use lrzip_next.Common.{append-nil}
use lrzip_next.Bytes.{le_bytes}
use lrzip_next.Stream.Out.{stream0}
use lrzip_next.Stream.Out.Laws.{Holds, write_stream-Holds}
use lrzip_next.Rzip.State.{RzipState}
use lrzip_next.Rzip.Slice.{slice, slice-add_zero}
use lrzip_next.Rzip.Put.{put_u32, put_literal}
use lrzip_next.Rzip.Put.Token.{Token, headers, payloads, Fits, total, expand}
use lrzip_next.Rzip.Put.Laws.{Encodes, Emitted, put_literal-Encodes, put_literal-Holds_end}
use lrzip_next.Rzip.Put.Frame.{put_literal-Keeps}
use lrzip_next.Rzip.Match.{minimum_match}
use lrzip_next.Rzip.Search.{
  Env, Search, end_of, md_write, start, search_loop, enough, cksum_tail, cksum_rest, rest_literal,
  finish, hash_search,
}
use lrzip_next.Rzip.Search.Inv.{Inv, fed_more}
use lrzip_next.Rzip.Search.Ends.{search_loop-Inv}
use native.Mathlib.Nat.{div-add-mod'}
use mathlib.Core.Option

granted_part :
    {A : Type 0} (b : Bool) (o : Option A) (a : A) → (if b then o else none) ≡ some a → o ≡ some a
granted_part true o a e = e
granted_part false o a e = cc

module _ (env : Env) (byte : ℕ → ℕ) (size cb : ℕ) (old : List ℕ) where
  -- The checksum, and the hash if there is one, have seen the chunk up to `n`.
  record Summed (s : Search) (n : ℕ) : Type 0 where
    crc : s.summed ≡ slice byte 0 n
    fed : s.hashed ≡ (if env.has_hash then old ++ slice byte 0 n else old)

  Summed-at : {s : Search} {m n : ℕ} → m ≡ n → Summed s m → Summed s n
  Summed-at {s} e v = subst (λ n. Summed s n) e v

  md_write-Summed :
      (s : Search) (n len : ℕ) → Summed s n → Summed (md_write env (slice byte n len) s) (n + len)
  md_write-Summed s n len v = record {
    crc = ap (λ r. r ++ slice byte n len) v.crc ∙ sym (slice-add_zero byte n len);
    fed = fed_more byte env.has_hash s.hashed old n len v.fed;
  }

  cksum_tail-Summed :
      (chunks len remains : ℕ) (s : Search)
      → Summed s s.cksum_limit
      → Summed (cksum_tail env byte chunks len remains s) (s.cksum_limit + (chunks * len + remains))
        × ((cksum_tail env byte chunks len remains s).st ≡ s.st)
  unfolding cksum_tail
  cksum_tail-Summed zero len remains s v =
      let e : s.cksum_limit + remains ≡ s.cksum_limit + (0 * len + remains) = omega arith in
      (Summed-at e (md_write-Summed s s.cksum_limit remains v), refl)
  cksum_tail-Summed (suc chunks) len remains s v =
      let r =
        cksum_tail-Summed chunks len remains
          (record (md_write env (slice byte s.cksum_limit len) s) {
            cksum_limit = s.cksum_limit + len;
          })
          (let w = md_write-Summed s s.cksum_limit len v in record { crc = w.crc; fed = w.fed }) in
      let e : s.cksum_limit + len + (chunks * len + remains)
          ≡ s.cksum_limit + (suc chunks * len + remains) =
        omega arith in
      (Summed-at e r.0, r.1)

  -- Some buffer was granted: its pieces and the remains make up what was left.
  tail_of-Summed :
      (s s' : Search) (o : Option ℕ)
      → s.st.chunk_size ≡ size
      → s.cksum_limit ≤ size
      → Summed s s.cksum_limit
      → let left = s.st.chunk_size - s.cksum_limit in
        Option.map (λ len. cksum_tail env byte (left / len) len (left % len) s) o ≡ some s'
        → Summed s' size × (s'.st ≡ s.st)
  tail_of-Summed s s' none sized le v e = cc
  tail_of-Summed s s' (some len) sized le v e =
      let left = s.st.chunk_size - s.cksum_limit in
      let r = cksum_tail-Summed (left / len) len (left % len) s v in
      let all : s.cksum_limit + (left / len * len + left % len) ≡ size =
        omega (arith, div-add-mod' left len, sized) in
      let same : cksum_tail env byte (left / len) len (left % len) s ≡ s' = cc in
      subst (λ w. Summed w size × (w.st ≡ s.st)) same (Summed-at all r.0, r.1)

  cksum_rest-Summed :
      (s s' : Search)
      → s.st.chunk_size ≡ size
      → s.cksum_limit ≤ size
      → Summed s s.cksum_limit
      → cksum_rest env byte s ≡ some s'
      → Summed s' size × (s'.st ≡ s.st)
  unfolding cksum_rest
  cksum_rest-Summed s s' sized le v e = elim (Bool-cases (ltb s.cksum_limit s.st.chunk_size)) [
    | inl more ↦ tail_of-Summed s s' _ sized le v (rw more at e)
    | inr done ↦
        let same : s ≡ s' = let e' = rw done at e in cc e' in
        let all : s.cksum_limit ≡ size =
          omega (arith, ltb→ge s.cksum_limit s.st.chunk_size done, sized) in
        subst (λ w. Summed w size × (w.st ≡ s.st)) same (Summed-at all v, refl)
  ]

  rest_literal-Encodes :
      (s : Search)
      → Inv env byte size cb old s
      → Encodes byte cb (rest_literal env byte s).st.ss size
  unfolding rest_literal
  rest_literal-Encodes s v = elim (Bool-cases (ltb s.st.last_match s.st.chunk_size)) [
    | inl more ↦ rw more (
        subst (λ n. Encodes byte cb literal.ss n) v.sized
          (subst (λ c. Encodes byte c literal.ss s.st.chunk_size) v.bytes
            (put_literal-Encodes byte s.st s.st.last_match s.st.chunk_size (ltb→lt _ _ more)
              (subst (λ c. Encodes byte c s.st.ss s.st.last_match) (sym v.bytes) v.encodes))))
    | inr done ↦ rw done (
        let e : s.st.last_match ≡ size =
          omega (arith, ltb→ge s.st.last_match s.st.chunk_size done, v.sized, v.passed, v.within) in
        subst (λ n. Encodes byte cb s.st.ss n) e v.encodes)
  ]
    where
      literal : RzipState
      literal = put_literal byte s.st s.st.last_match s.st.chunk_size

  rest_literal-size :
      (s : Search) → Inv env byte size cb old s → (rest_literal env byte s).st.chunk_size ≡ size
  unfolding rest_literal
  rest_literal-size s v =
      ground (arith, v.sized, (put_literal-Keeps byte s.st s.st.last_match s.st.chunk_size).size)

  -- The streams of a finished chunk: tokens that expand to the chunk behind any earlier output, the
  -- header of an empty literal, and the CRC of the chunk. The size is as it was. The hash, if there is one, has seen the
  -- chunk behind what it had seen before.
  pub record Done (st : RzipState) (hashed : List ℕ) (ks : List Token) : Type 0 where
    pub holds :
        Holds st.ss
          ((headers cb ks ++ (0 ∷ 0 ∷ 0 ∷ [])) ++ le_bytes 4 (env.crc (slice byte 0 size)))
          (payloads ks)
    pub fits : Fits cb 0 ks
    pub spans : total ks ≡ size
    pub sized : st.chunk_size ≡ size
    pub expands : (out : List ℕ) → expand ks out ≡ out ++ slice byte 0 size
    pub cksum : st.cksum ≡ env.crc (slice byte 0 size)
    pub hashed_all : hashed ≡ (if env.has_hash then old ++ slice byte 0 size else old)

  finish-Done :
      (s : Search) (ks : List Token)
      → Emitted byte cb s.st.ss size ks
      → s.st.chunk_size ≡ size
      → Summed s size
      → Done (finish env byte s).0 (finish env byte s).1 ks
  unfolding finish put_u32
  finish-Done s ks em sized v = record {
    holds = rw (← v.crc) (
        write_stream-Holds _ stream0 (le_bytes 4 (env.crc s.summed)) _ _
          (put_literal-Holds_end byte s.st _ _ em.holds));
    fits = em.fits;
    spans = em.spans;
    sized = (put_literal-Keeps byte s.st 0 0).size ∙ sized;
    expands = em.expands;
    cksum = ap env.crc v.crc;
    hashed_all = v.fed;
  }

  left_at_start : (n : ℕ) → (n - 0) * (n + 1) + (n - 0) < (n + 1) * (n + 1)
  left_at_start n = let e : n - 0 ≡ n = omega arith in rw e (omega arith)

  pub start-Inv :
      (st : RzipState)
      → st.chunk_size ≡ size
      → st.chunk_bytes ≡ cb
      → Holds st.ss [] []
      → Inv env byte size cb old (start env byte st old)
  unfolding start
  start-Inv st e f h = record {
    sized = e;
    bytes = f;
    encodes =
        ([], record { holds = h; fits = tt; spans = refl; expands = λ out. sym (append-nil out) });
    passed = omega arith;
    within = omega arith;
    current = inl refl;
    limit = omega arith;
    summed = refl;
    fed = nothing env.has_hash;
  }
    where
      nothing : (b : Bool) → old ≡ (if b then old ++ [] else old)
      nothing true = sym (append-nil old)
      nothing false = refl

  -- On fresh streams `hash_search` either stops for want of memory or is done: the streams that it
  -- leaves hold the whole chunk.
  pub hash_search-Done :
      (st st' : RzipState) (hashed : List ℕ)
      → st.chunk_size ≡ size
      → st.chunk_bytes ≡ cb
      → size ≤ 256 ^ cb
      → Holds st.ss [] []
      → hash_search env byte st old ≡ some (st', hashed)
      → (ks : List Token) × Done st' hashed ks
  unfolding hash_search
  hash_search-Done st st' hashed e f small h r =
      go (cksum_rest env byte s) refl (granted_part looped.granted _ (st', hashed) r)
    where
      looped : Search
      looped = search_loop env byte (enough env byte st) (start env byte st old)

      s : Search
      s = rest_literal env byte looped

      v : Inv env byte size cb old looped
      v =
          (search_loop-Inv env byte size cb old (enough env byte st) (start env byte st old) small
            (let n : end_of st ≡ size - minimum_match = ap (λ k. k - minimum_match) e in
              rw n (left_at_start (size - minimum_match)))
            (start-Inv st e f h)).0

      go :
          (o : Option Search)
          → cksum_rest env byte s ≡ o
          → Option.map (finish env byte) o ≡ some (st', hashed)
          → (ks : List Token) × Done st' hashed ks
      go none c q = cc
      go (some s') c q =
          let (summed, same) =
            cksum_rest-Summed s s' (rest_literal-size looped v) v.limit
              (record { crc = v.summed; fed = v.fed }) c in
          let (ks, em) =
            subst (λ w. Encodes byte cb w.ss size) (sym same) (rest_literal-Encodes looped v) in
          let q' : finish env byte s' ≡ (st', hashed) = cc in
          subst (λ w. (ls : List Token) × Done w.0 w.1 ls) q'
            (
              ks,
              finish-Done s' ks em (ap (λ w. w.chunk_size) same ∙ rest_literal-size looped v)
                  summed,
            )
