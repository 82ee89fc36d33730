-- ===== src/Rzip/Put/Laws.antt =====
-- What `put_literal` and `put_match` write: tokens that expand to the bytes they stand for.
use lrzip_next.Common.{ℕ, zero, suc, ◌+◌, ◌-◌, ◌^◌, ◌≤◌, ◌<◌, min, ◌≡◌, refl, sym, ap, ◌∙◌}
use lrzip_next.Common.{arith, List, [], ◌∷◌, ◌++◌, length, get_or, ltb, ◌==◌, inl, inr}
use lrzip_next.Common.{false, Bool-cases, append-nil, append_assoc}
use lrzip_next.Common.{==→eq, ltb→lt, ltb→ge, length-append, get_or-append_right}
use lrzip_next.Bytes.{le_bytes}
use lrzip_next.Stream.Out.{StreamNo, stream0, stream1, StreamInfo, room, put_round}
use lrzip_next.Stream.Out.Laws.{
  Holds, joined, room_pos, put_round-Holds, Holds-step, Holds-nil, write_stream-Holds,
}
use lrzip_next.Rzip.State.{RzipState}
use lrzip_next.Rzip.Slice.{slice, length-slice, slice-add, slice-add_zero, get_or-slice}
use lrzip_next.Rzip.Put.{
  put_u8, put_vchars, put_header, piece, match_round, put_match_loop, put_match,
  write_sbstream_loop, write_sbstream, literal_round, put_literal_loop, put_literal,
}
use lrzip_next.Rzip.Put.Token.{
  Token, literal, copy, header, headers, payload, payloads, copy_back, expand, expand_one, width,
  FitsOne, Fits, total, headers-append, payloads-append, expand-append, total-snoc, Fits-snoc,
}

put_header-Holds :
    (ss : StreamInfo) (head len : ℕ) (x0 x1 : List ℕ)
    → Holds ss x0 x1
    → Holds (put_header ss head len) (x0 ++ (head ∷ le_bytes 2 len)) x1
unfolding put_header put_u8 put_vchars
put_header-Holds ss head len x0 x1 h = rw (append_assoc x0 (head ∷ []) (le_bytes 2 len)) at (
    write_stream-Holds _ stream0 (le_bytes 2 len) _ _
      (write_stream-Holds ss stream0 (head ∷ []) x0 x1 h))

module _ (byte : ℕ → ℕ) where
  write_sbstream_loop-Holds :
      (fuel : ℕ) (ss : StreamInfo) (sn : StreamNo) (p len : ℕ) (x0 x1 : List ℕ)
      → len ≤ fuel
      → Holds ss x0 x1
      → Holds
          (write_sbstream_loop byte fuel ss sn p len)
          (joined sn stream0 x0 (slice byte p len))
          (joined sn stream1 x1 (slice byte p len))
  unfolding write_sbstream_loop
  write_sbstream_loop-Holds zero ss sn p zero x0 x1 e h = Holds-nil ss sn x0 x1 h
  write_sbstream_loop-Holds zero ss sn p (suc len) x0 x1 e h = absurd (omega arith)
  write_sbstream_loop-Holds (suc fuel) ss sn p zero x0 x1 e h = Holds-nil ss sn x0 x1 h
  write_sbstream_loop-Holds (suc fuel) ss sn p (suc len) x0 x1 e h =
      let n = min (room ss sn) (suc len) in
      Holds-step _ sn (slice byte p n) (slice byte (p + n) (suc len - n)) (slice byte p (suc len))
        x0 x1
        (sym (slice-add byte p n (suc len - n))
          ∙ ap (slice byte p) (let e' : n + (suc len - n) ≡ suc len = omega arith in e'))
        (write_sbstream_loop-Holds fuel (put_round ss sn (slice byte p n)) sn (p + n) (suc len - n)
          _ _ (omega (arith, room_pos ss sn h.valid))
          (put_round-Holds ss sn (slice byte p n) x0 x1 (omega (arith, length-slice byte p n)) h))

  pub write_sbstream-Holds :
      (ss : StreamInfo) (p len : ℕ) (x0 x1 : List ℕ)
      → Holds ss x0 x1
      → Holds (write_sbstream byte ss stream1 p len) x0 (x1 ++ slice byte p len)
  unfolding write_sbstream
  write_sbstream-Holds ss p len x0 x1 h =
      write_sbstream_loop-Holds len ss stream1 p len x0 x1 (omega arith) h

  -- The streams hold tokens for the first `pos` bytes of the buffer: behind any earlier output they
  -- expand to just those bytes, and each may stand where it does.
  pub record Emitted (cb : ℕ) (ss : StreamInfo) (pos : ℕ) (ks : List Token) : Type 0 where
    pub holds : Holds ss (headers cb ks) (payloads ks)
    pub fits : Fits cb 0 ks
    pub spans : total ks ≡ pos
    pub expands : (out : List ℕ) → expand ks out ≡ out ++ slice byte 0 pos

  abbrev pub Encodes : ℕ → StreamInfo → ℕ → Type 0
  Encodes cb ss pos = (ks : List Token) × Emitted cb ss pos ks

  -- One more token.
  Emitted-snoc :
      (cb pos n : ℕ) (ss ss' : StreamInfo) (ks : List Token) (l : Token)
      → Emitted cb ss pos ks
      → Holds ss' (headers cb ks ++ header cb l) (payloads ks ++ payload l)
      → FitsOne cb pos l
      → width l ≡ n
      → ((out : List ℕ) → expand_one l (out ++ slice byte 0 pos) ≡ out ++ slice byte 0 (pos + n))
      → Emitted cb ss' (pos + n) (ks ++ (l ∷ []))
  Emitted-snoc cb pos n ss ss' ks l em h f w x = record {
    holds =
        rw
          (
            headers-append cb ks (l ∷ []),
            payloads-append ks (l ∷ []),
            append-nil (header cb l),
            append-nil (payload l),
          )
          h;
    fits = Fits-snoc cb 0 pos ks l (omega (arith, em.spans)) em.fits f;
    spans = omega (arith, total-snoc ks l, em.spans);
    expands = λ out. expand-append ks (l ∷ []) out ∙ rw (em.expands out) (x out);
  }

  -- A header and a piece of at most 0xFFFF literal bytes.
  literal_piece :
      (cb pos n : ℕ) (ss : StreamInfo)
      → 0 < n
      → n ≤ 0xffff
      → Encodes cb ss pos
      → Encodes cb (write_sbstream byte (put_header ss 0 n) stream1 pos n) (pos + n)
  literal_piece cb pos n ss lo hi (ks, em) =
      let bs = slice byte pos n in
      let e : length bs ≡ n = length-slice byte pos n in
      (
        ks ++ (literal bs ∷ []),
        Emitted-snoc cb pos n ss _ ks (literal bs) em
            (rw e (write_sbstream-Holds _ pos n _ _ (put_header-Holds ss 0 n _ _ em.holds)))
            (omega (arith, e)) e
            (λ out.
              append_assoc out (slice byte 0 pos) bs
              ∙ ap (λ r. out ++ r) (sym (slice-add_zero byte pos n))),
      )

  literal_round-Encodes :
      (st : RzipState) (last n : ℕ)
      → 0 < n
      → n ≤ 0xffff
      → Encodes st.chunk_bytes st.ss last
      → Encodes st.chunk_bytes (literal_round byte st last n).ss (last + n)
  unfolding literal_round
  literal_round-Encodes st last n lo hi h =
      let e : (n == 0) ≡ false = ground arith in
      rw e (literal_piece st.chunk_bytes last n st.ss lo hi h)

  put_literal_loop-Encodes :
      (fuel : ℕ) (st : RzipState) (last p : ℕ)
      → last < p
      → p - last < fuel
      → Encodes st.chunk_bytes st.ss last
      → Encodes st.chunk_bytes (put_literal_loop byte fuel st last p).ss p
  unfolding put_literal_loop
  put_literal_loop-Encodes zero st last p lt f h = absurd (omega arith)
  put_literal_loop-Encodes (suc fuel) st last p lt f h =
      let n = piece (p - last) in
      let lo : 0 < n = ground arith in
      let hi : n ≤ 0xffff = ground arith in
      let le : n ≤ p - last = ground arith in
      let one = literal_round-Encodes st last n lo hi h in
      elim (Bool-cases (ltb (last + n) p)) [
        | inl more ↦ rw more (
            put_literal_loop-Encodes fuel (literal_round byte st last n) (last + n) p
              (ltb→lt _ _ more) (omega arith) one)
        | inr done ↦
            rw done (let e : last + n ≡ p = omega (arith, ltb→ge (last + n) p done) in rw e at one)
      ]

  -- Where the streams hold the buffer up to `last` and this is below `p`, `put_literal` makes them
  -- hold it up to `p`.
  pub put_literal-Encodes :
      (st : RzipState) (last p : ℕ)
      → last < p
      → Encodes st.chunk_bytes st.ss last
      → Encodes st.chunk_bytes (put_literal byte st last p).ss p
  unfolding put_literal
  put_literal-Encodes st last p lt h =
      put_literal_loop-Encodes (suc (p - last)) st last p lt (omega arith) h

  -- The byte that a copy reads, when everything before `pos` is out.
  source_byte :
      (out : List ℕ) (src ofs pos : ℕ)
      → 0 < ofs
      → src + ofs ≡ pos
      → get_or (out ++ slice byte 0 pos) (length (out ++ slice byte 0 pos) - ofs) 0 ≡ byte src
  source_byte out src ofs pos lo e =
      ap (λ k. get_or (out ++ slice byte 0 pos) k 0) index
      ∙ get_or-append_right out (slice byte 0 pos) src 0
      ∙ get_or-slice byte 0 pos src (omega arith)
      ∙ ap byte (let z : 0 + src ≡ src = omega arith in z)
    where
      index : length (out ++ slice byte 0 pos) - ofs ≡ length out + src
      index = omega (arith, length-append out (slice byte 0 pos), length-slice byte 0 pos)

  -- Copying from `ofs` bytes back goes on with the buffer, if the buffer repeats itself there.
  copy_back-slice :
      (n : ℕ) (out : List ℕ) (src ofs pos : ℕ)
      → 0 < ofs
      → src + ofs ≡ pos
      → ((i : ℕ) → i < n → byte (pos + i) ≡ byte (src + i))
      → copy_back n ofs (out ++ slice byte 0 pos) ≡ out ++ slice byte 0 (pos + n)
  unfolding copy_back
  copy_back-slice zero out src ofs pos lo e agree =
      ap (λ k. out ++ slice byte 0 k) (let z : pos ≡ pos + zero = omega arith in z)
  copy_back-slice (suc n) out src ofs pos lo e agree =
      rw (source_byte out src ofs pos lo e, ← first, longer)
        (copy_back-slice n out (src + 1) ofs (pos + 1) lo (omega arith) agree'
          ∙ ap (λ k. out ++ slice byte 0 k) (let z : pos + 1 + n ≡ pos + suc n = omega arith in z))
    where
      first : byte pos ≡ byte src
      first =
          ap byte (let z : pos ≡ pos + 0 = omega arith in z)
          ∙ agree 0 (omega arith)
          ∙ ap byte (let z : src + 0 ≡ src = omega arith in z)

      longer : (out ++ slice byte 0 pos) ++ (byte pos ∷ []) ≡ out ++ slice byte 0 (pos + 1)
      longer =
          append_assoc out (slice byte 0 pos) (byte pos ∷ [])
          ∙ ap (λ r. out ++ r) (sym (slice-add_zero byte pos 1))

      agree' : (i : ℕ) → i < n → byte (pos + 1 + i) ≡ byte (src + 1 + i)
      agree' i h =
          ap byte (let z : pos + 1 + i ≡ pos + suc i = omega arith in z)
          ∙ agree (suc i) (omega arith)
          ∙ ap byte (let z : src + suc i ≡ src + 1 + i = omega arith in z)

  -- What makes it right to emit a match of `len` bytes at `p` with the bytes at `offset`.
  pub record IsMatch (p offset len : ℕ) : Type 0 where
    pub behind : offset < p
    pub agree : (i : ℕ) → i < len → byte (p + i) ≡ byte (offset + i)

  match_round-Encodes :
      (st : RzipState) (p offset n : ℕ)
      → 0 < n
      → n ≤ 0xffff
      → p < 256 ^ st.chunk_bytes
      → IsMatch p offset n
      → Encodes st.chunk_bytes st.ss p
      → Encodes st.chunk_bytes (match_round st p offset n).ss (p + n)
  unfolding match_round put_vchars
  match_round-Encodes st p offset n lo hi small m (ks, em) =
      let ofs = p - offset in
      let cb = st.chunk_bytes in
      (
        ks ++ (copy ofs n ∷ []),
        Emitted-snoc cb p n st.ss _ ks (copy ofs n) em
            (rw
              (
                append-nil (payloads ks),
                ← append_assoc (headers cb ks) (1 ∷ le_bytes 2 n) (le_bytes cb ofs),
              )
              (write_stream-Holds _ stream0 (le_bytes cb ofs) _ _
                (put_header-Holds st.ss 1 n _ _ em.holds)))
            (omega (arith, m.behind)) refl
            (λ out.
              copy_back-slice n out offset ofs p (omega (arith, m.behind)) (omega (arith, m.behind))
                m.agree),
      )

  IsMatch-first : (p offset n len : ℕ) → n ≤ len → IsMatch p offset len → IsMatch p offset n
  IsMatch-first p offset n len le m = record {
    behind = m.behind;
    agree = λ i h. m.agree i (omega arith);
  }

  IsMatch-rest :
      (p offset n len : ℕ) → n ≤ len → IsMatch p offset len → IsMatch (p + n) (offset + n) (len - n)
  IsMatch-rest p offset n len le m = record {
    behind = omega (arith, m.behind);
    agree = λ i h.
        ap byte (let z : p + n + i ≡ p + (n + i) = omega arith in z)
        ∙ m.agree (n + i) (omega arith)
        ∙ ap byte (let z : offset + (n + i) ≡ offset + n + i = omega arith in z);
  }

  put_match_loop-Encodes :
      (fuel : ℕ) (st : RzipState) (p offset len : ℕ)
      → len < fuel
      → 0 < len
      → p + len ≤ 256 ^ st.chunk_bytes
      → IsMatch p offset len
      → Encodes st.chunk_bytes st.ss p
      → Encodes st.chunk_bytes (put_match_loop fuel st p offset len).ss (p + len)
  unfolding put_match_loop
  put_match_loop-Encodes zero st p offset len f lo small m h = absurd (omega arith)
  put_match_loop-Encodes (suc fuel) st p offset len f lo small m h =
      let n = piece len in
      let n0 : 0 < n = ground arith in
      let hi : n ≤ 0xffff = ground arith in
      let le : n ≤ len = ground arith in
      let one =
        match_round-Encodes st p offset n n0 hi (omega arith) (IsMatch-first p offset n len le m)
          h in
      elim (Bool-cases (len - n == 0)) [
        | inl done ↦
            rw done (let e : p + n ≡ p + len = omega (arith, ==→eq (len - n) 0 done) in rw e at one)
        | inr more ↦ rw more (
            let e : p + n + (len - n) ≡ p + len = omega arith in
            rw e at (
              put_match_loop-Encodes fuel (match_round st p offset n) (p + n) (offset + n) (len - n)
                (omega arith) (ground arith) (omega arith) (IsMatch-rest p offset n len le m) one))
      ]

  -- Where the streams hold the buffer up to `p`, its `len` bytes at `p` are those at an earlier
  -- `offset`, `len` is not 0 and the byte width can hold `p + len`, `put_match` makes the streams hold
  -- the buffer up to `p + len`.
  pub put_match-Encodes :
      (st : RzipState) (p offset len : ℕ)
      → 0 < len
      → p + len ≤ 256 ^ st.chunk_bytes
      → IsMatch p offset len
      → Encodes st.chunk_bytes st.ss p
      → Encodes st.chunk_bytes (put_match st p offset len).ss (p + len)
  unfolding put_match
  put_match-Encodes st p offset len lo small m h =
      put_match_loop-Encodes (suc len) st p offset len (omega arith) lo small m h

  -- `put_literal(control, st, 0, 0)` writes the header of an empty literal and nothing else.
  pub put_literal-Holds_end :
      (st : RzipState) (x0 x1 : List ℕ)
      → Holds st.ss x0 x1
      → Holds (put_literal byte st 0 0).ss (x0 ++ (0 ∷ 0 ∷ 0 ∷ [])) x1
  unfolding put_literal put_literal_loop literal_round le_bytes
  put_literal-Holds_end st x0 x1 h = put_header-Holds st.ss 0 0 x0 x1 h
