-- ===== src/Stream/Backend/Codecs.antt =====
-- Each back end of src/stream.c, compressed and decompressed.
use lrzip_next.Common.{
  ℕ, zero, suc, ◌+◌, ◌-◌, ◌*◌, ◌/◌, ◌%◌, ◌^◌, ◌≤◌, ◌<◌, ◌≡◌, refl, sym, ap, ◌∙◌, arith,
}
use lrzip_next.Common.{Bool, true, false, not, ltb, leb, ◌==◌, if◌then◌else◌, Bool-cases, inl, inr}
use lrzip_next.Common.{List, ◌++◌, length, drop, drop-all, append-nil, Option, none, some, subst}
use lrzip_next.Common.Results.{failed, Result, ok, err}
use lrzip_next.Util.Page.{round_up_page}
use lrzip_next.Stream.Backend.{
  Libraries, Levels, Reply, packed, full, memory, broken, CompressThread, UncompThread, ctype_bzip2,
  ctype_lzo, ctype_lzma, ctype_gzip, ctype_zpaq, ctype_bzip3, ctype_zstd, install, hopeless,
  zstd_compress_buf, bzip3_compress_buf, zpaq_compress_buf, bzip2_compress_buf, gzip_compress_buf,
  lzma_loop, lzma_compress_buf, lzo_compress_buf, decompressed, with_buffer, zstd_decompress_buf,
  bzip3_decompress_buf, zpaq_decompress_buf, bzip2_decompress_buf, gzip_decompress_buf,
  lzma_decompress_buf, lzo_decompress_buf,
}
use lrzip_next.Stream.Backend.Threads.{
  Codec, off, lzma, lzo, bzip2, gzip, zpaq, bzip3, zstd, compress_buf, decompress_buf,
}
use lrzip_next.Stream.Backend.Laws.{
  Lossless, IsPlain, uncomp_of, Restores, RestoresIf, Restores-plain, Restores-install,
  with_buffer-granted, checked-whole, decompressed-whole,
}

module _ (libs : Libraries) (levels : Levels) (cti : CompressThread) (law : Lossless libs levels)
    (plain : IsPlain cti)
    (granted : libs.can_malloc (round_up_page libs.page_size cti.s_len) ≡ true)
    (fresh_size : length (libs.fresh cti.s_len) ≡ cti.s_len) (small : cti.s_len < 2 ^ 32) where
  abbrev pub Good : Option CompressThread → Type 0
  Good o = RestoresIf libs levels cti law plain granted o

  as_it_was : Restores libs levels cti law plain granted cti
  as_it_was = Restores-plain libs levels cti law plain granted

  -- What `install` has to know of a packed block.
  abbrev Unpacks : ℕ → List ℕ → Type 0
  Unpacks c_type bs =
      let uci = record (uncomp_of cti) { c_type = c_type; c_len = length bs; s_buf = bs } in
      decompress_buf libs levels uci ≡ ok (record uci { s_buf = cti.s_buf })

  put_in :
      (c_type : ℕ) (bs : List ℕ)
      → Unpacks c_type bs
      → Restores libs levels cti law plain granted (install c_type (length bs) bs cti)
  put_in c_type bs u = Restores-install libs levels cti law plain granted c_type bs u

  -- What a library says, case by case; `again` is what follows a lack of memory.
  reply_cases :
      (r : Reply) (f : List ℕ → CompressThread) (again : Option CompressThread)
      → ((bs : List ℕ) → r ≡ packed bs → Restores libs levels cti law plain granted (f bs))
      → Good again
      → Good (elim r [ packed bs ↦ some (f bs) | full ↦ some cti | memory ↦ again | broken ↦ none ])
  reply_cases (packed bs) f again h g = h bs refl
  reply_cases full f again h g = as_it_was
  reply_cases memory f again h g = g
  reply_cases broken f again h g = tt

  whole :
      (c_type : ℕ) (bs : List ℕ) (o : Option (List ℕ))
      → o ≡ some cti.s_buf
      → (let uci = record (uncomp_of cti) { c_type = c_type; c_len = length bs; s_buf = bs } in
          with_buffer libs levels cti.s_len (decompressed libs levels uci o)
          ≡ ok (record uci { s_buf = cti.s_buf }))
  whole c_type bs o e =
      decompressed-whole libs levels cti law plain granted
        (record (uncomp_of cti) { c_type = c_type; c_len = length bs; s_buf = bs }) o refl e

  -- A length in 32 bits.
  not_cut : cti.s_len % 2 ^ 32 ≡ cti.s_len
  not_cut = omega (arith, small)

  lzma_loop-Restores : (fuel level : ℕ) → Good (lzma_loop libs levels fuel level cti)
  unfolding lzma_loop decompress_buf lzma_decompress_buf
  lzma_loop-Restores zero level = tt
  lzma_loop-Restores (suc fuel) level =
      let dlen = round_up_page libs.page_size (cti.s_len * 102 / 100) in
      let again : Good (elim (ltb 1 level) [
        | true ↦ lzma_loop libs levels fuel (level - 1) cti
        | false ↦ none
      ]) =
        elim (Bool-cases (ltb 1 level)) [
          | inl e ↦ rw e (lzma_loop-Restores fuel (level - 1))
          | inr e ↦ rw e tt
        ] in
      elim (Bool-cases (libs.can_malloc dlen)) [
        | inr e ↦ rw (e, lzma_loop) tt
        | inl e ↦
            rw (e, lzma_loop)
              (reply_cases (libs.lzma level levels.dict_size dlen cti.s_buf)
                (λ bs. install ctype_lzma (length bs) bs cti) _
                (λ bs h. put_in ctype_lzma bs (
                  whole ctype_lzma bs (libs.unlzma cti.s_len bs) (
                    ap (λ n. libs.unlzma n bs) plain.len
                    ∙ law.lzma level levels.dict_size dlen cti.s_buf bs h)))
                again)
      ]

  -- The test of the compressibility, and what follows it.
  tested :
      (b : Bool) (rest : Option CompressThread) → Good rest → Good (if b then some cti else rest)
  tested true rest h = as_it_was
  tested false rest h = h

  -- A buffer that is not granted is a failed try.
  allocated :
      (b : Bool) (rest : Option CompressThread) → Good rest → Good (if not b then none else rest)
  allocated true rest h = h
  allocated false rest h = tt

  lzma-Restores : Good (lzma_compress_buf libs levels cti)
  unfolding lzma_compress_buf
  lzma-Restores =
      tested (hopeless libs levels cti) _
        (lzma_loop-Restores (suc levels.compression_level) levels.compression_level)

  gzip-Restores : Good (gzip_compress_buf libs levels cti)
  unfolding gzip_compress_buf decompress_buf gzip_decompress_buf
  gzip-Restores =
      let dlen = round_up_page libs.page_size cti.s_len in
      allocated (libs.can_malloc dlen) _ (
        reply_cases (libs.gzip levels.compression_level dlen cti.s_buf)
          (λ bs. install ctype_gzip (length bs) bs cti) none
          (λ bs h. put_in ctype_gzip bs (
            whole ctype_gzip bs (libs.ungzip cti.s_len bs)
              (ap (λ n. libs.ungzip n bs) plain.len ∙ law.gzip _ dlen cti.s_buf bs h)))
          tt)

  bzip2-Restores : Good (bzip2_compress_buf libs levels cti)
  unfolding bzip2_compress_buf decompress_buf bzip2_decompress_buf
  bzip2-Restores =
      let dlen = round_up_page libs.page_size cti.s_len % 2 ^ 32 in
      tested (hopeless libs levels cti) _ (
        allocated (libs.can_malloc dlen) _ (
          reply_cases (libs.bzip2 levels.compression_level dlen cti.s_buf)
            (λ bs. install ctype_bzip2 (length bs) bs cti) none
            (λ bs h. put_in ctype_bzip2 bs (
              rw not_cut (
                whole ctype_bzip2 bs (libs.unbzip2 cti.s_len bs)
                  (ap (λ n. libs.unbzip2 n bs) plain.len ∙ law.bzip2 _ dlen cti.s_buf bs h))))
            tt))

  -- The room of zstd is counted in 32 bits, so the length of what fits it is not cut.
  Unpacks-zstd :
      (level dlen : ℕ) (bs : List ℕ)
      → libs.zstd level dlen cti.s_buf ≡ packed bs
      → Unpacks ctype_zstd bs
  unfolding decompress_buf zstd_decompress_buf
  Unpacks-zstd level dlen bs h =
      let uci : UncompThread = record (uncomp_of cti) {
        c_type = ctype_zstd;
        c_len = length bs;
        s_buf = bs;
      } in
      let e : libs.unzstd cti.s_len bs ≡ some cti.s_buf =
        ap (λ n. libs.unzstd n bs) plain.len ∙ law.zstd level dlen cti.s_buf bs h in
      let tail : cti.s_buf ++ drop (length cti.s_buf) (libs.fresh cti.s_len) ≡ cti.s_buf =
        ap (λ r. cti.s_buf ++ r)
          (drop-all (length cti.s_buf) (libs.fresh cti.s_len)
            (omega (arith, fresh_size, plain.len)))
        ∙ append-nil cti.s_buf in
      let same : (cti.s_len == cti.s_len) ≡ true = ground arith in
      with_buffer-granted libs levels cti law plain granted (cti.s_len % 2 ^ 32) _ not_cut
      ∙ subst
          (λ d.
            elim (libs.unzstd d bs) as (λ o. Result UncompThread) [
              | none ↦ err failed
              | some ys ↦
                  if d == cti.s_len
                  then ok (record uci { s_buf = ys ++ drop (length ys) (libs.fresh d) })
                  else err failed
            ]
            ≡ ok (record uci { s_buf = cti.s_buf }))
          (sym not_cut) (rw e (rw same (ap (λ r. ok (record uci { s_buf = r })) tail)))

  zstd-Restores : Good (zstd_compress_buf libs levels cti)
  unfolding zstd_compress_buf
  zstd-Restores =
      let dlen = round_up_page libs.page_size cti.s_len % 2 ^ 32 in
      tested (hopeless libs levels cti) _ (
        allocated (libs.can_malloc dlen) _ (
          reply_cases (libs.zstd levels.zstd_level dlen cti.s_buf)
            (λ bs. install ctype_zstd (length bs % 2 ^ 32) bs cti) none
            (λ bs h.
              let room : length bs % 2 ^ 32 ≡ length bs =
                omega (arith, law.zstd_room levels.zstd_level dlen cti.s_buf bs h) in
              subst (λ n. Restores libs levels cti law plain granted (install ctype_zstd n bs cti))
                (sym room) (put_in ctype_zstd bs (Unpacks-zstd levels.zstd_level dlen bs h)))
            tt))

  zpaq-Restores : Good (zpaq_compress_buf libs levels cti)
  unfolding zpaq_compress_buf decompress_buf zpaq_decompress_buf
  zpaq-Restores =
      let c_size = round_up_page libs.page_size (cti.s_len * 102 / 100) in
      let compressibility = if libs.lz4_test then libs.lz4_compresses cti.s_buf else 50 in
      let bs = libs.zpaq compressibility levels.zpaq_level levels.zpaq_bs cti.s_buf in
      tested (hopeless libs levels cti) _ (
        allocated (libs.can_malloc c_size) _ (
          put_in ctype_zpaq bs (
            whole ctype_zpaq bs (some (libs.unzpaq bs))
              (ap some (law.zpaq compressibility levels.zpaq_level levels.zpaq_bs cti.s_buf)))))

  lzo-Restores : Good (lzo_compress_buf libs levels cti)
  unfolding lzo_compress_buf decompress_buf lzo_decompress_buf
  lzo-Restores =
      let fast = ltb levels.compression_level 9 in
      let dlen = round_up_page libs.page_size (cti.s_len + cti.s_len / 16 + 64 + 3) in
      let bs = libs.lzo fast cti.s_buf in
      allocated (libs.can_malloc (libs.lzo_memory fast)) _ (
        allocated (libs.can_malloc dlen) _ (elim (Bool-cases (leb cti.s_len (length bs))) [
          | inl keep ↦ rw keep as_it_was
          | inr shrunk ↦ rw shrunk (record {
            restored =
                whole ctype_lzo bs (libs.unlzo cti.s_len bs)
                  (ap (λ n. libs.unlzo n bs) plain.len ∙ law.lzo fast cti.s_buf);
            stored = refl;
            shorter = ground arith;
            whole = refl;
            stream = refl;
          })
        ]))

  -- Of a result that is not the end of the program.
  abbrev pub GoodIf : Result (Option CompressThread) → Type 0
  GoodIf (ok o) = Good o
  GoodIf (err e) = Unit {0}

  bzip3-Restores : cti.s_len ≤ levels.bzip3_block_size → GoodIf (bzip3_compress_buf libs levels cti)
  unfolding bzip3_compress_buf decompress_buf bzip3_decompress_buf
  bzip3-Restores within =
      let done : (libs.bzip3 levels.bzip3_block_size cti.s_buf).0 ≡ true =
        law.bzip3_done cti.s_buf (omega (arith, within, plain.len)) in
      let bs = (libs.bzip3 levels.bzip3_block_size cti.s_buf).1 in
      let c_size = round_up_page libs.page_size (cti.s_len + cti.s_len / 50 + 30) in
      let e : libs.unbzip3 levels.bzip3_block_size cti.s_len bs ≡ some cti.s_buf =
        ap (λ n. libs.unbzip3 levels.bzip3_block_size n bs) plain.len ∙ law.bzip3 cti.s_buf done in
      let uci : UncompThread = record (uncomp_of cti) {
        c_type = ctype_bzip3;
        c_len = length bs;
        s_buf = bs;
      } in
      let kept : Good (some (install ctype_bzip3 (length bs) bs cti)) = put_in ctype_bzip3 bs (
        with_buffer-granted libs levels cti law plain granted cti.s_len _ refl
        ∙ rw e (checked-whole libs levels cti law plain granted uci refl)) in
      elim (Bool-cases (hopeless libs levels cti)) [
        | inl skip ↦ rw skip as_it_was
        | inr on ↦ rw on (elim (Bool-cases (libs.can_malloc c_size)) [
          | inr no_room ↦ rw no_room tt
          | inl room ↦ rw room (elim (Bool-cases (libs.bzip3_new levels.bzip3_block_size)) [
            | inr no_state ↦ rw no_state tt
            | inl state ↦ rw (state, done) kept
          ])
        ])
      ]

  small_or :
      (rest : Result (Option CompressThread))
      → GoodIf rest
      → GoodIf (if ltb cti.c_len 64 then ok (some cti) else rest)
  small_or rest h = elim (Bool-cases (ltb cti.c_len 64)) [ inl e ↦ rw e as_it_was | inr e ↦ rw e h ]

  -- With libraries that lose nothing, and memory for reading a fresh block of less than 4 GiB, which for
  -- bzip3 is not longer than its block size: whatever the back end, a try of the compression fails, or
  -- ends the program, or leaves a block that comes back.
  pub compress_buf-Restores :
      (codec : Codec)
      → (codec ≡ bzip3 → cti.s_len ≤ levels.bzip3_block_size)
      → GoodIf (compress_buf libs levels codec cti)
  unfolding compress_buf
  compress_buf-Restores off within = as_it_was
  compress_buf-Restores lzma within = small_or _ lzma-Restores
  compress_buf-Restores lzo within = small_or _ lzo-Restores
  compress_buf-Restores bzip2 within = small_or _ bzip2-Restores
  compress_buf-Restores gzip within = small_or _ gzip-Restores
  compress_buf-Restores zpaq within = small_or _ zpaq-Restores
  compress_buf-Restores bzip3 within = small_or _ (bzip3-Restores (within refl))
  compress_buf-Restores zstd within = small_or _ zstd-Restores
