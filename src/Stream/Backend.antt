-- ===== src/Stream/Backend.antt =====
-- The calls of the back ends in src/stream.c: `zstd_compress_buf` up to `lzo_decompress_buf`. The
-- libraries are a parameter.
pub mod Threads
pub mod Laws
pub mod Codecs
pub mod Block
use lrzip_next.Common.{
  ℕ, zero, suc, ◌+◌, ◌-◌, ◌*◌, ◌/◌, ◌%◌, ◌^◌, Bool, true, false, ◌&&◌, not, ltb, leb,
}
use lrzip_next.Common.{◌==◌, List, ◌++◌, length, drop, if◌then◌else◌, Option, none, some}
use lrzip_next.Common.Results.{fatal, failed, Result, ok, err, ◌>>=◌, ◌>>◌, guard}
use lrzip_next.Util.Page.{round_up_page}

-- What a compressor says: the bytes, that they do not fit the output buffer, that there is not enough
-- memory, or another error.
pub data Reply : Type 0 where
  packed : List ℕ → Reply
  full memory broken : Reply

-- The calls go to libzstd, libbzip3, libzpaq, libbz2, zlib, the LZMA SDK and liblzo2: first the
-- levels and the room for the output, then the input. `lz4_compresses` is the verdict of its test.
-- `fresh` is what is in memory that `malloc` grants.
pub record Libraries : Type 0 where
  pub page_size : ℕ
  pub can_malloc : ℕ → Bool
  pub fresh : ℕ → List ℕ
  pub lz4_test : Bool
  pub lz4_compresses : List ℕ → ℕ
  pub zstd : ℕ → ℕ → List ℕ → Reply
  pub unzstd : ℕ → List ℕ → Option (List ℕ)
  pub bzip3_new : ℕ → Bool
  pub bzip3 : ℕ → List ℕ → Bool × List ℕ
  pub unbzip3 : ℕ → ℕ → List ℕ → Option (List ℕ)
  pub zpaq : ℕ → ℕ → ℕ → List ℕ → List ℕ
  pub unzpaq : List ℕ → List ℕ
  pub bzip2 : ℕ → ℕ → List ℕ → Reply
  pub unbzip2 : ℕ → List ℕ → Option (List ℕ)
  pub gzip : ℕ → ℕ → List ℕ → Reply
  pub ungzip : ℕ → List ℕ → Option (List ℕ)
  pub lzma : ℕ → ℕ → ℕ → List ℕ → Reply
  pub unlzma : ℕ → List ℕ → Option (List ℕ)
  pub lzo_memory : Bool → ℕ
  pub lzo : Bool → List ℕ → List ℕ
  pub unlzo : ℕ → List ℕ → Option (List ℕ)

-- The fields of `control` that the calls read.
pub record Levels : Type 0 where
  pub compression_level : ℕ
  pub zstd_level : ℕ
  pub zpaq_level : ℕ
  pub zpaq_bs : ℕ
  pub bzip3_block_size : ℕ
  pub dict_size : ℕ

abbrev pub ctype_none : ℕ
ctype_none = 3

abbrev pub ctype_bzip2 : ℕ
ctype_bzip2 = 4

abbrev pub ctype_lzo : ℕ
ctype_lzo = 5

abbrev pub ctype_lzma : ℕ
ctype_lzma = 6

abbrev pub ctype_gzip : ℕ
ctype_gzip = 7

abbrev pub ctype_zpaq : ℕ
ctype_zpaq = 8

abbrev pub ctype_bzip3 : ℕ
ctype_bzip3 = 9

abbrev pub ctype_zstd : ℕ
ctype_zstd = 10

-- `struct compress_thread`, where `s_buf` is first what is to be compressed.
pub record CompressThread : Type 0 where
  pub streamno : ℕ
  pub c_type : ℕ
  pub s_len : ℕ
  pub c_len : ℕ
  pub s_buf : List ℕ

-- `struct uncomp_thread`
pub record UncompThread : Type 0 where
  pub streamno : ℕ
  pub c_type : ℕ
  pub u_len : ℕ
  pub c_len : ℕ
  pub s_buf : List ℕ

-- "Incompressible, leave as CTYPE_NONE": else the new buffer takes the place of the old one.
unfoldable pub install : ℕ → ℕ → List ℕ → CompressThread → CompressThread
install c_type dlen bs cti =
    if leb cti.c_len dlen then cti else record cti { c_len = dlen; s_buf = bs; c_type = c_type }

module _ (libs : Libraries) (levels : Levels) where
  -- `LZ4_TEST`, and nothing is found to be compressible.
  unfoldable pub hopeless : CompressThread → Bool
  hopeless cti = libs.lz4_test && (libs.lz4_compresses cti.s_buf == 0)

  -- The result is `none` for the return value -1; the thread's data are the same then.
  unfoldable pub zstd_compress_buf : CompressThread → Option CompressThread
  unfolding hopeless install round_up_page
  zstd_compress_buf cti =
      let dlen = round_up_page libs.page_size cti.s_len % 2 ^ 32 in
      if hopeless cti
      then some cti
      else if not (libs.can_malloc dlen)
      then none
      else elim (libs.zstd levels.zstd_level dlen cti.s_buf) [
        | packed bs ↦ some (install ctype_zstd (length bs % 2 ^ 32) bs cti)
        | full ↦ some cti
        | memory ↦ none
        | broken ↦ none
      ]

  -- An error of the library is a length of -1, which is smaller than any other.
  unfoldable pub bzip3_compress_buf : CompressThread → Result (Option CompressThread)
  unfolding hopeless install round_up_page
  bzip3_compress_buf cti =
      let c_size = round_up_page libs.page_size (cti.s_len + cti.s_len / 50 + 30) in
      let (done, c_buf) = libs.bzip3 levels.bzip3_block_size cti.s_buf in
      if hopeless cti
      then ok (some cti)
      else if not (libs.can_malloc c_size)
      then ok none
      else if not (libs.bzip3_new levels.bzip3_block_size)
      then err fatal
      else if done
      then ok (some (install ctype_bzip3 (length c_buf) c_buf cti))
      else ok (some (record cti { c_len = 2 ^ 64 - 1; s_buf = c_buf; c_type = ctype_bzip3 }))

  -- Without a test the compressibility is "a neutral value". The room is `s_len * 1.02`, a `double`
  -- cut to an integer.
  unfoldable pub zpaq_compress_buf : CompressThread → Option CompressThread
  unfolding hopeless install round_up_page
  zpaq_compress_buf cti =
      let compressibility = if libs.lz4_test then libs.lz4_compresses cti.s_buf else 50 in
      let c_size = round_up_page libs.page_size (cti.s_len * 102 / 100) in
      let c_buf = libs.zpaq compressibility levels.zpaq_level levels.zpaq_bs cti.s_buf in
      if hopeless cti
      then some cti
      else if not (libs.can_malloc c_size)
      then none
      else some (install ctype_zpaq (length c_buf) c_buf cti)

  unfoldable pub bzip2_compress_buf : CompressThread → Option CompressThread
  unfolding hopeless install round_up_page
  bzip2_compress_buf cti =
      let dlen = round_up_page libs.page_size cti.s_len % 2 ^ 32 in
      if hopeless cti
      then some cti
      else if not (libs.can_malloc dlen)
      then none
      else elim (libs.bzip2 levels.compression_level dlen cti.s_buf) [
        | packed bs ↦ some (install ctype_bzip2 (length bs) bs cti)
        | full ↦ some cti
        | memory ↦ none
        | broken ↦ none
      ]

  -- There is no test of the compressibility here.
  unfoldable pub gzip_compress_buf : CompressThread → Option CompressThread
  unfolding install round_up_page
  gzip_compress_buf cti =
      let dlen = round_up_page libs.page_size cti.s_len in
      if not (libs.can_malloc dlen)
      then none
      else elim (libs.gzip levels.compression_level dlen cti.s_buf) [
        | packed bs ↦ some (install ctype_gzip (length bs) bs cti)
        | full ↦ some cti
        | memory ↦ none
        | broken ↦ none
      ]

  -- `goto retry` with a smaller level while there is not enough memory, on fuel. The level is the one of
  -- this call: in the code it is `control->compression_level`, so it stays lowered for the blocks after
  -- this one, and `LzmaCompress` writes `control->lzma_properties`. Neither is kept here; a call for a later
  -- block has the levels that it is given.
  unfoldable pub lzma_loop : ℕ → ℕ → CompressThread → Option CompressThread
  unfolding install round_up_page
  lzma_loop zero level cti = none
  lzma_loop (suc fuel) level cti =
      let dlen = round_up_page libs.page_size (cti.s_len * 102 / 100) in
      elim (libs.can_malloc dlen) [
        | false ↦ none
        | true ↦ elim (libs.lzma level levels.dict_size dlen cti.s_buf) [
          | packed bs ↦ some (install ctype_lzma (length bs) bs cti)
          | full ↦ some cti
          | broken ↦ none
          | memory ↦ elim (ltb 1 level) [ true ↦ lzma_loop fuel (level - 1) cti | false ↦ none ]
        ]
      ]

  -- Each round but the last lowers the level.
  unfoldable pub lzma_compress_buf : CompressThread → Option CompressThread
  unfolding hopeless lzma_loop
  lzma_compress_buf cti =
      if hopeless cti
      then some cti
      else lzma_loop (suc levels.compression_level) levels.compression_level cti

  -- One function up to level 8, another at level 9, with as much work memory as each wants.
  unfoldable pub lzo_compress_buf : CompressThread → Option CompressThread
  unfolding install round_up_page
  lzo_compress_buf cti =
      let fast = ltb levels.compression_level 9 in
      let dlen = round_up_page libs.page_size (cti.s_len + cti.s_len / 16 + 64 + 3) in
      let c_buf = libs.lzo fast cti.s_buf in
      if not (libs.can_malloc (libs.lzo_memory fast))
      then none
      else if not (libs.can_malloc dlen)
      then none
      else if leb cti.s_len (length c_buf)
      then some cti
      else some (record cti { c_len = length c_buf; s_buf = c_buf; c_type = ctype_lzo })

  -- "Inconsistent length after decompression", or the buffer.
  abbrev pub checked : UncompThread → List ℕ → Result UncompThread
  checked uci bs = if length bs == uci.u_len then ok (record uci { s_buf = bs }) else err failed

  -- What a library gives back, in memory for `u_len` bytes.
  abbrev pub decompressed : UncompThread → Option (List ℕ) → Result UncompThread
  decompressed uci none = err failed
  decompressed uci (some bs) = checked uci bs

  unfoldable pub with_buffer : ℕ → Result UncompThread → Result UncompThread
  unfolding round_up_page
  with_buffer dlen r = if libs.can_malloc (round_up_page libs.page_size dlen) then r else err failed

  -- The length that is compared is that of the buffer, in 32 bits, so what the library did not write
  -- stays as it was.
  unfoldable pub zstd_decompress_buf : UncompThread → Result UncompThread
  unfolding with_buffer
  zstd_decompress_buf uci =
      let dlen = uci.u_len % 2 ^ 32 in
      with_buffer dlen (elim (libs.unzstd dlen uci.s_buf) [
        | none ↦ err failed
        | some bs ↦
            if dlen == uci.u_len
            then ok (record uci { s_buf = bs ++ drop (length bs) (libs.fresh dlen) })
            else err failed
      ])

  unfoldable pub bzip3_decompress_buf : UncompThread → Result UncompThread
  unfolding with_buffer
  bzip3_decompress_buf uci =
      with_buffer uci.u_len (elim (libs.unbzip3 levels.bzip3_block_size uci.u_len uci.s_buf) [
        | none ↦ err fatal
        | some bs ↦ checked uci bs
      ])

  unfoldable pub zpaq_decompress_buf : UncompThread → Result UncompThread
  unfolding with_buffer
  zpaq_decompress_buf uci = with_buffer uci.u_len (checked uci (libs.unzpaq uci.s_buf))

  unfoldable pub bzip2_decompress_buf : UncompThread → Result UncompThread
  unfolding with_buffer
  bzip2_decompress_buf uci =
      let dlen = uci.u_len % 2 ^ 32 in
      with_buffer dlen (decompressed uci (libs.unbzip2 dlen uci.s_buf))

  unfoldable pub gzip_decompress_buf : UncompThread → Result UncompThread
  unfolding with_buffer
  gzip_decompress_buf uci =
      with_buffer uci.u_len (decompressed uci (libs.ungzip uci.u_len uci.s_buf))

  unfoldable pub lzma_decompress_buf : UncompThread → Result UncompThread
  unfolding with_buffer
  lzma_decompress_buf uci =
      with_buffer uci.u_len (decompressed uci (libs.unlzma uci.u_len uci.s_buf))

  unfoldable pub lzo_decompress_buf : UncompThread → Result UncompThread
  unfolding with_buffer
  lzo_decompress_buf uci = with_buffer uci.u_len (decompressed uci (libs.unlzo uci.u_len uci.s_buf))
