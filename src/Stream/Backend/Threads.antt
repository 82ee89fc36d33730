-- ===== src/Stream/Backend/Threads.antt =====
-- What `compthread` and `ucompthread` of src/stream.c do with a block, between the lock and the file:
-- filters, the choice of the back end, and the second try.
use lrzip_next.Common.{ℕ, Bool, ◌&&◌, not, ltb, leb, ◌==◌, if◌then◌else◌}
use lrzip_next.Common.{List, Option, none, some}
use lrzip_next.Common.Results.{fatal, Result, ok, err, ◌>>=◌}
use lrzip_next.Stream.Backend.{
  Libraries, Levels, CompressThread, UncompThread, ctype_none, ctype_bzip2, ctype_lzo, ctype_lzma,
  ctype_gzip, ctype_zpaq, ctype_bzip3, ctype_zstd, zstd_compress_buf, bzip3_compress_buf,
  zpaq_compress_buf, bzip2_compress_buf, gzip_compress_buf, lzma_compress_buf, lzo_compress_buf,
  zstd_decompress_buf, bzip3_decompress_buf, zpaq_decompress_buf, bzip2_decompress_buf,
  gzip_decompress_buf, lzma_decompress_buf, lzo_decompress_buf,
}

-- The back end that the flags of `control` choose; `off` is `NO_COMPRESS`.
pub data Codec : Type 0 where
  off lzma lzo bzip2 gzip zpaq bzip3 zstd : Codec

-- The branch filters of the LZMA SDK, by their flag, and its delta filter, by the offset.
pub record Filters : Type 0 where
  pub branch_enc : ℕ → List ℕ → List ℕ
  pub branch_dec : ℕ → List ℕ → List ℕ
  pub delta_enc : ℕ → List ℕ → List ℕ
  pub delta_dec : ℕ → List ℕ → List ℕ

-- `control->filter_flag`, `control->delta` and, when reading, `control->minor_version`.
pub record FilterUse : Type 0 where
  pub flag : ℕ
  pub delta : ℕ
  pub minor_version : ℕ

abbrev pub filter_flag_ia64 : ℕ
filter_flag_ia64 = 6

abbrev pub filter_flag_arm64 : ℕ
filter_flag_arm64 = 7

abbrev pub filter_flag_riscv : ℕ
filter_flag_riscv = 8

abbrev pub filter_flag_delta : ℕ
filter_flag_delta = 128

module _ (sdk : Filters) (use_of : FilterUse) where
  abbrev pub between : ℕ → ℕ → Bool
  between lo hi = leb lo use_of.flag && leb use_of.flag hi

  -- Stream 1 holds the literals; the flags 1 to 8 are those of x86 up to RISC-V.
  unfoldable pub filter_encode : ℕ → List ℕ → List ℕ
  filter_encode streamno xs =
      if not (streamno == 1)
      then xs
      else if between 1 filter_flag_riscv
      then sdk.branch_enc use_of.flag xs
      else if use_of.flag == filter_flag_delta
      then sdk.delta_enc use_of.delta xs
      else xs

  -- "Reverting filtering": the chain of tests ends with ARM64 and IA64.
  unfoldable pub filter_revert : ℕ → List ℕ → List ℕ
  filter_revert streamno xs =
      if not (streamno == 1 && ltb 0 use_of.flag)
      then xs
      else if between 1 filter_flag_arm64
      then sdk.branch_dec use_of.flag xs
      else if ltb 0 use_of.delta
      then sdk.delta_dec use_of.delta xs
      else xs

  -- What `ucompthread` restores: first a branch filter, by the version, and then delta.
  unfoldable pub filter_restore : ℕ → List ℕ → List ℕ
  filter_restore streamno xs =
      let last = if ltb use_of.minor_version 12 then filter_flag_ia64 else filter_flag_riscv in
      let unbranched = if between 1 last then sdk.branch_dec use_of.flag xs else xs in
      if not (streamno == 1 && ltb 0 use_of.flag)
      then xs
      else if ltb 0 use_of.delta
      then sdk.delta_dec use_of.delta unbranched
      else unbranched

-- "Very small buffers have issues": 64 bytes at least. `none` is a failed try.
unfoldable pub compress_buf :
    Libraries → Levels → Codec → CompressThread → Result (Option CompressThread)
unfolding zstd_compress_buf bzip3_compress_buf zpaq_compress_buf bzip2_compress_buf
    gzip_compress_buf lzma_compress_buf lzo_compress_buf
compress_buf libs levels off cti = ok (some cti)
compress_buf libs levels lzma cti =
    if ltb cti.c_len 64 then ok (some cti) else ok (lzma_compress_buf libs levels cti)
compress_buf libs levels lzo cti =
    if ltb cti.c_len 64 then ok (some cti) else ok (lzo_compress_buf libs levels cti)
compress_buf libs levels bzip2 cti =
    if ltb cti.c_len 64 then ok (some cti) else ok (bzip2_compress_buf libs levels cti)
compress_buf libs levels gzip cti =
    if ltb cti.c_len 64 then ok (some cti) else ok (gzip_compress_buf libs levels cti)
compress_buf libs levels zpaq cti =
    if ltb cti.c_len 64 then ok (some cti) else ok (zpaq_compress_buf libs levels cti)
compress_buf libs levels bzip3 cti =
    if ltb cti.c_len 64 then ok (some cti) else bzip3_compress_buf libs levels cti
compress_buf libs levels zstd cti =
    if ltb cti.c_len 64 then ok (some cti) else ok (zstd_compress_buf libs levels cti)

-- One try of `compthread`, from the label `retry` on.
unfoldable pub compress_try :
    Libraries
    → Levels
    → Codec
    → Filters
    → FilterUse
    → CompressThread
    → Result (Option CompressThread)
unfolding compress_buf filter_encode
compress_try libs levels codec sdk use_of cti =
    compress_buf libs levels codec
      (record cti { s_buf = filter_encode sdk use_of cti.streamno cti.s_buf })

-- The second try comes when it is this thread's turn, so that more memory may be granted to it:
-- `later` is what the libraries do then. Its buffer is the filtered one with the filter reverted.
unfoldable pub compress_block :
    Libraries
    → Libraries
    → Levels
    → Codec
    → Filters
    → FilterUse
    → CompressThread
    → Result CompressThread
unfolding compress_try filter_revert filter_encode
compress_block libs later levels codec sdk use_of cti =
    compress_try libs levels codec sdk use_of cti >>= λ first. elim first [
      | some cti' ↦ ok cti'
      | none ↦
          let reverted =
            filter_revert sdk use_of cti.streamno
              (filter_encode sdk use_of cti.streamno cti.s_buf) in
          compress_try later levels codec sdk use_of (record cti { s_buf = reverted }) >>= λ second.
          elim second [ some cti' ↦ ok cti' | none ↦ err fatal ]
    ]

-- `switch (uci->c_type)`
unfoldable pub decompress_buf : Libraries → Levels → UncompThread → Result UncompThread
unfolding zstd_decompress_buf bzip3_decompress_buf zpaq_decompress_buf bzip2_decompress_buf
    gzip_decompress_buf lzma_decompress_buf lzo_decompress_buf
decompress_buf libs levels uci =
    if uci.c_type == ctype_none
    then ok uci
    else if uci.c_type == ctype_lzma
    then lzma_decompress_buf libs levels uci
    else if uci.c_type == ctype_lzo
    then lzo_decompress_buf libs levels uci
    else if uci.c_type == ctype_bzip2
    then bzip2_decompress_buf libs levels uci
    else if uci.c_type == ctype_gzip
    then gzip_decompress_buf libs levels uci
    else if uci.c_type == ctype_zpaq
    then zpaq_decompress_buf libs levels uci
    else if uci.c_type == ctype_bzip3
    then bzip3_decompress_buf libs levels uci
    else if uci.c_type == ctype_zstd
    then zstd_decompress_buf libs levels uci
    else err fatal

-- A try of `ucompthread`. The filter is undone whether or not the back end has failed.
unfoldable pub decompress_try :
    Libraries → Levels → Filters → FilterUse → UncompThread → Result UncompThread × UncompThread
unfolding decompress_buf filter_restore
decompress_try libs levels sdk use_of uci =
    let undo =
      λ (u : UncompThread). record u { s_buf = filter_restore sdk use_of u.streamno u.s_buf } in
    elim (decompress_buf libs levels uci) [
      | ok uci' ↦ (ok (undo uci'), undo uci')
      | err e ↦ (err e, undo uci)
    ]

-- The second try begins with the buffer that the first one has left.
unfoldable pub decompress_block :
    Libraries → Libraries → Levels → Filters → FilterUse → UncompThread → Result UncompThread
unfolding decompress_try
decompress_block libs later levels sdk use_of uci =
    let (first, left) = decompress_try libs levels sdk use_of uci in
    elim first [
      | ok uci' ↦ ok uci'
      | err fatal ↦ err fatal
      | err e ↦ elim (decompress_try later levels sdk use_of left).0 [
        | ok uci' ↦ ok uci'
        | err e' ↦ err fatal
      ]
    ]
