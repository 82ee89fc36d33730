-- ===== src/Stream/Backend/Laws.antt =====
-- Given libraries that lose nothing, a block that `compthread` of src/stream.c has prepared is the one
-- that `ucompthread` gives back, whatever back end and filter are used.
use lrzip_next.Common.{ℕ, ◌≤◌, ◌≡◌, refl, ap, ◌∙◌, arith}
use lrzip_next.Common.{Bool, true, leb, ◌==◌, Bool-cases, inl, inr}
use lrzip_next.Common.{List, length, Option, none, some}
use lrzip_next.Common.Results.{Result, ok}
use lrzip_next.Util.Page.{round_up_page}
use lrzip_next.Stream.Backend.{
  Libraries, Levels, packed, CompressThread, UncompThread, ctype_none, install, checked,
  decompressed, with_buffer,
}
use lrzip_next.Stream.Backend.Threads.{decompress_buf}

-- What the libraries promise: each gives back what it has packed, zstd keeps to its output buffer, and
-- bzip3 packs a block that is not longer than the block size its state is made for.
pub record Lossless (libs : Libraries) (levels : Levels) : Type 0 where
  pub zstd :
      (level dlen : ℕ) (xs bs : List ℕ)
      → libs.zstd level dlen xs ≡ packed bs
      → libs.unzstd (length xs) bs ≡ some xs
  pub zstd_room :
      (level dlen : ℕ) (xs bs : List ℕ) → libs.zstd level dlen xs ≡ packed bs → length bs ≤ dlen
  pub bzip3 :
      (xs : List ℕ)
      → (libs.bzip3 levels.bzip3_block_size xs).0 ≡ true
      → libs.unbzip3 levels.bzip3_block_size (length xs) (libs.bzip3 levels.bzip3_block_size xs).1
        ≡ some xs
  pub bzip3_done :
      (xs : List ℕ)
      → length xs ≤ levels.bzip3_block_size
      → (libs.bzip3 levels.bzip3_block_size xs).0 ≡ true
  pub zpaq : (c level bs : ℕ) (xs : List ℕ) → libs.unzpaq (libs.zpaq c level bs xs) ≡ xs
  pub bzip2 :
      (level dlen : ℕ) (xs bs : List ℕ)
      → libs.bzip2 level dlen xs ≡ packed bs
      → libs.unbzip2 (length xs) bs ≡ some xs
  pub gzip :
      (level dlen : ℕ) (xs bs : List ℕ)
      → libs.gzip level dlen xs ≡ packed bs
      → libs.ungzip (length xs) bs ≡ some xs
  pub lzma :
      (level dict dlen : ℕ) (xs bs : List ℕ)
      → libs.lzma level dict dlen xs ≡ packed bs
      → libs.unlzma (length xs) bs ≡ some xs
  pub lzo : (fast : Bool) (xs : List ℕ) → libs.unlzo (length xs) (libs.lzo fast xs) ≡ some xs

-- The thread that `fill_buffer` starts for the block of a `compress_thread`.
abbrev pub uncomp_of : CompressThread → UncompThread
uncomp_of cti = record {
  streamno = cti.streamno;
  c_type = cti.c_type;
  u_len = cti.s_len;
  c_len = cti.c_len;
  s_buf = cti.s_buf;
}

-- A block that nothing has been done to.
pub record IsPlain (cti : CompressThread) : Type 0 where
  pub none_yet : cti.c_type ≡ ctype_none
  pub len : cti.s_len ≡ length cti.s_buf
  pub same : cti.c_len ≡ cti.s_len

module _ (libs : Libraries) (levels : Levels) (cti : CompressThread) (law : Lossless libs levels)
    (plain : IsPlain cti)
    (granted : libs.can_malloc (round_up_page libs.page_size cti.s_len) ≡ true) where
  -- The block comes back, its length is stored as it is, and it is not longer than before.
  pub record Restores (cti' : CompressThread) : Type 0 where
    pub restored :
        decompress_buf libs levels (uncomp_of cti')
        ≡ ok (record (uncomp_of cti') { s_buf = cti.s_buf })
    pub stored : length cti'.s_buf ≡ cti'.c_len
    pub shorter : cti'.c_len ≤ cti.s_len
    pub whole : cti'.s_len ≡ cti.s_len
    pub stream : cti'.streamno ≡ cti.streamno

  -- A failed try leaves nothing behind.
  abbrev pub RestoresIf : Option CompressThread → Type 0
  RestoresIf none = Unit {0}
  RestoresIf (some cti') = Restores cti'

  pub Restores-plain : Restores cti
  unfolding decompress_buf
  Restores-plain = record {
    restored = let t : (cti.c_type == 3) ≡ true = ground (arith, plain.none_yet) in rw t refl;
    stored = omega (arith, plain.len, plain.same);
    shorter = omega (arith, plain.same);
    whole = refl;
    stream = refl;
  }

  pub Restores-install :
      (c_type : ℕ) (bs : List ℕ)
      → (let uci = record (uncomp_of cti) { c_type = c_type; c_len = length bs; s_buf = bs } in
          decompress_buf libs levels uci ≡ ok (record uci { s_buf = cti.s_buf }))
      → Restores (install c_type (length bs) bs cti)
  unfolding install
  Restores-install c_type bs e = elim (Bool-cases (leb cti.c_len (length bs))) [
    | inl keep ↦ rw keep Restores-plain
    | inr shrunk ↦ rw shrunk (record {
      restored = e;
      stored = refl;
      shorter = ground (arith, plain.same);
      whole = refl;
      stream = refl;
    })
  ]

  pub with_buffer-granted :
      (dlen : ℕ) (r : Result UncompThread) → dlen ≡ cti.s_len → with_buffer libs levels dlen r ≡ r
  unfolding with_buffer
  with_buffer-granted dlen r e =
      let g : libs.can_malloc (round_up_page libs.page_size dlen) ≡ true =
        ap (λ n. libs.can_malloc (round_up_page libs.page_size n)) e ∙ granted in
      rw g refl

  pub checked-whole :
      (uci : UncompThread)
      → uci.u_len ≡ cti.s_len
      → checked libs levels uci cti.s_buf ≡ ok (record uci { s_buf = cti.s_buf })
  checked-whole uci e =
      let t : (length cti.s_buf == uci.u_len) ≡ true = ground (arith, plain.len) in rw t refl

  pub decompressed-whole :
      (uci : UncompThread) (o : Option (List ℕ))
      → uci.u_len ≡ cti.s_len
      → o ≡ some cti.s_buf
      → with_buffer libs levels uci.u_len (decompressed libs levels uci o)
        ≡ ok (record uci { s_buf = cti.s_buf })
  decompressed-whole uci o e h =
      with_buffer-granted uci.u_len _ e ∙ ap (decompressed libs levels uci) h ∙ checked-whole uci e
