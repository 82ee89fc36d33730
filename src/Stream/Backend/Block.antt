-- ===== src/Stream/Backend/Block.antt =====
-- A block through `compthread` and `ucompthread` of src/stream.c, filters and a second try included.
use lrzip_next.Common.{ℕ, ◌^◌, ◌≤◌, ◌<◌, ◌≡◌, ◌≢◌, ◌⊎◌, refl, sym, ap, ◌∙◌, arith}
use lrzip_next.Common.{true, inl, inr}
use lrzip_next.Common.{List, length, Option, none, some, subst}
use lrzip_next.Common.Results.{fatal, Result, ok, err, ◌>>=◌}
use lrzip_next.Util.Page.{round_up_page}
use lrzip_next.Stream.Backend.{Libraries, Levels, CompressThread, UncompThread}
use lrzip_next.Stream.Backend.Threads.{
  Codec, bzip3, Filters, FilterUse, filter_encode, filter_revert, filter_restore, compress_buf,
  compress_try, compress_block, decompress_buf, decompress_try, decompress_block,
}
use lrzip_next.Stream.Backend.Laws.{Lossless, IsPlain, uncomp_of}
use lrzip_next.Stream.Backend.Codecs.{GoodIf, compress_buf-Restores}

-- The SDK's decoders undo its encoders, and no filter changes a length.
pub record Invertible (sdk : Filters) : Type 0 where
  pub branch : (flag : ℕ) (xs : List ℕ) → sdk.branch_dec flag (sdk.branch_enc flag xs) ≡ xs
  pub branch_length : (flag : ℕ) (xs : List ℕ) → length (sdk.branch_enc flag xs) ≡ length xs
  pub delta : (d : ℕ) (xs : List ℕ) → sdk.delta_dec d (sdk.delta_enc d xs) ≡ xs
  pub delta_length : (d : ℕ) (xs : List ℕ) → length (sdk.delta_enc d xs) ≡ length xs

-- What the options and the header leave: no filter, a branch filter and no offset, or delta and an
-- offset, in an archive since version 0.12.
pub record IsFilterUse (use_of : FilterUse) : Type 0 where
  pub new_version : 12 ≤ use_of.minor_version
  pub choice :
      (use_of.flag ≡ 0)
      ⊎ (0 < use_of.flag) × (use_of.flag ≤ 8) × (use_of.delta ≡ 0)
      ⊎ (use_of.flag ≡ 128) × (0 < use_of.delta)

module _ (sdk : Filters) (use_of : FilterUse) (inv : Invertible sdk)
    (valid : IsFilterUse use_of) where
  -- With decoders that undo their encoders, a filter that the options can choose and an archive since
  -- version 0.12, what `ucompthread` does to the literals undoes what `compthread` has done.
  pub filter_restore-encode :
      (sn : ℕ) (xs : List ℕ) → filter_restore sdk use_of sn (filter_encode sdk use_of sn xs) ≡ xs
  unfolding filter_restore filter_encode
  filter_restore-encode sn xs = elim valid.choice [
    | inl off ↦ ground (arith, valid.new_version)
    | inr (inl (lo, hi, z)) ↦ ground (arith, valid.new_version, inv.branch use_of.flag xs)
    | inr (inr (e, lo)) ↦ ground (arith, valid.new_version, inv.delta use_of.delta xs)
  ]

  -- For such a filter other than RISC-V, reverting it gives back the bytes from before the filter.
  pub filter_revert-encode :
      (sn : ℕ) (xs : List ℕ)
      → use_of.flag ≢ 8
      → filter_revert sdk use_of sn (filter_encode sdk use_of sn xs) ≡ xs
  unfolding filter_revert filter_encode
  filter_revert-encode sn xs ne = elim valid.choice [
    | inl off ↦ ground arith
    | inr (inl (lo, hi, z)) ↦ ground (arith, inv.branch use_of.flag xs)
    | inr (inr (e, lo)) ↦ ground (arith, inv.delta use_of.delta xs)
  ]

  pub length-filter_encode :
      (sn : ℕ) (xs : List ℕ) → length (filter_encode sdk use_of sn xs) ≡ length xs
  unfolding filter_encode
  length-filter_encode sn xs = elim valid.choice [
    | inl off ↦ ground arith
    | inr (inl (lo, hi, z)) ↦ ground (arith, inv.branch_length use_of.flag xs)
    | inr (inr (e, lo)) ↦ ground (arith, inv.delta_length use_of.delta xs)
  ]

-- A first try of the decompression that succeeds decides.
decompress_block-first :
    (libs later : Libraries) (levels : Levels) (sdk : Filters) (use_of : FilterUse)
    (uci uci' : UncompThread)
    → decompress_buf libs levels uci ≡ ok uci'
    → decompress_block libs later levels sdk use_of uci
      ≡ ok (record uci' { s_buf = filter_restore sdk use_of uci'.streamno uci'.s_buf })
unfolding decompress_block
decompress_block-first libs later levels sdk use_of uci uci' e =
    rw (e, decompress_block, decompress_try) refl

module _ (libs later : Libraries) (levels : Levels) (codec : Codec) (sdk : Filters)
    (use_of : FilterUse) (cti : CompressThread) (law : Lossless libs levels)
    (law_later : Lossless later levels)
    (same : (uci : UncompThread) → decompress_buf later levels uci ≡ decompress_buf libs levels uci)
    (inv : Invertible sdk) (valid : IsFilterUse use_of) (no_riscv : use_of.flag ≢ 8)
    (plain : IsPlain cti)
    (granted : libs.can_malloc (round_up_page libs.page_size cti.s_len) ≡ true)
    (granted_later : later.can_malloc (round_up_page later.page_size cti.s_len) ≡ true)
    (fresh_size : length (libs.fresh cti.s_len) ≡ cti.s_len)
    (fresh_later : length (later.fresh cti.s_len) ≡ cti.s_len) (small : cti.s_len < 2 ^ 32) where
  -- A block that is prepared to be written: another program, with the same libraries, gets the bytes back.
  pub record Ready (cti' : CompressThread) : Type 0 where
    pub comes_back :
        decompress_block libs later levels sdk use_of (uncomp_of cti')
        ≡ ok (record (uncomp_of cti') { s_buf = cti.s_buf })
    pub stored : length cti'.s_buf ≡ cti'.c_len
    pub shorter : cti'.c_len ≤ cti.s_len
    pub whole : cti'.s_len ≡ cti.s_len
    pub stream : cti'.streamno ≡ cti.streamno

  abbrev pub ReadyIf : Result CompressThread → Type 0
  ReadyIf (ok cti') = Ready cti'
  ReadyIf (err e) = Unit {0}

  abbrev filtered : CompressThread
  filtered = record cti { s_buf = filter_encode sdk use_of cti.streamno cti.s_buf }

  filtered-IsPlain : IsPlain filtered
  filtered-IsPlain = record {
    none_yet = plain.none_yet;
    len = plain.len ∙ sym (length-filter_encode sdk use_of inv valid cti.streamno cti.s_buf);
    same = plain.same;
  }

  prepared :
      (cti' : CompressThread)
      → decompress_buf libs levels (uncomp_of cti')
        ≡ ok (record (uncomp_of cti') { s_buf = filtered.s_buf })
      → cti'.streamno ≡ cti.streamno
      → length cti'.s_buf ≡ cti'.c_len
      → cti'.c_len ≤ cti.s_len
      → cti'.s_len ≡ cti.s_len
      → Ready cti'
  prepared cti' r e a b c = record {
    comes_back =
        decompress_block-first libs later levels sdk use_of _ _ r
        ∙ ap (λ bs. ok (record (uncomp_of cti') { s_buf = bs }))
            (ap (λ n. filter_restore sdk use_of n filtered.s_buf) e
              ∙ filter_restore-encode sdk use_of inv valid cti.streamno cti.s_buf);
    stored = a;
    shorter = b;
    whole = c;
    stream = e;
  }

  abbrev First : Result (Option CompressThread) → Type 0
  First r = GoodIf libs levels filtered law filtered-IsPlain granted fresh_size small r

  abbrev Second : Result (Option CompressThread) → Type 0
  Second r =
      GoodIf later levels filtered law_later filtered-IsPlain granted_later fresh_later small r

  decided_late :
      (r : Result (Option CompressThread))
      → Second r
      → ReadyIf (r >>= λ second. elim second [ some cti' ↦ ok cti' | none ↦ err fatal ])
  decided_late (ok (some cti')) h =
      prepared cti' (sym (same (uncomp_of cti')) ∙ h.restored) h.stream h.stored h.shorter h.whole
  decided_late (ok none) h = tt
  decided_late (err e) h = tt

  decided_early :
      (r s : Result (Option CompressThread))
      → First r
      → Second s
      → ReadyIf (
          r >>= λ first. elim first [
            | some cti' ↦ ok cti'
            | none ↦ s >>= λ second. elim second [ some cti' ↦ ok cti' | none ↦ err fatal ]
          ])
  decided_early (ok (some cti')) s h g =
      prepared cti' h.restored h.stream h.stored h.shorter h.whole
  decided_early (ok none) s h g = decided_late s g
  decided_early (err e) s h g = tt

  -- With libraries that lose nothing at both tries and unpack alike, decoders that undo their encoders, a
  -- filter other than RISC-V, and memory for reading a block of less than 4 GiB, which for bzip3 is not
  -- longer than its block size: a fresh block that `compthread` has prepared, at the first try or at the
  -- second, is given back by `ucompthread` as it was; it is not longer than it was, and its lengths are
  -- those that are stored.
  pub compress_block-Ready :
      (codec ≡ bzip3 → cti.s_len ≤ levels.bzip3_block_size)
      → ReadyIf (compress_block libs later levels codec sdk use_of cti)
  unfolding compress_block
  compress_block-Ready within =
      decided_early (compress_buf libs levels codec filtered) _
        (compress_buf-Restores libs levels filtered law filtered-IsPlain granted fresh_size small
          codec within)
        (subst
          (λ bs. Second (compress_try later levels codec sdk use_of (record cti { s_buf = bs })))
          (sym (filter_revert-encode sdk use_of inv valid cti.streamno cti.s_buf no_riscv))
          (tries_again within))
    where
      tries_again :
          (codec ≡ bzip3 → cti.s_len ≤ levels.bzip3_block_size)
          → Second (compress_try later levels codec sdk use_of cti)
      tries_again within =
          compress_buf-Restores later levels filtered law_later filtered-IsPlain granted_later
            fresh_later small codec within
