-- ===== src/Magic/Laws.antt =====
-- Fields of the magic header that are written by `write_magic` and read back.
use lrzip_next.Common.{ℕ, ◌+◌, ◌-◌, ◌*◌, ◌/◌, ◌%◌, ◌≤◌, ◌<◌, ◌≡◌, refl, sym, ap, ◌∙◌, arith}
use lrzip_next.Common.{true, false, ltb, leb, ◌==◌, if◌then◌else◌, ◌⊎◌, inl, inr}
use lrzip_next.Runzip.{ok}
use lrzip_next.Magic.Codes.{
  lzma2_dic_size_from_prop, lzma2_prop_from_dic, bzip3_block_size_from_prop,
  bzip3_prop_from_block_size, lzma2_prop_from_dic-size, bzip3_prop_from_block_size-size,
}
use lrzip_next.Magic.{
  Control, Ctype, lzma, zpaq, bzip3, zstd, other, filter_byte, get_filter, ctype_bytes, get_ctype,
  delta_of,
}

-- A delta that the header can hold: 1 to 16, or a multiple of 16 up to 256.
abbrev pub IsDelta : ℕ → Type 0
IsDelta d = (0 < d) × (d ≤ 16) ⊎ (n : ℕ) × (2 ≤ n) × (n ≤ 16) × (d ≡ 16 * n)

delta-code :
    (d : ℕ) → IsDelta d → delta_of ((128 + (if leb d 16 then d else d / 16 + 15)) % 256 - 128) ≡ d
unfolding delta_of
delta-code d (inl (lo, hi)) = ground arith
delta-code d (inr (n, lo, hi, e)) = ground arith

-- Where the archive has a version since 0.13, the flag of a filter other than delta comes back, and so
-- does that of delta with an offset that the header can hold; with no filter the reader has none yet.
pub get_filter-byte :
    (c r : Control)
    → 13 ≤ r.minor_version
    → (c.filter_flag < 128) ⊎ (c.filter_flag ≡ 128) × IsDelta c.delta
    → (0 < c.filter_flag) ⊎ (r.filter_flag ≡ 0)
    → (get_filter r (filter_byte c)).filter_flag ≡ c.filter_flag
unfolding get_filter filter_byte
get_filter-byte c r v (inl lt) z = ground arith
get_filter-byte c r v (inr (e, d)) z = ground arith

-- Where the archive has a version since 0.13 and the filter is delta, an offset that the header can
-- hold comes back.
pub get_filter-delta :
    (c r : Control)
    → 13 ≤ r.minor_version
    → c.filter_flag ≡ 128
    → IsDelta c.delta
    → (get_filter r (filter_byte c)).delta ≡ c.delta
unfolding get_filter filter_byte
get_filter-delta c r v e d =
    let big : 0 < (if leb c.delta 16 then c.delta else c.delta / 16 + 15) = bigger d in
    let small : (if leb c.delta 16 then c.delta else c.delta / 16 + 15) < 128 = smaller d in
    let f : (ltb 0 c.filter_flag) ≡ true = ground arith in
    let g : (c.filter_flag == 128) ≡ true = ground arith in
    let z : ((128 + (if leb c.delta 16 then c.delta else c.delta / 16 + 15)) % 256 == 0) ≡ false =
      ground arith in
    let o : ltb r.minor_version 12 ≡ false = ground arith in
    let t : (r.minor_version == 12) ≡ false = ground arith in
    let h : ltb 128 ((128 + (if leb c.delta 16 then c.delta else c.delta / 16 + 15)) % 256) ≡ true =
      ground arith in
    rw (f, g) (rw (z, o, t, h) (delta-code c.delta d))
  where
    bigger : IsDelta c.delta → 0 < (if leb c.delta 16 then c.delta else c.delta / 16 + 15)
    bigger (inl (lo, hi)) = ground arith
    bigger (inr (n, lo, hi, q)) = ground arith

    smaller : IsDelta c.delta → (if leb c.delta 16 then c.delta else c.delta / 16 + 15) < 128
    smaller (inl (lo, hi)) = ground arith
    smaller (inr (n, lo, hi, q)) = ground arith

-- What two bytes can hold of each back end.
abbrev pub HasCode : Ctype → Control → Type 0
HasCode lzma c = (p : ℕ) × (p ≤ 40) × (c.dict_size ≡ lzma2_dic_size_from_prop p)
HasCode zpaq c = (c.zpaq_level < 16) × (c.zpaq_bs < 16)
HasCode bzip3 c = (p : ℕ) × (p ≤ 8) × (c.bzip3_block_size ≡ bzip3_block_size_from_prop p)
HasCode zstd c = (c.zstd_strategy < 16) × (c.zstd_level < 256)
HasCode other c = Unit {0}

-- The fields of the back end agree.
abbrev pub SameCodec : Ctype → Control → Control → Type 0
SameCodec lzma c r = r.dict_size ≡ c.dict_size
SameCodec zpaq c r = (r.zpaq_level ≡ c.zpaq_level) × (r.zpaq_bs ≡ c.zpaq_bs)
SameCodec bzip3 c r = r.bzip3_block_size ≡ c.bzip3_block_size
SameCodec zstd c r = (r.zstd_strategy ≡ c.zstd_strategy) × (r.zstd_level ≡ c.zstd_level)
SameCodec other c r = Unit {0}

-- Where two bytes can hold the fields of the back end, they are read back as they were.
pub get_ctype-bytes :
    (k : Ctype) (c r : Control)
    → HasCode k c
    → (r' : Control) × (get_ctype r (ctype_bytes k c).0 (ctype_bytes k c).1 ≡ ok r')
      × SameCodec k c r'
unfolding get_ctype ctype_bytes
get_ctype-bytes lzma c r (p, le, e) = (
  _,
  refl,
  ap (λ s. lzma2_dic_size_from_prop (lzma2_prop_from_dic s)) e
      ∙ ap lzma2_dic_size_from_prop (lzma2_prop_from_dic-size p le)
      ∙ sym e,
)
get_ctype-bytes zpaq c r (lo, hi) = (_, refl, (omega arith, omega arith))
get_ctype-bytes bzip3 c r (p, le, e) = (
  _,
  refl,
  ap (λ s. bzip3_block_size_from_prop (bzip3_prop_from_block_size s % 16)) e
      ∙ ap (λ s. bzip3_block_size_from_prop (s % 16)) (bzip3_prop_from_block_size-size p le)
      ∙ ap bzip3_block_size_from_prop (let z : p % 16 ≡ p = omega arith in z)
      ∙ sym e,
)
get_ctype-bytes zstd c r (lo, hi) =
    let b = (c.zstd_strategy * 16 + 4) % 256 in
    let n1 : (b == 1) ≡ false = ground arith in
    let n2 : (b == 2) ≡ false = ground arith in
    let n3 : (b == 3) ≡ false = ground arith in
    let n4 : (b % 16 == 4) ≡ true = ground arith in
    (
      record r { zstd_strategy = b / 16; zstd_level = c.zstd_level % 256 },
      rw (n1, n2, n3, n4) refl,
      (omega arith, omega arith),
    )
get_ctype-bytes other c r h = (r, refl, tt)
