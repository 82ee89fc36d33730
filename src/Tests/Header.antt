-- ===== src/Tests/Header.antt =====
-- The magic header, src/lrzip.c, at concrete inputs.
use lrzip_next.Common.{◌≡◌, refl, arith, inr, true, false, [], ◌∷◌, ◌++◌}
use lrzip_next.Runzip.{ok}
use lrzip_next.Magic.{Control, write_magic, read_magic, zstd, filter_byte, get_filter}
use lrzip_next.Magic.Whole.{IsPlain, Same, read_magic-write_magic}
use lrzip_next.Magic.Laws.{get_filter-delta}

abbrev with_delta : Control
with_delta = record {
  major_version = 0;
  minor_version = 14;
  encrypt = false;
  enc_code = 0;
  salt = [];
  costfactor = 0;
  eof = true;
  st_size = 40;
  hashed = true;
  hash_code = 1;
  filter_flag = 128;
  delta = 48;
  ctype = zstd;
  dict_size = 0;
  lzma_properties = [];
  zpaq_level = 0;
  zpaq_bs = 0;
  bzip3_bs = 0;
  bzip3_block_size = 0;
  zstd_strategy = 9;
  zstd_level = 22;
  rzip_compression_level = 7;
  compression_level = 9;
  comment = [];
}

abbrev blank : Control
blank = record with_delta { filter_flag = 0; delta = 0; zstd_strategy = 0; zstd_level = 0 }

get_filter-delta_example : (get_filter blank (filter_byte with_delta)).delta ≡ 48
get_filter-delta_example =
    get_filter-delta with_delta blank (omega arith) refl (inr (3, omega arith, omega arith, refl))

abbrev commented : Control
commented = record with_delta { comment = 104 ∷ 105 ∷ [] }

commented-IsPlain : IsPlain commented
commented-IsPlain = record {
  plain = refl;
  known = refl;
  size = omega arith;
  hash = refl;
  code = (omega arith, omega arith);
  filter = inr (refl, inr (3, omega arith, omega arith, refl));
  codec = (omega arith, omega arith);
  levels = (omega arith, omega arith);
  commented = omega arith;
}

read_magic-write_magic_example :
    (r : Control) × (read_magic blank (write_magic 0 14 commented ++ (1 ∷ 2 ∷ []))
      ≡ ok (r, 1 ∷ 2 ∷ []))
    × Same commented r
read_magic-write_magic_example =
    read_magic-write_magic blank commented (1 ∷ 2 ∷ []) commented-IsPlain refl
