-- ===== src/Util/Overhead.antt =====
-- `setup_overhead` of src/util.c: the sizes of the back ends for a level of compression.
use lrzip_next.Common.{ℕ, ◌+◌, ◌-◌, ◌*◌, ◌/◌, ◌^◌, ◌≤◌, ◌<◌, ◌≡◌, refl, ap, subst, ==→eq, arith}
use lrzip_next.Common.{Bool, true, ◌&&◌, leb, ◌==◌, if◌then◌else◌}
use lrzip_next.Magic.Codes.{
  lzma2_dic_size_from_prop, lzma2_prop_from_dic, bzip3_block_size_from_prop,
  bzip3_prop_from_block_size, bzip3_prop_from_block_size-size, below-at,
}
use lrzip_next.Stream.Backend.Threads.{Codec, off, lzma, lzo, bzip2, gzip, zpaq, bzip3, zstd}

pub record Sizes : Type 0 where
  pub compression_level : ℕ
  pub dict_size : ℕ
  pub zpaq_level : ℕ
  pub zpaq_bs : ℕ
  pub bzip3_bs : ℕ
  pub bzip3_block_size : ℕ
  pub overhead : ℕ

abbrev pub one_mb : ℕ
one_mb = 1048576

-- `switch (control->compression_level)` where no size of the dictionary is given.
unfoldable pub default_dict_size : ℕ → ℕ
default_dict_size level =
    if leb 1 level && leb level 3
    then 2 ^ (level * 2 + 16)
    else if leb 4 level && leb level 6
    then 2 ^ (level + 19)
    else if level == 7
    then 2 ^ 25
    else if level == 8
    then 2 ^ 26
    else if level == 9
    then 2 ^ 27
    else 2 ^ 24

unfoldable pub default_zpaq_bs : ℕ → ℕ
default_zpaq_bs level =
    if leb 1 level && leb level 3
    then 4
    else if leb 4 level && leb level 5
    then 5
    else if leb 6 level && leb level 9
    then level
    else 4

-- `round` of a float, for a level: the nearest number, since there is never a half.
abbrev pub zpaq_level_of : ℕ → ℕ
zpaq_level_of level = (level * 10 + 9) / 18

abbrev pub zpaq_thread : ℕ → ℕ
zpaq_thread level =
    if level == 1
    then 128 * one_mb
    else if level == 2
    then 450 * one_mb
    else if level == 3
    then 450 * one_mb
    else if level == 4
    then 550 * one_mb
    else 850 * one_mb

-- The sizes are unsigned numbers of 32 bits, the overhead is an i64.
unfoldable pub setup_overhead : Codec → Sizes → Sizes
unfolding default_dict_size default_zpaq_bs bzip3_block_size_from_prop
setup_overhead lzma c =
    let dict = if c.dict_size == 0 then default_dict_size c.compression_level else c.dict_size in
    record c { dict_size = dict; overhead = dict * 23 / 2 + 6 * one_mb + 16384 }
setup_overhead zpaq c =
    let level = zpaq_level_of c.compression_level in
    let bs = if c.zpaq_bs == 0 then default_zpaq_bs c.compression_level else c.zpaq_bs in
    record c { zpaq_level = level; zpaq_bs = bs; overhead = 2 ^ bs * one_mb + zpaq_thread level }
setup_overhead bzip3 c =
    let bs = if c.bzip3_block_size == 0 then c.compression_level - 1 else c.bzip3_bs in
    record c {
      bzip3_bs = bs;
      bzip3_block_size = bzip3_block_size_from_prop bs;
      overhead = bzip3_block_size_from_prop bs * 6;
    }
setup_overhead off c = c
setup_overhead lzo c = c
setup_overhead bzip2 c = c
setup_overhead gzip c = c
setup_overhead zstd c = c

-- The code of a default dictionary stands for just its size.
coded : ℕ → Bool
unfolding default_dict_size lzma2_dic_size_from_prop lzma2_prop_from_dic
coded n =
    lzma2_dic_size_from_prop (lzma2_prop_from_dic (default_dict_size (n + 1)))
    == default_dict_size (n + 1)

default_dict_size-code :
    (n : ℕ)
    → n < 9
    → lzma2_dic_size_from_prop (lzma2_prop_from_dic (default_dict_size (n + 1)))
      ≡ default_dict_size (n + 1)
unfolding coded
default_dict_size-code n lt = ==→eq _ _ (below-at 9 n coded refl lt)

-- For a level from 1 to 9 and no size that is given, the sizes of the dictionary of LZMA and of the
-- blocks of bzip3 are such that the byte of the magic header stands for just that size.
pub setup_overhead-codes :
    (c : Sizes)
    → (1 ≤ c.compression_level) × (c.compression_level ≤ 9)
    → c.dict_size ≡ 0
    → c.bzip3_block_size ≡ 0
    → (lzma2_dic_size_from_prop (lzma2_prop_from_dic (setup_overhead lzma c).dict_size)
        ≡ (setup_overhead lzma c).dict_size)
      × (bzip3_block_size_from_prop
            (bzip3_prop_from_block_size (setup_overhead bzip3 c).bzip3_block_size)
          ≡ (setup_overhead bzip3 c).bzip3_block_size)
unfolding setup_overhead
setup_overhead-codes c (lo, hi) d b =
    let t : (c.dict_size == 0) ≡ true = ground (arith, d) in
    let s : (c.bzip3_block_size == 0) ≡ true = ground (arith, b) in
    let e : c.compression_level - 1 + 1 ≡ c.compression_level = omega arith in
    (
      rw t (
          subst
            (λ l.
              lzma2_dic_size_from_prop (lzma2_prop_from_dic (default_dict_size l))
              ≡ default_dict_size l)
            e (default_dict_size-code (c.compression_level - 1) (omega arith))),
      rw s (
          ap bzip3_block_size_from_prop
            (bzip3_prop_from_block_size-size (c.compression_level - 1) (omega arith))),
    )
