-- ===== src/Tests/Sizes.antt =====
-- The sizes of src/util.c at concrete inputs.
use lrzip_next.Common.{◌/◌, ◌%◌, ◌≤◌, ◌<◌, ◌≡◌, ◌⊎◌, refl, arith, true, false}
use lrzip_next.Magic.Codes.{
  lzma2_dic_size_from_prop, lzma2_prop_from_dic, bzip3_block_size_from_prop,
  bzip3_prop_from_block_size,
}
use lrzip_next.Stream.Backend.Threads.{lzma, bzip3}
use lrzip_next.Util.Ram.{Ram, TakesSixth, TakesThird, setup_ram, setup_ram-bounds}
use lrzip_next.Util.Overhead.{Sizes, setup_overhead, setup_overhead-codes}

abbrev ram : Ram
ram = record {
  stdout = true;
  stdin = false;
  decompress = false;
  test_only = false;
  ramsize = 1000000;
  maxram = 0;
  usable_ram = 0;
}

setup_ram-bounds_example :
    ((setup_ram 4096 ram).maxram % 4096 ≡ 0)
    × (4096 ≤ (setup_ram 4096 ram).maxram)
    × (((setup_ram 4096 ram).maxram ≤ 1000000 / 3) ⊎ ((setup_ram 4096 ram).maxram ≡ 4096))
    × ((setup_ram 4096 ram).usable_ram ≤ 1000000 / 3)
    × (((setup_ram 4096 ram).maxram ≤ (setup_ram 4096 ram).usable_ram)
        ⊎ ((setup_ram 4096 ram).usable_ram < 4096) × ((setup_ram 4096 ram).maxram ≡ 4096))
    × (TakesSixth ram × ((setup_ram 4096 ram).usable_ram ≡ 1000000 / 6)
        ⊎ TakesThird ram × ((setup_ram 4096 ram).usable_ram ≡ 1000000 / 3))
setup_ram-bounds_example = setup_ram-bounds 4096 ram (omega arith)

abbrev sizes : Sizes
sizes = record {
  compression_level = 8;
  dict_size = 0;
  zpaq_level = 0;
  zpaq_bs = 0;
  bzip3_bs = 0;
  bzip3_block_size = 0;
  overhead = 0;
}

setup_overhead-codes_example :
    (lzma2_dic_size_from_prop (lzma2_prop_from_dic (setup_overhead lzma sizes).dict_size)
      ≡ (setup_overhead lzma sizes).dict_size)
    × (bzip3_block_size_from_prop
          (bzip3_prop_from_block_size (setup_overhead bzip3 sizes).bzip3_block_size)
        ≡ (setup_overhead bzip3 sizes).bzip3_block_size)
setup_overhead-codes_example = setup_overhead-codes sizes (omega arith, omega arith) refl refl
