-- ===== src/Tests/Sliding.antt =====
-- The sliding buffer, src/rzip.c, at concrete inputs.
use lrzip_next.Common.{ℕ, ◌+◌, ◌≡◌, refl, arith, some}
use lrzip_next.Rzip.Slice.{slice}
use lrzip_next.Rzip.Sliding.{SlidingBuffer, sliding_get_sb, sliding_mcpy}
use lrzip_next.Rzip.Sliding.Laws.{IsMapped, Points, sliding_get_sb-Points}
use lrzip_next.Rzip.Sliding.Copy.{sliding_mcpy-slice}
use lrzip_next.Tests.Base.{every_four}

abbrev two_maps : SlidingBuffer
two_maps = record {
  buf_low = λ (i : ℕ). every_four (0 + 0 + i);
  buf_high = λ (i : ℕ). every_four (0 + 0 + i);
  orig_offset = 0;
  offset_low = 0;
  offset_high = 0;
  offset_search = 0;
  orig_size = 40;
  size_low = 16;
  size_high = 8;
  high_length = 8;
}

two_maps-IsMapped : IsMapped 8 every_four two_maps
two_maps-IsMapped = record {
  low = λ i lt. refl;
  high = λ i lt. refl;
  pages = (0, refl);
  long = omega arith;
}

sliding_get_sb-Points_example :
    (n : ℕ) × Points 8 every_four two_maps
      (sliding_get_sb 8 every_four two_maps 21).1
      (sliding_get_sb 8 every_four two_maps 21).0
      21
      n
sliding_get_sb-Points_example =
    sliding_get_sb-Points 8 every_four two_maps 21 (omega arith) (omega arith) two_maps-IsMapped

sliding_mcpy-slice_example :
    (sb' : SlidingBuffer) × (sliding_mcpy 8 every_four two_maps 10 25
      ≡ some (slice every_four (0 + 10) 25, sb'))
    × IsMapped 8 every_four sb'
sliding_mcpy-slice_example =
    sliding_mcpy-slice 8 every_four two_maps 10 25 (omega arith) (omega arith) two_maps-IsMapped
