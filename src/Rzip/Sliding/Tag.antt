-- ===== src/Rzip/Sliding/Tag.antt =====
-- The tags of src/rzip.c through the sliding buffer, and how the buffer begins.
use lrzip_next.Common.{ℕ, zero, suc, ◌+◌, ◌-◌, bit_xor, Bool, if◌then◌else◌}
use lrzip_next.Rzip.Match.{minimum_match}
use lrzip_next.Rzip.Sliding.{SlidingBuffer, mmap, sliding_get_sb}

module _ (page_size : ℕ) (file : ℕ → ℕ) where
  -- Without standard input a page at the offset of the chunk is mapped as the small map.
  unfoldable pub init_sliding_mmap : Bool → SlidingBuffer → ℕ → ℕ → ℕ → SlidingBuffer
  init_sliding_mmap stdin sb mmap_size chunk_size offset =
      let sb' = record sb {
        high_length = page_size;
        buf_high = mmap page_size file offset;
        size_high = page_size;
        offset_high = 0;
      } in
      record (if stdin then sb else sb') {
        offset_low = 0;
        offset_search = 0;
        size_low = mmap_size;
        orig_size = chunk_size;
      }

  module _ (hash_index : ℕ → ℕ) where
    -- `u = sliding_get_sb(control, p); *t ^= st->hash_index[*u];`
    unfoldable pub mix : SlidingBuffer → ℕ → ℕ → ℕ × SlidingBuffer
    unfolding sliding_get_sb
    mix sb p t =
        let (u, sb') = sliding_get_sb page_size file sb p in (bit_xor t (hash_index (u 0)), sb')

    unfoldable pub sliding_next_tag : SlidingBuffer → ℕ → ℕ → ℕ × SlidingBuffer
    unfolding mix
    sliding_next_tag sb p t = let (t', sb') = mix sb (p - 1) t in mix sb' (p + minimum_match - 1) t'

    -- The loop of `sliding_full_tag`, with `n` rounds left.
    unfoldable pub sliding_tag_loop : ℕ → SlidingBuffer → ℕ → ℕ → ℕ → ℕ × SlidingBuffer
    unfolding mix
    sliding_tag_loop zero sb p i ret = (ret, sb)
    sliding_tag_loop (suc n) sb p i ret =
        let (ret', sb') = mix sb (p + i) ret in sliding_tag_loop n sb' p (i + 1) ret'

    unfoldable pub sliding_full_tag : SlidingBuffer → ℕ → ℕ × SlidingBuffer
    unfolding sliding_tag_loop
    sliding_full_tag sb p = sliding_tag_loop minimum_match sb p 0 0
