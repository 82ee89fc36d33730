-- ===== src/Rzip/Sliding.antt =====
-- The sliding buffer of src/rzip.c: a large map that moves up with the search, and a small one that
-- moves to wherever else a byte is read.
pub mod Laws
pub mod Copy
pub mod Tag
use lrzip_next.Common.{ℕ, zero, suc, ◌+◌, ◌-◌, ◌%◌, min, Bool, true, false, ◌&&◌, ltb, leb}
use lrzip_next.Common.{List, [], ◌∷◌, ◌++◌, Option, none, some, if◌then◌else◌}
use mathlib.Core.Option
use lrzip_next.Util.Page.{round_to_page}
use lrzip_next.Rzip.Slice.{slice}

-- `struct sliding_buffer`; a map is what its bytes are.
pub record SlidingBuffer : Type 0 where
  pub buf_low : ℕ → ℕ
  pub buf_high : ℕ → ℕ
  pub orig_offset : ℕ
  pub offset_low : ℕ
  pub offset_high : ℕ
  pub offset_search : ℕ
  pub orig_size : ℕ
  pub size_low : ℕ
  pub size_high : ℕ
  pub high_length : ℕ

module _ (page_size : ℕ) (file : ℕ → ℕ) where
  -- `mmap` at an offset: its bytes are those of the file from there on.
  abbrev pub mmap : ℕ → ℕ → ℕ
  mmap offset i = file (offset + i)

  unfoldable pub remap_low_sb : SlidingBuffer → SlidingBuffer
  unfolding round_to_page
  remap_low_sb sb =
      let new_offset = round_to_page page_size sb.offset_search in
      record sb {
        size_low =
            if ltb sb.orig_size (new_offset + sb.size_low)
            then sb.orig_size - new_offset
            else sb.size_low;
        offset_low = new_offset;
        buf_low = mmap (sb.orig_offset + new_offset);
      }

  -- The offset is rounded so that the place in the file is a whole page.
  unfoldable pub remap_high_sb : SlidingBuffer → ℕ → SlidingBuffer
  remap_high_sb sb p =
      let offset = p - (p + sb.orig_offset) % page_size in
      record sb {
        size_high =
            if ltb sb.orig_size (offset + sb.high_length)
            then sb.orig_size - offset
            else sb.high_length;
        offset_high = offset;
        buf_high = mmap (sb.orig_offset + offset);
      }

  abbrev pub in_low : SlidingBuffer → ℕ → Bool
  in_low sb p = leb sb.offset_low p && ltb p (sb.offset_low + sb.size_low)

  abbrev pub in_high : SlidingBuffer → ℕ → Bool
  in_high sb p = leb sb.offset_high p && ltb p (sb.offset_high + sb.size_high)

  -- The pointer, as the bytes that it points to, and the buffer that it leaves.
  unfoldable pub sliding_get_sb : SlidingBuffer → ℕ → (ℕ → ℕ) × SlidingBuffer
  unfolding remap_high_sb
  sliding_get_sb sb p =
      let moved = remap_high_sb sb p in
      if in_low sb p
      then ((λ (i : ℕ). sb.buf_low (p - sb.offset_low + i)), sb)
      else if in_high sb p
      then ((λ (i : ℕ). sb.buf_high (p - sb.offset_high + i)), sb)
      else ((λ (i : ℕ). moved.buf_high (p - moved.offset_high + i)), moved)

  -- `none` is the fatal error.
  unfoldable pub sliding_get_sb_range : SlidingBuffer → ℕ → Option ℕ
  sliding_get_sb_range sb p =
      if in_low sb p
      then some (sb.size_low - (p - sb.offset_low))
      else if in_high sb p
      then some (sb.size_high - (p - sb.offset_high))
      else none

  -- `while (n < len)`, on fuel, with `len` bytes left at `p`.
  unfoldable pub mcpy_loop : ℕ → SlidingBuffer → ℕ → ℕ → Option (List ℕ × SlidingBuffer)
  unfolding sliding_get_sb sliding_get_sb_range
  mcpy_loop zero sb p len = none
  mcpy_loop (suc fuel) sb p zero = some ([], sb)
  mcpy_loop (suc fuel) sb p (suc len) =
      let (srcbuf, sb') = sliding_get_sb sb p in
      elim (sliding_get_sb_range sb' p) [
        | none ↦ none
        | some range ↦
            let m = min range (suc len) in
            Option.map (λ (r : List ℕ × SlidingBuffer). (slice srcbuf 0 m ++ r.0, r.1))
              (mcpy_loop fuel sb' (p + m) (suc len - m))
      ]

  -- Each round copies a byte at least.
  unfoldable pub sliding_mcpy : SlidingBuffer → ℕ → ℕ → Option (List ℕ × SlidingBuffer)
  unfolding mcpy_loop
  sliding_mcpy sb offset len = mcpy_loop (suc len) sb offset len
