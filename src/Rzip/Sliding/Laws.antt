-- ===== src/Rzip/Sliding/Laws.antt =====
-- Whatever the two maps of the sliding buffer of src/rzip.c hold, a read finds the bytes of the file.
use lrzip_next.Common.{ℕ, ◌+◌, ◌-◌, ◌*◌, ◌%◌, ◌≤◌, ◌<◌, ◌≡◌, refl, ap, ◌∙◌, arith}
use lrzip_next.Common.{true, false, Bool-cases, inl, inr, some}
use lrzip_next.Rzip.Sliding.{
  SlidingBuffer, remap_high_sb, in_low, in_high, sliding_get_sb, sliding_get_sb_range,
}
use native.Mathlib.Nat.{mod-lt, mod-le, add-mul-mod_self_right}

module _ (page_size : ℕ) (file : ℕ → ℕ) where
  -- The bytes of the maps are those of the file, the chunk begins on a page, and the small map has a
  -- page at least.
  pub record IsMapped (sb : SlidingBuffer) : Type 0 where
    pub low : (i : ℕ) → i < sb.size_low → sb.buf_low i ≡ file (sb.orig_offset + sb.offset_low + i)
    pub high :
        (i : ℕ) → i < sb.size_high → sb.buf_high i ≡ file (sb.orig_offset + sb.offset_high + i)
    pub pages : (k : ℕ) × (sb.orig_offset ≡ k * page_size)
    pub long : page_size ≤ sb.high_length

  -- A pointer at `p` with `n` bytes behind it.
  pub record Points (sb sb' : SlidingBuffer) (src : ℕ → ℕ) (p n : ℕ) : Type 0 where
    pub mapped : IsMapped sb'
    pub same_offset : sb'.orig_offset ≡ sb.orig_offset
    pub same_size : sb'.orig_size ≡ sb.orig_size
    pub range : sliding_get_sb_range page_size file sb' p ≡ some n
    pub byte : 0 < n
    pub bytes : (i : ℕ) → i < n → src i ≡ file (sb.orig_offset + p + i)

  in_low-bounds :
      (sb : SlidingBuffer) (p : ℕ)
      → in_low page_size file sb p ≡ true
      → (sb.offset_low ≤ p) × (p < sb.offset_low + sb.size_low)
  in_low-bounds sb p h = ground arith

  in_high-bounds :
      (sb : SlidingBuffer) (p : ℕ)
      → in_high page_size file sb p ≡ true
      → (sb.offset_high ≤ p) × (p < sb.offset_high + sb.size_high)
  in_high-bounds sb p h = ground arith

  pointer_low :
      (sb : SlidingBuffer) (p : ℕ)
      → IsMapped sb
      → in_low page_size file sb p ≡ true
      → Points sb sb (λ i. sb.buf_low (p - sb.offset_low + i)) p (sb.size_low - (p - sb.offset_low))
  unfolding sliding_get_sb_range
  pointer_low sb p m h =
      let (lo, hi) = in_low-bounds sb p h in
      record {
        mapped = m;
        same_offset = refl;
        same_size = refl;
        range = rw h refl;
        byte = omega arith;
        bytes = λ i lt.
            m.low (p - sb.offset_low + i) (omega arith)
            ∙ ap file (
                let z : sb.orig_offset + sb.offset_low + (p - sb.offset_low + i)
                    ≡ sb.orig_offset + p + i =
                  omega arith in
                z);
      }

  pointer_high :
      (sb sb' : SlidingBuffer) (p : ℕ)
      → IsMapped sb'
      → sb'.orig_offset ≡ sb.orig_offset
      → sb'.orig_size ≡ sb.orig_size
      → in_low page_size file sb' p ≡ false
      → in_high page_size file sb' p ≡ true
      → Points sb sb'
          (λ i. sb'.buf_high (p - sb'.offset_high + i))
          p
          (sb'.size_high - (p - sb'.offset_high))
  unfolding sliding_get_sb_range
  pointer_high sb sb' p m o s l h =
      let (lo, hi) = in_high-bounds sb' p h in
      record {
        mapped = m;
        same_offset = o;
        same_size = s;
        range = rw (l, h) refl;
        byte = omega arith;
        bytes = λ i lt.
            m.high (p - sb'.offset_high + i) (omega arith)
            ∙ ap file (
                let z : sb'.orig_offset + sb'.offset_high + (p - sb'.offset_high + i)
                    ≡ sb.orig_offset + p + i =
                  omega (arith, o) in
                z);
      }

  remap_high_sb-IsMapped :
      (sb : SlidingBuffer) (p : ℕ)
      → 0 < page_size
      → p < sb.orig_size
      → IsMapped sb
      → IsMapped (remap_high_sb page_size file sb p)
        × (in_high page_size file (remap_high_sb page_size file sb p) p ≡ true)
  unfolding remap_high_sb
  remap_high_sb-IsMapped sb p lo hi m =
      let (k, e) = m.pages in
      let r : (p + sb.orig_offset) % page_size ≡ p % page_size =
        ap (λ o. (p + o) % page_size) e ∙ add-mul-mod_self_right p k page_size in
      let small : (p + sb.orig_offset) % page_size < page_size = mod-lt (p + sb.orig_offset) lo in
      let below : (p + sb.orig_offset) % page_size ≤ p = omega (arith, r, mod-le p page_size) in
      (
        record { low = m.low; high = λ i lt. refl; pages = m.pages; long = m.long },
        ground (arith, m.long),
      )

  -- A read inside the chunk points at the bytes of the file, as many as the range says and one at
  -- least, whichever map has them or is moved to them; the maps stay right.
  pub sliding_get_sb-Points :
      (sb : SlidingBuffer) (p : ℕ)
      → 0 < page_size
      → p < sb.orig_size
      → IsMapped sb
      → let (src, sb') = sliding_get_sb page_size file sb p in (n : ℕ) × Points sb sb' src p n
  unfolding sliding_get_sb
  sliding_get_sb-Points sb p lo hi m = elim (Bool-cases (in_low page_size file sb p)) [
    | inl l ↦ rw l (_, pointer_low sb p m l)
    | inr l ↦ elim (Bool-cases (in_high page_size file sb p)) [
      | inl h ↦ rw (l, h) (_, pointer_high sb sb p m refl refl l h)
      | inr h ↦
          let (m', h') = remap_high_sb-IsMapped sb p lo hi m in
          rw (l, h) (_, pointer_high sb (remap_high_sb page_size file sb p) p m' refl refl l h')
    ]
  ]
