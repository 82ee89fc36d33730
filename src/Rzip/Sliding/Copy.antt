-- ===== src/Rzip/Sliding/Copy.antt =====
-- `sliding_mcpy` of src/rzip.c copies the bytes of the file, across moves of the maps.
use lrzip_next.Common.{ℕ, zero, suc, ◌+◌, ◌-◌, ◌≤◌, ◌<◌, min, ◌≡◌, refl, sym, ap, ap₂, ◌∙◌, arith}
use lrzip_next.Common.{List, ◌++◌, some}
use lrzip_next.Rzip.Slice.{slice-agree, slice, slice-add}
use lrzip_next.Rzip.Sliding.{
  SlidingBuffer, mcpy_loop, sliding_mcpy, sliding_get_sb, sliding_get_sb_range,
}
use lrzip_next.Rzip.Sliding.Laws.{IsMapped, sliding_get_sb-Points}
use mathlib.Core.Option

module _ (page_size : ℕ) (file : ℕ → ℕ) where
  mcpy_step :
      (fuel len p n : ℕ) (sb sb2 : SlidingBuffer) (bs : List ℕ)
      → sliding_get_sb_range page_size file (sliding_get_sb page_size file sb p).1 p ≡ some n
      → mcpy_loop page_size file fuel
          (sliding_get_sb page_size file sb p).1
          (p + min n (suc len))
          (suc len - min n (suc len))
        ≡ some (bs, sb2)
      → mcpy_loop page_size file (suc fuel) sb p (suc len)
        ≡ some (slice (sliding_get_sb page_size file sb p).0 0 (min n (suc len)) ++ bs, sb2)
  unfolding mcpy_loop
  mcpy_step fuel len p n sb sb2 bs e k = rw (e, mcpy_loop) (rw (k, Option.map) refl)

  mcpy_loop-slice :
      (fuel : ℕ) (sb : SlidingBuffer) (p len : ℕ)
      → len < fuel
      → 0 < page_size
      → p + len ≤ sb.orig_size
      → IsMapped page_size file sb
      → (sb' : SlidingBuffer) × (mcpy_loop page_size file fuel sb p len
          ≡ some (slice file (sb.orig_offset + p) len, sb'))
        × IsMapped page_size file sb'
  unfolding mcpy_loop
  mcpy_loop-slice zero sb p len f lo hi m = absurd (omega arith)
  mcpy_loop-slice (suc fuel) sb p zero f lo hi m = (sb, refl, m)
  mcpy_loop-slice (suc fuel) sb p (suc len) f lo hi m =
      let (n, pt) = sliding_get_sb-Points page_size file sb p lo (omega arith) m in
      let src = (sliding_get_sb page_size file sb p).0 in
      let sb1 = (sliding_get_sb page_size file sb p).1 in
      let k = min n (suc len) in
      let (sb2, run, m2) =
        mcpy_loop-slice fuel sb1 (p + k) (suc len - k) (omega (arith, pt.byte)) lo
          (omega (arith, pt.same_size)) pt.mapped in
      (
        sb2,
        mcpy_step fuel len p n sb sb2 _ pt.range run
            ∙ ap (λ r. some (r, sb2))
                (ap₂ (λ x y. x ++ y)
                    (slice-agree src file 0 (sb.orig_offset + p) k (λ i lt.
                      ap src (let z : 0 + i ≡ i = omega arith in z) ∙ pt.bytes i (omega arith)))
                    (ap (λ q. slice file q (suc len - k))
                      (let z : sb1.orig_offset + (p + k) ≡ sb.orig_offset + p + k =
                          omega (arith, pt.same_offset) in
                        z))
                  ∙ sym (slice-add file (sb.orig_offset + p) k (suc len - k))
                  ∙ ap (slice file (sb.orig_offset + p))
                      (let z : k + (suc len - k) ≡ suc len = omega arith in z)),
        m2,
      )

  -- A copy of bytes of the chunk ends, and it is the bytes of the file from there on; the maps stay
  -- right.
  pub sliding_mcpy-slice :
      (sb : SlidingBuffer) (offset len : ℕ)
      → 0 < page_size
      → offset + len ≤ sb.orig_size
      → IsMapped page_size file sb
      → (sb' : SlidingBuffer) × (sliding_mcpy page_size file sb offset len
          ≡ some (slice file (sb.orig_offset + offset) len, sb'))
        × IsMapped page_size file sb'
  unfolding sliding_mcpy
  sliding_mcpy-slice sb offset len lo hi m =
      mcpy_loop-slice (suc len) sb offset len (omega arith) lo hi m
