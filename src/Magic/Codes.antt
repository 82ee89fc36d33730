-- ===== src/Magic/Codes.antt =====
-- The sizes that the magic header holds as one byte: the dictionary of LZMA and the block of bzip3.
-- src/include/lrzip_private.h.
use lrzip_next.Common.{ℕ, zero, suc, ◌+◌, ◌*◌, ◌/◌, ◌%◌, ◌^◌, ◌≤◌, ◌<◌, ◌≡◌, refl, arith}
use lrzip_next.Common.{
  Bool, true, false, ◌&&◌, leb, ◌==◌, if◌then◌else◌, bit_and, bit_or, Bool-cases,
}
use lrzip_next.Common.{inl, inr, ==→eq}

-- `LZMA2_DIC_SIZE_FROM_PROP`, on 32 bits.
unfoldable pub lzma2_dic_size_from_prop : ℕ → ℕ
lzma2_dic_size_from_prop p =
    if p == 40 then 0xffff_ffff else bit_or 2 (bit_and p 1) * 2 ^ (p / 2 + 11) % 2 ^ 32

-- `BZIP3_BLOCK_SIZE_FROM_PROP`, on 32 bits.
unfoldable pub bzip3_block_size_from_prop : ℕ → ℕ
bzip3_block_size_from_prop p =
    if p == 8 then 0x1ff0_0000 else bit_or 2 (bit_and p 1) * 2 ^ (p / 2 + 24) % 2 ^ 32

-- `for (i = 0; i <= 40; i++) if (size <= FROM_PROP(i)) break;`, with `n` rounds left.
unfoldable pub prop_loop : (ℕ → ℕ) → ℕ → ℕ → ℕ → ℕ
prop_loop from_prop zero i size = i
prop_loop from_prop (suc n) i size = elim (leb size (from_prop i)) [
  | true ↦ i
  | false ↦ prop_loop from_prop n (i + 1) size
]

unfoldable pub lzma2_prop_from_dic : ℕ → ℕ
unfolding lzma2_dic_size_from_prop prop_loop
lzma2_prop_from_dic dic_size = prop_loop lzma2_dic_size_from_prop 41 0 dic_size

unfoldable pub bzip3_prop_from_block_size : ℕ → ℕ
unfolding bzip3_block_size_from_prop prop_loop
bzip3_prop_from_block_size bs = prop_loop bzip3_block_size_from_prop 9 0 bs

-- A test on every number below `n`.
abbrev pub below : ℕ → (ℕ → Bool) → Bool
below zero test = true
below (suc n) test = test n && below n test

both : (a b : Bool) → a && b ≡ true → (a ≡ true) × (b ≡ true)
both true b h = (refl, h)
both false b h = cc

pub below-at : (n p : ℕ) (test : ℕ → Bool) → below n test ≡ true → p < n → test p ≡ true
below-at zero p test h lt = absurd (omega arith)
below-at (suc n) p test h lt =
    let (last, rest) = both (test n) (below n test) h in
    elim (Bool-cases (p == n)) [
      | inl e ↦ rw (==→eq p n e) last
      | inr e ↦ below-at n p test rest (ground arith)
    ]

-- Every dictionary size that has a code up to 40 is given that code.
pub lzma2_prop_from_dic-size :
    (p : ℕ) → p ≤ 40 → lzma2_prop_from_dic (lzma2_dic_size_from_prop p) ≡ p
unfolding lzma2_prop_from_dic
lzma2_prop_from_dic-size p h =
    ==→eq _ p (
      below-at 41 p (λ q. lzma2_prop_from_dic (lzma2_dic_size_from_prop q) == q) refl (omega arith))

-- Every block size that has a code up to 8 is given that code.
pub bzip3_prop_from_block_size-size :
    (p : ℕ) → p ≤ 8 → bzip3_prop_from_block_size (bzip3_block_size_from_prop p) ≡ p
unfolding bzip3_prop_from_block_size
bzip3_prop_from_block_size-size p h = ==→eq _ p (
    below-at 9 p (λ q. bzip3_prop_from_block_size (bzip3_block_size_from_prop q) == q) refl
      (omega arith))
