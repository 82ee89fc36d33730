-- ===== src/Rzip/Tag.antt =====
-- The rolling hash of src/rzip.c. A tag is the bit pattern of an `i64`.
pub mod Laws
use lrzip_next.Common.{ℕ, zero, suc, ◌+◌, ◌-◌, bit_xor}
use lrzip_next.Rzip.Match.{minimum_match}

module _ (byte : ℕ → ℕ) (hash_index : ℕ → ℕ) where
  -- `single_next_tag`: the byte that leaves the window and the one that enters it.
  unfoldable pub next_tag : ℕ → ℕ → ℕ
  next_tag p t =
      bit_xor (bit_xor t (hash_index (byte (p - 1)))) (hash_index (byte (p + minimum_match - 1)))

  -- The loop of `single_full_tag`, with `n` rounds left.
  unfoldable pub full_tag_loop : ℕ → ℕ → ℕ → ℕ → ℕ
  full_tag_loop zero p i ret = ret
  full_tag_loop (suc n) p i ret =
      full_tag_loop n p (i + 1) (bit_xor ret (hash_index (byte (p + i))))

  unfoldable pub full_tag : ℕ → ℕ
  unfolding full_tag_loop
  full_tag p = full_tag_loop minimum_match p 0 0
