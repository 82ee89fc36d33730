-- ===== src/Rzip/Tag/Laws.antt =====
-- The rolling update computes the tag of the window one byte further on.
use lrzip_next.Common.{ℕ, zero, suc, ◌+◌, ◌-◌, ◌≡◌, sym, ap, ap₂, ◌∙◌, arith, bit_xor}
use lrzip_next.Common.Xor.{bit_xor_comm, bit_xor_assoc, bit_xor_cancel, bit_xor-zero}
use lrzip_next.Rzip.Match.{minimum_match}
use lrzip_next.Rzip.Tag.{next_tag, full_tag_loop, full_tag}

module _ (byte : ℕ → ℕ) (hash_index : ℕ → ℕ) where
  -- The tag of the `n` bytes at `p`.
  abbrev window : ℕ → ℕ → ℕ
  window p zero = 0
  window p (suc n) = bit_xor (hash_index (byte p)) (window (p + 1) n)

  full_tag_loop-window :
      (n p i ret : ℕ) → full_tag_loop byte hash_index n p i ret ≡ bit_xor ret (window (p + i) n)
  unfolding full_tag_loop
  full_tag_loop-window zero p i ret = sym (bit_xor-zero ret)
  full_tag_loop-window (suc n) p i ret =
      full_tag_loop-window n p (i + 1) (bit_xor ret (hash_index (byte (p + i))))
      ∙ bit_xor_assoc ret (hash_index (byte (p + i))) (window (p + (i + 1)) n)
      ∙ ap (λ q. bit_xor ret (bit_xor (hash_index (byte (p + i))) (window q n)))
          (let e : p + (i + 1) ≡ p + i + 1 = omega arith in e)

  zero-bit_xor : (a : ℕ) → bit_xor 0 a ≡ a
  zero-bit_xor a = bit_xor_comm 0 a ∙ bit_xor-zero a

  full_tag-window : (p : ℕ) → full_tag byte hash_index p ≡ window p minimum_match
  unfolding full_tag
  full_tag-window p =
      full_tag_loop-window minimum_match p 0 0
      ∙ zero-bit_xor (window (p + 0) minimum_match)
      ∙ ap (λ q. window q minimum_match) (let e : p + 0 ≡ p = omega arith in e)

  window-snoc : (n p : ℕ) → window p (suc n) ≡ bit_xor (window p n) (hash_index (byte (p + n)))
  window-snoc zero p =
      bit_xor-zero (hash_index (byte p))
      ∙ ap (λ q. hash_index (byte q)) (let e : p ≡ p + 0 = omega arith in e)
      ∙ sym (zero-bit_xor (hash_index (byte (p + 0))))
  window-snoc (suc n) p =
      ap (λ r. bit_xor (hash_index (byte p)) r) (window-snoc n (p + 1))
      ∙ sym (bit_xor_assoc (hash_index (byte p)) (window (p + 1) n) _)
      ∙ ap (λ q. bit_xor (bit_xor (hash_index (byte p)) (window (p + 1) n)) (hash_index (byte q)))
          (let e : p + 1 + n ≡ p + suc n = omega arith in e)

  -- Sliding the window by one byte with `next_tag` gives what `full_tag` computes afresh.
  pub next_tag-full_tag :
      (p : ℕ)
      → next_tag byte hash_index (p + 1) (full_tag byte hash_index p)
        ≡ full_tag byte hash_index (p + 1)
  unfolding next_tag
  next_tag-full_tag p =
      rw (full_tag-window p, full_tag-window (p + 1))
        (ap
            (λ q.
              bit_xor (bit_xor (window p minimum_match) (hash_index (byte q)))
                (hash_index (byte (p + 1 + 31 - 1))))
            (let e : p + 1 - 1 ≡ p = omega arith in e)
          ∙ ap₂ bit_xor (bit_xor_cancel (hash_index (byte p)) (window (p + 1) 30)) (
              ap (λ q. hash_index (byte q))
                (let e : p + 1 + 31 - 1 ≡ p + 1 + 30 = omega arith in e))
          ∙ sym (window-snoc 30 (p + 1)))
