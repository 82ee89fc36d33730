-- ===== src/Rzip/Slice.antt =====
-- Runs of bytes of the buffer that is being compressed. The buffer is a function from offsets to
-- bytes, as `buf_low` is a pointer into the mapped file.
use lrzip_next.Common.{ℕ, zero, suc, ◌+◌, ◌<◌, ◌≡◌, refl, ap, ap₂, ◌∙◌, arith}
use lrzip_next.Common.{List, [], ◌∷◌, ◌++◌, length, get_or}

module _ (byte : ℕ → ℕ) where
  -- buf[p..p + n)
  abbrev pub slice : ℕ → ℕ → List ℕ
  slice p zero = []
  slice p (suc n) = byte p ∷ slice (p + 1) n

  pub length-slice : (p n : ℕ) → length (slice p n) ≡ n
  length-slice p zero = refl
  length-slice p (suc n) = ap suc (length-slice (p + 1) n)

  pub slice-add : (p m n : ℕ) → slice p (m + n) ≡ slice p m ++ slice (p + m) n
  slice-add p zero n = ap₂ slice (omega arith) (omega arith)
  slice-add p (suc m) n =
      ap (slice p) (let e : suc m + n ≡ suc (m + n) = omega arith in e)
      ∙ ap (λ r. byte p ∷ r)
          (slice-add (p + 1) m n
            ∙ ap (λ q. slice (p + 1) m ++ slice q n)
                (let e : p + 1 + m ≡ p + suc m = omega arith in e))

  pub get_or-slice : (p n i : ℕ) → i < n → get_or (slice p n) i 0 ≡ byte (p + i)
  get_or-slice p zero i h = absurd (omega arith)
  get_or-slice p (suc n) zero h = ap byte (omega arith)
  get_or-slice p (suc n) (suc i) h = get_or-slice (p + 1) n i (omega arith) ∙ ap byte (omega arith)

  pub slice-add_zero : (m n : ℕ) → slice 0 (m + n) ≡ slice 0 m ++ slice m n
  slice-add_zero m n =
      slice-add 0 m n ∙ ap (λ q. slice 0 m ++ slice q n) (let e : 0 + m ≡ m = omega arith in e)

-- Runs of equal bytes, of two buffers.
pub slice-agree :
    (f g : ℕ → ℕ) (a b n : ℕ)
    → ((i : ℕ) → i < n → f (a + i) ≡ g (b + i))
    → slice f a n ≡ slice g b n
slice-agree f g a b zero h = refl
slice-agree f g a b (suc n) h =
    ap₂ (λ x xs. x ∷ xs)
      (ap f (let z : a ≡ a + 0 = omega arith in z)
        ∙ h 0 (omega arith)
        ∙ ap g (let z : b + 0 ≡ b = omega arith in z))
      (slice-agree f g (a + 1) (b + 1) n (λ i lt.
        ap f (let z : a + 1 + i ≡ a + suc i = omega arith in z)
        ∙ h (suc i) (omega arith)
        ∙ ap g (let z : b + suc i ≡ b + 1 + i = omega arith in z)))
