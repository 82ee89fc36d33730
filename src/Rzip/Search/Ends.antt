-- ===== src/Rzip/Search/Ends.antt =====
-- The loop of `hash_search` ends: a round moves `p` on, or moves `last_match` on, and neither passes
-- `end`. `p` may go back when a match is emitted late.
use lrzip_next.Common.{ℕ, zero, suc, ◌+◌, ◌-◌, ◌*◌, ◌^◌, ◌≤◌, ◌<◌, ◌≡◌, refl, arith}
use lrzip_next.Common.{List, ltb, ◌==◌}
use lrzip_next.Common.{Bool-cases, inl, inr, ◌⊎◌, bit_and, ltb→lt, ltb→ge}
use lrzip_next.Rzip.Match.{minimum_match}
use lrzip_next.Rzip.Search.{
  Env, Search, end_of, advance, insert_round, look_up, emit, cksum_round, step, search_loop,
}
use lrzip_next.Rzip.Search.Inv.{Inv, advance-Inv, look_up-Inv, step-Inv}
use native.Mathlib.Nat.{mul-le-mul_right}

module _ (env : Env) (byte : ℕ → ℕ) where
  abbrev Progress : (last p : ℕ) → Search → Type 0
  Progress last p s' = (s'.st.last_match ≡ last) × (s'.p ≡ p) ⊎ last < s'.st.last_match

  look_up-keeps :
      (s : Search)
      → ((look_up env byte s).st.last_match ≡ s.st.last_match) × ((look_up env byte s).p ≡ s.p)
  unfolding look_up insert_round
  look_up-keeps s = ground arith

  cksum_round-Progress :
      (last p : ℕ) (s : Search) → Progress last p s → Progress last p (cksum_round env byte s)
  unfolding cksum_round
  cksum_round-Progress last p s h = ground arith

module _ (env : Env) (byte : ℕ → ℕ) (size cb : ℕ) (old : List ℕ) where
  emit-Progress :
      (s : Search)
      → Inv env byte size cb old s
      → Progress env byte s.st.last_match s.p (emit env byte s)
  unfolding emit
  emit-Progress s v = elim v.current [ inl e ↦ ground arith | inr f ↦ ground (arith, f.after) ]

  step-Progress :
      (s : Search)
      → s.p < size - minimum_match
      → Inv env byte size cb old s
      → Progress env byte s.st.last_match (s.p + 1) (step env byte s)
  unfolding step
  step-Progress s lt v =
      let s' = advance env byte s in
      let u = look_up env byte s' in
      let w = look_up-Inv env byte size cb old s' (advance-Inv env byte size cb old s lt v) in
      let (same_last, same_p) = look_up-keeps env byte s' in
      let mask = s'.table.minimum_tag_mask in
      elim (Bool-cases (bit_and s'.t mask == mask)) [
        | inl e ↦ rw e (
            cksum_round-Progress env byte s.st.last_match (s.p + 1) (emit env byte u)
              (Progress-from (emit env byte u) same_last same_p (emit-Progress u w)))
        | inr e ↦ rw e (inl (refl, refl))
      ]
    where
      Progress-from :
          (r : Search) {a b c d : ℕ}
          → a ≡ c
          → b ≡ d
          → Progress env byte a b r
          → Progress env byte c d r
      Progress-from r e f h = rw (← e, ← f) h

  -- What is left to do, for a match that ends at `last` and a search that is at `p`.
  abbrev left : ℕ → ℕ → ℕ
  left last p =
      (size - minimum_match - last) * (size - minimum_match + 1) + (size - minimum_match - p)

  left-Progress :
      (last p last' p' : ℕ)
      → last ≤ p
      → p < size - minimum_match
      → last' ≤ p'
      → p' ≤ size - minimum_match
      → (last' ≡ last) × (p' ≡ p + 1) ⊎ last < last'
      → left last' p' < left last p
  left-Progress last p last' p' a b c d (inl (e, f)) = rw (e, f) (omega arith)
  left-Progress last p last' p' a b c d (inr lt) =
      let n = size - minimum_match in
      let m : suc (n - last') * (n + 1) ≤ (n - last) * (n + 1) =
        mul-le-mul_right (n + 1) (omega arith) in
      omega (arith, m)

  -- From a state with the invariant, for a size that the byte width can hold and with enough rounds, the
  -- loop ends by its own test and its invariant holds.
  pub search_loop-Inv :
      (fuel : ℕ) (s : Search)
      → size ≤ 256 ^ cb
      → left s.st.last_match s.p < fuel
      → Inv env byte size cb old s
      → Inv env byte size cb old (search_loop env byte fuel s)
        × (size - minimum_match ≤ (search_loop env byte fuel s).p)
  unfolding search_loop
  search_loop-Inv zero s small m v = absurd (omega arith)
  search_loop-Inv (suc fuel) s small m v = elim (Bool-cases (ltb s.p (end_of s.st))) [
    | inr e ↦ rw (e, search_loop) (v, let ge = ltb→ge s.p (end_of s.st) e in rw v.sized at ge)
    | inl e ↦
        rw (e, search_loop)
          (let lt' = ltb→lt s.p (end_of s.st) e in
            let lt : s.p < size - minimum_match = rw v.sized at lt' in
            let w = step-Inv env byte size cb old s small lt v in
            search_loop-Inv fuel (step env byte s) small
              (omega (
                arith,
                left-Progress s.st.last_match s.p (step env byte s).st.last_match
                    (step env byte s).p v.passed lt w.passed w.within (step-Progress s lt v),
              ))
              w)
  ]
