-- ===== src/Util/Crypt/Cost.antt =====
-- The cost factor of an archive before version 0.14, src/util.c.
use native.Mathlib.Nat.{pow-suc, one-le-pow, mul-le-mul_right}
use lrzip_next.Common.{
  ℕ, zero, suc, ◌+◌, ◌-◌, ◌*◌, ◌/◌, ◌^◌, ◌≤◌, ◌<◌, ◌≡◌, ◌⊎◌, ap, ◌∙◌, arith, subst,
}
use lrzip_next.Common.{true, ltb, Bool-cases, inl, inr}
use lrzip_next.Util.Crypt.{Secrets, log2_loop, shifted_loops, encloops, cost_loop, cost_factor}
use lrzip_next.Common.{get_or}

-- `1 << (i - 1)` is the largest power of two up to `encloops`, as far as 2 ^ 30.
pub cost_loop-bounds :
    (left i encloops : ℕ)
    → 1 ≤ i
    → 2 ^ (i - 1) ≤ encloops
    → (2 ^ (cost_loop left i encloops - 1) ≤ encloops)
      × ((encloops < 2 ^ cost_loop left i encloops) ⊎ (cost_loop left i encloops ≡ i + left))
unfolding cost_loop
cost_loop-bounds zero i encloops lo le = (le, inr (omega arith))
cost_loop-bounds (suc left) i encloops lo le = elim (Bool-cases (ltb encloops (2 ^ i))) [
  | inl found ↦ rw (found, cost_loop) (le, inl (ground (arith, found)))
  | inr more ↦
      rw (more, cost_loop)
        (let r = cost_loop-bounds left (i + 1) encloops (omega arith) (
            subst (λ k. 2 ^ k ≤ encloops) (let z : i ≡ i + 1 - 1 = omega arith in z)
              (ground (arith, more))) in
          (r.0, elim r.1 [ inl lt ↦ inl lt | inr e ↦ inr (omega (arith, e)) ]))
]

some_loops : (c : Secrets) → 1 ≤ shifted_loops c
some_loops c =
    mul_pos (2 ^ log2_loop 8 (get_or c.salt 1 0)) (2 ^ get_or c.salt 0 0)
      (one-le-pow (log2_loop 8 (get_or c.salt 1 0)) 2 (omega arith))
      (one-le-pow (get_or c.salt 0 0) 2 (omega arith))
  where
    mul_pos : (a b : ℕ) → 1 ≤ a → 1 ≤ b → 1 ≤ a * b
    mul_pos zero b ha hb = absurd (omega (arith, ha))
    mul_pos (suc a) b ha hb = omega (arith, hb)

double : (k : ℕ) → 2 ^ k ≤ 2 * 2 ^ (k - 1)
double zero = omega arith
double (suc k) =
    omega (arith, pow-suc 2 k, ap (λ j. 2 ^ j) (let z : suc k - 1 ≡ k = omega arith in z))

log2_loop-le : (fuel n : ℕ) → 1 ≤ n → 2 ^ log2_loop fuel n ≤ n
unfolding log2_loop
log2_loop-le zero n lo = lo
log2_loop-le (suc fuel) n lo = elim (Bool-cases (ltb n 2)) [
  | inl e ↦ rw (e, log2_loop) lo
  | inr e ↦
      let rest = log2_loop-le fuel (n / 2) (ground (arith, e)) in
      let p : 2 ^ (log2_loop fuel (n / 2) + 1) ≡ 2 ^ log2_loop fuel (n / 2) * 2 =
        ap (λ k. 2 ^ k)
          (let z : log2_loop fuel (n / 2) + 1 ≡ suc (log2_loop fuel (n / 2)) = omega arith in z)
        ∙ pow-suc 2 (log2_loop fuel (n / 2)) in
      rw (e, log2_loop) (omega (arith, rest, p))
]

-- A shift that stays within an `int` is not cut.
encloops-shifted : (c : Secrets) → shifted_loops c < 2 ^ 31 → encloops c ≡ shifted_loops c
encloops-shifted c lt = ground (arith, lt)

-- For an archive before version 0.14 whose second byte of the salt is not 0, and whose shift does not
-- overflow an `int`: the cost is the largest power of two up to the loops, and 2 ^ 30 at most; the loops
-- are at most the second byte of the salt, shifted by the first.
pub cost_factor-bounds :
    (c : Secrets)
    → c.minor_version < 14
    → 1 ≤ get_or c.salt 1 0
    → shifted_loops c < 2 ^ 31
    → (cost_factor c ≤ encloops c)
      × ((encloops c < 2 * cost_factor c) ⊎ (cost_factor c ≡ 2 ^ 30))
      × (encloops c ≤ get_or c.salt 1 0 * 2 ^ get_or c.salt 0 0)
unfolding cost_factor
cost_factor-bounds c old second fits =
    let n = encloops c in
    let same : n ≡ shifted_loops c = encloops-shifted c fits in
    let r = cost_loop-bounds 30 1 n (omega arith) (omega (arith, same, some_loops c)) in
    let k = cost_loop 30 1 n in
    let z : ltb c.minor_version 14 ≡ true = ground (arith, old) in
    rw (z, cost_factor)
      (
        r.0,
        elim r.1 [
          | inl lt ↦ inl (omega (arith, lt, double k))
          | inr e ↦ inr (ap (λ j. 2 ^ (j - 1)) e)
        ],
        omega (
          arith,
          same,
          mul-le-mul_right (2 ^ get_or c.salt 0 0) (log2_loop-le 8 (get_or c.salt 1 0) second),
        ),
      )
