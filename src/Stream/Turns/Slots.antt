-- ===== src/Stream/Turns/Slots.antt =====
-- The numbers of the threads: job `k` goes to thread `k % n`.
use native.Mathlib.Nat.{mod-lt, mod-eq_of_lt, div-add-mod', add-mul-mod_self_right, mul-mod_left}
use lrzip_next.Common.{ℕ, zero, suc, ◌+◌, ◌-◌, ◌*◌, ◌/◌, ◌%◌, ◌<◌, ◌≡◌, ◌≢◌, sym, ap, ◌∙◌, arith}
use lrzip_next.Common.{true, false, ◌==◌, Bool-cases, inl, inr}
use lrzip_next.Stream.Turns.{next_thread}

multiples_apart : (a b n d : ℕ) → b * n ≡ a * n + d → 0 < d → d < n → ⊥
multiples_apart zero zero n d e lo hi = omega (arith, e)
multiples_apart zero (suc b) n d e lo hi = omega (arith, e)
multiples_apart (suc a) zero n d e lo hi = omega (arith, e)
multiples_apart (suc a) (suc b) n d e lo hi = multiples_apart a b n d (omega (arith, e)) lo hi

-- Jobs that are less than `n` apart have different threads.
pub threads_differ : (n k l : ℕ) → k < l → l < k + n → k % n ≢ l % n
threads_differ n k l lo hi e =
    multiples_apart (k / n) (l / n) n (l - k) (omega (arith, e, div-add-mod' k n, div-add-mod' l n))
      (omega arith) (omega arith)

pub mod-next : (n k : ℕ) → 0 < n → next_thread n (k % n) ≡ suc k % n
mod-next n k lo = elim (Bool-cases (k % n + 1 == n)) [
  | inl e ↦ rw e (sym (whole e))
  | inr e ↦ rw e (sym (within e))
]
  where
    shifted : suc k % n ≡ (k % n + 1) % n
    shifted =
        ap (λ m. m % n)
          (let z : suc k ≡ k % n + 1 + k / n * n = omega (arith, div-add-mod' k n) in z)
        ∙ add-mul-mod_self_right (k % n + 1) (k / n) n

    whole : (k % n + 1 == n) ≡ true → suc k % n ≡ 0
    whole e =
        shifted
        ∙ ap (λ m. m % n) (let z : k % n + 1 ≡ 1 * n = ground (arith, e) in z)
        ∙ mul-mod_left 1 n

    within : (k % n + 1 == n) ≡ false → suc k % n ≡ k % n + 1
    within e = shifted ∙ mod-eq_of_lt (let z : k % n + 1 < n = ground (arith, e, mod-lt k lo) in z)

pub mod-around : (n k : ℕ) → (k + n) % n ≡ k % n
mod-around n k =
    ap (λ m. m % n) (let z : k + n ≡ k + 1 * n = omega arith in z) ∙ add-mul-mod_self_right k 1 n
