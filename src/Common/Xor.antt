-- ===== src/Common/Xor.antt =====
-- The laws of `^` on the native numbers that the rolling hash needs.
use Prim.Native.Nat.{ℕ, zero, suc, ◌+◌, ◌*◌, ◌/◌, ◌%◌, ◌≤◌, ◌<◌, bit_xor}
use Prim.Native.Nat.{digits, bit_xor-bitwise, differ}
use mathlib.Core.Path.{◌≡◌, refl, ap, ◌∙◌}
use native.Mathlib.Nat.{le_refl}
use native.Mathlib.Omega.{arith}

abbrev keep : ℕ → ℕ
keep b = b

-- Any fuel that `a` fits in gives the digits that the fuel `a` gives.
more_fuel :
    (a b fuel more : ℕ)
    → a ≤ fuel
    → a ≤ more
    → digits keep differ fuel a b ≡ digits keep differ more a b
more_fuel zero b zero zero h k = refl
more_fuel zero b zero (suc more) h k = refl
more_fuel zero b (suc fuel) zero h k = refl
more_fuel zero b (suc fuel) (suc more) h k = refl
more_fuel (suc a) b zero more h k = absurd (omega arith)
more_fuel (suc a) b (suc fuel) zero h k = absurd (omega arith)
more_fuel (suc a) b (suc fuel) (suc more) h k =
    rw (more_fuel (suc a / 2) (b / 2) fuel more (omega arith) (omega arith))

differ_sum : (x y : ℕ) → x < 2 → y < 2 → differ x y ≡ (x + y) % 2
differ_sum zero y h k = omega arith
differ_sum (suc zero) zero h k = refl
differ_sum (suc zero) (suc zero) h k = refl
differ_sum (suc zero) (suc (suc y)) h k = absurd (omega arith)
differ_sum (suc (suc x)) y h k = absurd (omega arith)

-- One equation for the lowest digit, with no fuel.
step : (a b : ℕ) → bit_xor a b ≡ bit_xor (a / 2) (b / 2) * 2 + (a % 2 + b % 2) % 2
step zero b = simp bit_xor-bitwise (omega arith)
step (suc a) b = simp bit_xor-bitwise (
    omega (
      arith,
      more_fuel (suc a / 2) (b / 2) a (suc a / 2) (omega arith) (le_refl _),
      differ_sum (suc a % 2) (b % 2) (omega arith) (omega arith),
    ))

half : (a b : ℕ) → bit_xor a b / 2 ≡ bit_xor (a / 2) (b / 2)
half a b = omega (arith, step a b)

low : (a b : ℕ) → bit_xor a b % 2 ≡ (a % 2 + b % 2) % 2
low a b = omega (arith, step a b)

self_fuel : (n a : ℕ) → a ≤ n → bit_xor a a ≡ 0
self_fuel zero zero h = refl
self_fuel zero (suc a) h = absurd (omega arith)
self_fuel (suc n) a h = omega (arith, step a a, self_fuel n (a / 2) (omega arith))

comm_fuel : (n a b : ℕ) → a ≤ n → b ≤ n → bit_xor a b ≡ bit_xor b a
comm_fuel zero zero zero h k = refl
comm_fuel zero zero (suc b) h k = absurd (omega arith)
comm_fuel zero (suc a) b h k = absurd (omega arith)
comm_fuel (suc n) a b h k =
    omega (arith, step a b, step b a, comm_fuel n (a / 2) (b / 2) (omega arith) (omega arith))

assoc_fuel :
    (n a b c : ℕ) → a ≤ n → b ≤ n → c ≤ n → bit_xor (bit_xor a b) c ≡ bit_xor a (bit_xor b c)
assoc_fuel zero zero zero zero h k l = refl
assoc_fuel zero zero zero (suc c) h k l = absurd (omega arith)
assoc_fuel zero zero (suc b) c h k l = absurd (omega arith)
assoc_fuel zero (suc a) b c h k l = absurd (omega arith)
assoc_fuel (suc n) a b c h k l = omega (
  arith,
  step (bit_xor a b) c,
  step a (bit_xor b c),
  ap (λ t. bit_xor t (c / 2)) (half a b),
  ap (λ t. bit_xor (a / 2) t) (half b c),
  low a b,
  low b c,
  assoc_fuel n (a / 2) (b / 2) (c / 2) (omega arith) (omega arith) (omega arith),
)

pub bit_xor_self : (a : ℕ) → bit_xor a a ≡ 0
bit_xor_self a = self_fuel a a (le_refl a)

pub bit_xor_comm : (a b : ℕ) → bit_xor a b ≡ bit_xor b a
bit_xor_comm a b = comm_fuel (a + b) a b (omega arith) (omega arith)

pub bit_xor_assoc : (a b c : ℕ) → bit_xor (bit_xor a b) c ≡ bit_xor a (bit_xor b c)
bit_xor_assoc a b c = assoc_fuel (a + b + c) a b c (omega arith) (omega arith) (omega arith)

pub bit_xor-zero : (a : ℕ) → bit_xor a 0 ≡ a
bit_xor-zero a = bit_xor_comm a 0 ∙ zero_left a
  where
    zero_left : (b : ℕ) → bit_xor 0 b ≡ b
    zero_left b = simp bit_xor-bitwise refl

-- A value that is met twice goes away.
pub bit_xor_cancel : (a b : ℕ) → bit_xor (bit_xor a b) a ≡ b
bit_xor_cancel a b =
    rw (bit_xor_comm (bit_xor a b) a, ← bit_xor_assoc a a b, bit_xor_self a, bit_xor_comm 0 b)
      (bit_xor-zero b)
