-- ===== src/Common/Results.antt =====
-- Failures as values.
use mathlib.Core.Bool.{Bool}
use lrzip_next.Common.Tests.{if◌then◌else◌}

-- `fatal` exits the program; `failed` is the return value -1. Two are no values of the code:
-- `no_end`, a loop ran out of fuel, and `unmodelled`, it goes on in a way that the model leaves out.
pub data Error : Type 0 where
  fatal failed no_end unmodelled : Error

pub data Result {ℓ} (A : Type ℓ) : Type ℓ where
  ok : A → Result A
  err : Error → Result A

abbrev pub guard : Bool → Error → Result (Unit {0})
guard b e = if b then ok tt else err e

infixl 5 ◌>>=◌ ◌>>◌
abbrev pub ◌>>=◌ {ℓ κ} : {A : Type ℓ} {B : Type κ} → Result A → (A → Result B) → Result B
err e >>= next = err e
ok a >>= next = next a

abbrev pub ◌>>◌ {ℓ} : {B : Type ℓ} → Result (Unit {0}) → Result B → Result B
m >> next = m >>= λ _. next
