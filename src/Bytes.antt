-- ===== src/Bytes.antt =====
-- Little-endian fields: the byte image that `put_vchars` and `write_val` store of an integer, and
-- the integer that `read_vchars` and `read_val` make of it.
-- src/rzip.c, src/runzip.c and src/stream.c.
use lrzip_next.Common.{ℕ, zero, suc, ◌+◌, ◌*◌, ◌/◌, ◌%◌, ◌^◌, ◌<◌, ◌≡◌, refl, ap, arith}
use lrzip_next.Common.{List, [], ◌∷◌, length, All}
use native.Mathlib.Nat.{pow-suc}

abbrev pub IsByte : ℕ → Type 0
IsByte b = b < 256

-- The first `n` bytes in memory of `htole64(s)`.
unfoldable pub le_bytes : ℕ → ℕ → List ℕ
le_bytes zero s = []
le_bytes (suc n) s = (s % 256) ∷ le_bytes n (s / 256)

-- `le64toh` of a zeroed integer over which the bytes were read.
unfoldable pub of_le : List ℕ → ℕ
of_le [] = 0
of_le (b ∷ bs) = b + 256 * of_le bs

pub length-le_bytes : (n s : ℕ) → length (le_bytes n s) ≡ n
unfolding le_bytes
length-le_bytes zero s = refl
length-le_bytes (suc n) s = ap suc (length-le_bytes n (s / 256))

pub le_bytes-IsByte : (n s : ℕ) → All IsByte (le_bytes n s)
unfolding le_bytes
le_bytes-IsByte zero s = tt
le_bytes-IsByte (suc n) s = (omega arith, le_bytes-IsByte n (s / 256))

pub of_le-le_bytes : (n s : ℕ) → s < 256 ^ n → of_le (le_bytes n s) ≡ s
unfolding of_le le_bytes
of_le-le_bytes zero s h = omega arith
of_le-le_bytes (suc n) s h =
    omega (arith, pow-suc 256 n, of_le-le_bytes n (s / 256) (omega (arith, pow-suc 256 n)))
