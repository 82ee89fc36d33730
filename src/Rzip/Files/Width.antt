-- ===== src/Rzip/Files/Width.antt =====
-- The byte width that src/rzip.c chooses for a chunk.
use native.Mathlib.Nat.{pow-suc, one-le-pow, pow-le-pow_right, lt-div-mul-add, div-mul-le_self}
use lrzip_next.Common.{
  ℕ, zero, suc, ◌+◌, ◌-◌, ◌*◌, ◌/◌, ◌%◌, ◌^◌, ◌≤◌, ◌<◌, ◌≡◌, ◌⊎◌, refl, sym, ap, ◌∙◌, arith, subst,
}
use lrzip_next.Common.{ltb, ◌==◌, if◌then◌else◌, Bool-cases, inl, inr}
use lrzip_next.Rzip.Files.{width_bits, byte_width}

two_pow-add8 : (k : ℕ) → 2 ^ (suc (suc (suc (suc (suc (suc (suc (suc k)))))))) ≡ 256 * 2 ^ k
two_pow-add8 k = omega (
  arith,
  pow-suc 2 (suc (suc (suc (suc (suc (suc (suc k))))))),
  pow-suc 2 (suc (suc (suc (suc (suc (suc k)))))),
  pow-suc 2 (suc (suc (suc (suc (suc k))))),
  pow-suc 2 (suc (suc (suc (suc k)))),
  pow-suc 2 (suc (suc (suc k))),
  pow-suc 2 (suc (suc k)),
  pow-suc 2 (suc k),
  pow-suc 2 k,
)

pub bytes-bits : (w : ℕ) → 256 ^ w ≡ 2 ^ (8 * w)
bytes-bits zero = refl
bytes-bits (suc w) =
    pow-suc 256 w
    ∙ ap (λ m. m * 256) (bytes-bits w)
    ∙ (let z : 2 ^ (8 * w) * 256 ≡ 256 * 2 ^ (8 * w) = omega arith in z)
    ∙ sym (two_pow-add8 (8 * w))
    ∙ ap (λ k. 2 ^ k)
        (let z : (suc (suc (suc (suc (suc (suc (suc (suc (8 * w))))))))) ≡ 8 * suc w =
            omega arith in
          z)

-- No bits are left above the result, and above one less there are some, unless it is the first.
record Fits (start bits size : ℕ) : Type 0 where
  from : start ≤ bits
  above : size < 2 ^ bits
  least : (bits ≡ start) ⊎ (2 ^ (bits - 1) ≤ size)

shifted_out : (size m : ℕ) → 0 < m → size / m ≡ 0 → size < m
shifted_out size m lo e = omega (arith, lt-div-mul-add {a = size} {b = m} lo, ap (λ q. q * m) e)

shifted_in : (size m : ℕ) → 0 < size / m → m ≤ size
shifted_in size m lo = at_least (size / m) lo (div-mul-le_self size m)
  where
    at_least : (q : ℕ) → 0 < q → q * m ≤ size → m ≤ size
    at_least zero h le = absurd (omega (arith, h))
    at_least (suc q) h le = omega (arith, le)

width_bits-Fits :
    (fuel bits start size : ℕ)
    → start ≤ bits
    → size < 2 ^ (bits + fuel)
    → (bits ≡ start) ⊎ (2 ^ (bits - 1) ≤ size)
    → Fits start (width_bits fuel bits size) size
unfolding width_bits
width_bits-Fits zero bits start size le lt h = record {
  from = le;
  above = subst (λ k. size < 2 ^ k) (let z : bits + 0 ≡ bits = omega arith in z) lt;
  least = h;
}
width_bits-Fits (suc fuel) bits start size le lt h = elim (Bool-cases (ltb 0 (size / 2 ^ bits))) [
  | inr done ↦
      rw (done, width_bits)
        (record {
          from = le;
          above =
              shifted_out size (2 ^ bits) (one-le-pow bits 2 (omega arith)) (ground (arith, done));
          least = h;
        })
  | inl more ↦
      rw (more, width_bits)
        (width_bits-Fits fuel (bits + 1) start size (omega (arith, le))
          (subst (λ k. size < 2 ^ k) (let z : bits + suc fuel ≡ bits + 1 + fuel = omega arith in z)
            lt)
          (inr (
            subst (λ k. 2 ^ k ≤ size) (let z : bits ≡ bits + 1 - 1 = omega arith in z)
              (shifted_in size (2 ^ bits) (ground (arith, more))))))
]

-- `bits / 8`, and one more for the remains.
abbrev bytes_of : ℕ → ℕ
bytes_of bits = if bits % 8 == 0 then bits / 8 else bits / 8 + 1

bytes_of-bounds :
    (bits : ℕ) → 1 ≤ bits → (bits ≤ 8 * bytes_of bits) × (8 * (bytes_of bits - 1) ≤ bits - 1)
bytes_of-bounds bits lo = (ground arith, ground arith)

bytes_of-Fits :
    (size bits : ℕ)
    → Fits 8 bits size
    → (size < 256 ^ bytes_of bits)
      × (1 ≤ bytes_of bits)
      × ((bytes_of bits ≡ 1) ⊎ (256 ^ (bytes_of bits - 1) ≤ size))
bytes_of-Fits size bits f = (
  omega (
    arith,
    f.above,
    bytes-bits w,
    pow-le-pow_right {n = 2} (omega arith) {i = bits} {j = 8 * w} bounds.0,
  ),
  omega (arith, f.from, bounds.0),
  elim f.least [
    | inl first ↦ inl (ap bytes_of first)
    | inr more ↦ inr (
        omega (
          arith,
          more,
          bytes-bits (w - 1),
          pow-le-pow_right {n = 2} (omega arith) {i = 8 * (w - 1)} {j = bits - 1} bounds.1,
        ))
  ],
)
  where
    w : ℕ
    w = bytes_of bits

    bounds : (bits ≤ 8 * bytes_of bits) × (8 * (bytes_of bits - 1) ≤ bits - 1)
    bounds = bytes_of-bounds bits (omega (arith, f.from))

-- A chunk of less than 2 ^ 64 bytes: its size fits in its byte width, and in none that is smaller.
pub byte_width-fits :
    (size : ℕ)
    → size < 2 ^ 64
    → (size < 256 ^ byte_width size)
      × (1 ≤ byte_width size)
      × ((byte_width size ≡ 1) ⊎ (256 ^ (byte_width size - 1) ≤ size))
unfolding byte_width
byte_width-fits size lt =
    bytes_of-Fits size (width_bits 56 8 size)
      (width_bits-Fits 56 8 8 size (omega arith) (omega (arith, lt)) (inl refl))

-- So the width is one that `runzip_chunk` accepts.
pub byte_width-le : (size : ℕ) → size < 2 ^ 64 → byte_width size ≤ 8
byte_width-le size lt = elim (byte_width-fits size lt).2 [
  | inl e ↦ omega (arith, e)
  | inr le ↦ elim (Bool-cases (ltb 8 (byte_width size))) [
    | inr no_more ↦ ground (arith, no_more)
    | inl more ↦ absurd (
        omega (
          arith,
          lt,
          le,
          pow-le-pow_right {n = 256} (omega arith) {i = 8} {j = byte_width size - 1}
              (ground (arith, more)),
        ))
  ]
]
