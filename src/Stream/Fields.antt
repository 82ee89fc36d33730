-- ===== src/Stream/Fields.antt =====
-- The fields of a block header: `write_buf`, `write_u8`, `write_val`, `read_buf`, `read_u8`, `read_u32`
-- and `read_val` of src/stream.c, with the `le64toh` of the callers.
use lrzip_next.Common.{ℕ, ◌^◌, ◌<◌, ◌≡◌, refl, sym, ap, ◌∙◌, arith, true, ◌==◌}
use lrzip_next.Common.{List, [], ◌∷◌, ◌++◌, length, take, drop, if◌then◌else◌, Option, none, some}
use lrzip_next.Common.{take-append_length, drop-append_length}
use lrzip_next.Bytes.{le_bytes, of_le, length-le_bytes, of_le-le_bytes}

-- `wrote` is what `write_1g` returns, with `none` for -1. A write that is short is an error, too.
unfoldable pub write_buf : (List ℕ → Option ℕ) → List ℕ → List ℕ → Option (List ℕ)
write_buf wrote file p = elim (wrote p) [
  | none ↦ none
  | some n ↦ if n == length p then some (file ++ p) else none
]

unfoldable pub write_u8 : (List ℕ → Option ℕ) → List ℕ → ℕ → Option (List ℕ)
unfolding write_buf
write_u8 wrote file v = write_buf wrote file (v ∷ [])

unfoldable pub write_val : (List ℕ → Option ℕ) → List ℕ → ℕ → ℕ → Option (List ℕ)
unfolding write_buf
write_val wrote file v len = write_buf wrote file (le_bytes len v)

-- What is left of the file is read; a read that is short is an error.
unfoldable pub read_buf : List ℕ → ℕ → Option (List ℕ × List ℕ)
read_buf file len =
    if length (take len file) == len then some (take len file, drop len file) else none

abbrev as_number : Option (List ℕ × List ℕ) → Option (ℕ × List ℕ)
as_number none = none
as_number (some (bs, rest)) = some (of_le bs, rest)

unfoldable pub read_u8 : List ℕ → Option (ℕ × List ℕ)
unfolding read_buf
read_u8 file = as_number (read_buf file 1)

unfoldable pub read_u32 : List ℕ → Option (ℕ × List ℕ)
unfolding read_buf
read_u32 file = as_number (read_buf file 4)

unfoldable pub read_val : List ℕ → ℕ → Option (ℕ × List ℕ)
unfolding read_buf
read_val file len = as_number (read_buf file len)

read_buf-front :
    (xs rest : List ℕ) (len : ℕ) → length xs ≡ len → read_buf (xs ++ rest) len ≡ some (xs, rest)
unfolding read_buf
read_buf-front xs rest len e =
    let t : take len (xs ++ rest) ≡ xs =
      ap (λ n. take n (xs ++ rest)) (sym e) ∙ take-append_length xs rest in
    let d : drop len (xs ++ rest) ≡ rest =
      ap (λ n. drop n (xs ++ rest)) (sym e) ∙ drop-append_length xs rest in
    let z : (length xs == len) ≡ true = ground arith in rw (t, d, z) refl

write_buf-all :
    (wrote : List ℕ → Option ℕ) (file p : List ℕ)
    → wrote p ≡ some (length p)
    → write_buf wrote file p ≡ some (file ++ p)
unfolding write_buf
write_buf-all wrote file p h =
    let z : (length p == length p) ≡ true = ground arith in rw (h, write_buf) (rw z refl)

-- Where `write_1g` writes all that it is given and `len` bytes can hold the value, `write_val` appends
-- bytes from which `read_val` reads the value back, with the rest of the file behind it.
pub read_val-write_val :
    (wrote : List ℕ → Option ℕ) (file rest : List ℕ) (v len : ℕ)
    → ((p : List ℕ) → wrote p ≡ some (length p))
    → v < 256 ^ len
    → (bs : List ℕ) × (write_val wrote file v len ≡ some (file ++ bs))
      × (read_val (bs ++ rest) len ≡ some (v, rest))
unfolding write_val read_val
read_val-write_val wrote file rest v len h lt =
    let bs = le_bytes len v in
    (
      bs,
      write_buf-all wrote file bs (h bs),
      ap as_number (read_buf-front bs rest len (length-le_bytes len v))
          ∙ ap (λ n. some (n, rest)) (of_le-le_bytes len v lt),
    )
