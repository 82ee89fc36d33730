-- ===== src/Util/Crypt/Laws.antt =====
-- What is encrypted is decrypted.
use lrzip_next.Common.{
  ℕ, zero, suc, ◌+◌, ◌*◌, ◌/◌, ◌%◌, ◌^◌, ◌≤◌, ◌<◌, ◌≡◌, refl, ap, ap₂, ◌∙◌, arith,
}
use lrzip_next.Common.{true, false, List, [], ◌∷◌, ◌++◌, length, take, drop, All, some}
use lrzip_next.Common.{length-take, length-drop, take-append-drop, take-all, drop-drop}
use lrzip_next.Common.Results.{ok, ◌>>=◌}
use lrzip_next.Bytes.{IsByte, le_bytes, of_le, le_bytes-IsByte, of_le-le_bytes}
use lrzip_next.Util.Crypt.{
  Gcrypt, Secrets, lrz_keygen, lrz_crypt, Header, header_bytes, header_of, decrypt_header,
}

-- What gcrypt promises of AES: 16 bytes and more are encrypted to as many bytes, from which they come
-- back under the same key and initial vector.
abbrev pub IsCipher : Gcrypt → Type 0
IsCipher g =
    (key iv buf : List ℕ)
    → 16 ≤ length buf
    → All IsByte buf
    → (bs : List ℕ) × (g.cipher_encrypt key iv buf ≡ some bs)
      × (length bs ≡ length buf)
      × All IsByte bs
      × (g.cipher_decrypt key iv bs ≡ some buf)

le_bytes-of_le : (bs : List ℕ) → All IsByte bs → le_bytes (length bs) (of_le bs) ≡ bs
unfolding le_bytes of_le
le_bytes-of_le [] h = refl
le_bytes-of_le (b ∷ bs) h =
    ap₂ (λ x xs. x ∷ xs) (let z : (b + 256 * of_le bs) % 256 ≡ b = omega (arith, h.0) in z)
      (ap (le_bytes (length bs))
          (let z : (b + 256 * of_le bs) / 256 ≡ of_le bs = omega (arith, h.0) in z)
        ∙ le_bytes-of_le bs h.1)

pub All-append : (xs ys : List ℕ) → All IsByte xs → All IsByte ys → All IsByte (xs ++ ys)
All-append [] ys h k = k
All-append (x ∷ xs) ys h k = (h.0, All-append xs ys h.1 k)

pub All-take : (n : ℕ) (bs : List ℕ) → All IsByte bs → All IsByte (take n bs)
All-take zero bs h = tt
All-take (suc n) [] h = tt
All-take (suc n) (b ∷ bs) h = (h.0, All-take n bs h.1)

All-drop : (n : ℕ) (bs : List ℕ) → All IsByte bs → All IsByte (drop n bs)
All-drop zero bs h = h
All-drop (suc n) [] h = tt
All-drop (suc n) (b ∷ bs) h = All-drop n bs h.1

field :
    (n : ℕ) (bs : List ℕ)
    → All IsByte bs
    → n ≤ length bs
    → le_bytes n (of_le (take n bs)) ≡ take n bs
field n bs h le =
    ap (λ k. le_bytes k (of_le (take n bs)))
      (let z : n ≡ length (take n bs) = omega (arith, length-take n bs, le) in z)
    ∙ le_bytes-of_le (take n bs) (All-take n bs h)

module _ (g : Gcrypt) (c : Secrets) (cipher : IsCipher g) where
  -- A buffer of 16 bytes at least is encrypted to as many bytes, which are decrypted to it with the same
  -- salt.
  pub lrz_crypt-decrypts :
      (buf salt : List ℕ)
      → 16 ≤ length buf
      → All IsByte buf
      → (bs : List ℕ) × (lrz_crypt g c buf salt true ≡ ok bs)
        × (length bs ≡ length buf)
        × All IsByte bs
        × (lrz_crypt g c bs salt false ≡ ok buf)
  unfolding lrz_crypt
  lrz_crypt-decrypts buf salt le bytes =
      let (key, iv) = lrz_keygen g c salt in
      let (bs, enc, n, all, dec) = cipher key iv buf le bytes in
      (bs, rw (enc, lrz_crypt) refl, n, all, rw (dec, lrz_crypt) refl)

-- A buffer of 25 bytes is the memory of its header.
pub header_bytes-header_of :
    (bs : List ℕ) → length bs ≡ 25 → All IsByte bs → header_bytes (header_of bs) ≡ bs
header_bytes-header_of bs n h =
    ap₂ (λ xs ys. xs ++ ys) (field 1 bs h (omega (arith, n)))
      (ap₂ (λ xs ys. xs ++ ys) (part 1 (omega arith))
          (ap₂ (λ xs ys. xs ++ ys) (part 9 (omega arith))
              (part 17 (omega arith)
                ∙ take-all 8 (drop 17 bs) (omega (arith, length-drop 17 bs, n)))
            ∙ joined 9)
        ∙ joined 1)
    ∙ take-append-drop 1 bs
  where
    part : (a : ℕ) → a ≤ 17 → le_bytes 8 (of_le (take 8 (drop a bs))) ≡ take 8 (drop a bs)
    part a le = field 8 (drop a bs) (All-drop a bs h) (omega (arith, length-drop a bs, n, le))

    joined : (a : ℕ) → take 8 (drop a bs) ++ drop (a + 8) bs ≡ drop a bs
    joined a = ap (λ r. take 8 (drop a bs) ++ r) (drop-drop a 8 bs) ∙ take-append-drop 8 (drop a bs)

-- The numbers that the fields of a header have.
pub record IsHeader (h : Header) : Type 0 where
  pub c_type : h.c_type < 256
  pub c_len : h.c_len < 2 ^ 64
  pub u_len : h.u_len < 2 ^ 64
  pub next_head : h.next_head < 2 ^ 64

header_bytes-IsByte : (h : Header) → All IsByte (header_bytes h)
header_bytes-IsByte h =
    All-append (le_bytes 1 h.c_type)
      (le_bytes 8 h.c_len ++ (le_bytes 8 h.u_len ++ le_bytes 8 h.next_head))
      (le_bytes-IsByte 1 h.c_type)
      (All-append (le_bytes 8 h.c_len) (le_bytes 8 h.u_len ++ le_bytes 8 h.next_head)
        (le_bytes-IsByte 8 h.c_len)
        (All-append (le_bytes 8 h.u_len) (le_bytes 8 h.next_head) (le_bytes-IsByte 8 h.u_len)
          (le_bytes-IsByte 8 h.next_head)))

pub header_of-header_bytes : (h : Header) → IsHeader h → header_of (header_bytes h) ≡ h
unfolding le_bytes
header_of-header_bytes h v i = record {
  c_type = of_le-le_bytes 1 h.c_type v.c_type i;
  c_len = of_le-le_bytes 8 h.c_len v.c_len i;
  u_len = of_le-le_bytes 8 h.u_len v.u_len i;
  next_head = of_le-le_bytes 8 h.next_head v.next_head i;
}

module _ (g : Gcrypt) (c : Secrets) (cipher : IsCipher g) where
  -- The bytes of a header encrypted, and read as the fields of a header: these are decrypted to the
  -- fields that there were.
  pub decrypt_header-encrypted :
      (h : Header) (salt : List ℕ)
      → IsHeader h
      → (bs : List ℕ) × (lrz_crypt g c (header_bytes h) salt true ≡ ok bs)
        × (length bs ≡ 25)
        × (decrypt_header g c salt (header_of bs) ≡ ok h)
  unfolding decrypt_header le_bytes
  decrypt_header-encrypted h salt v =
      let (bs, enc, n, all, dec) =
        lrz_crypt-decrypts g c cipher (header_bytes h) salt (omega arith) (header_bytes-IsByte h) in
      (
        bs,
        enc,
        n,
        ap (λ buf. lrz_crypt g c buf salt false >>= λ b. ok (header_of b))
              (header_bytes-header_of bs n all)
            ∙ rw (dec, ◌>>=◌) (ap ok (header_of-header_bytes h v)),
      )
