-- ===== src/Stream/Disk/Encrypted/Headers.antt =====
-- The header that `rewrite_encrypted` of src/stream.c leaves is decrypted to the one that stood there.
use lrzip_next.Common.{
  ℕ, zero, suc, ◌+◌, ◌-◌, ◌≤◌, ◌≡◌, max, refl, sym, ap, ◌∙◌, arith, inl, inr, subst,
}
use lrzip_next.Common.{true, false, List, ◌∷◌, length, take, drop, All}
use lrzip_next.Common.{length-append, length-take, length-drop, take-append_length}
use lrzip_next.Common.Results.{Result, ok, ◌>>=◌}
use lrzip_next.Bytes.{IsByte, of_le, le_bytes}
use lrzip_next.Rzip.Slice.{slice}
use lrzip_next.Stream.Disk.{File, seek, put, get, get_val}
use lrzip_next.Stream.Disk.Cells.{Cell, IsAt, Apart, patch-IsAt, patch-Apart}
use lrzip_next.Stream.Disk.Blocks.{at, get-IsAt}
use lrzip_next.Stream.Disk.Encrypted.{
  rewrite_encrypted, padded, get_encrypted_header, get_encrypted_block,
}
use lrzip_next.Util.Crypt.{
  Gcrypt, Secrets, lrz_crypt, Header, header_bytes, header_of, decrypt_header,
}
use lrzip_next.Util.Crypt.Laws.{
  IsCipher, IsHeader, lrz_crypt-decrypts, All-append, All-take, decrypt_header-encrypted,
}

abbrev cell : ℕ → List ℕ → Cell
cell a bs = record { addr = a; bytes = bs }

drop-slice : (f : ℕ → ℕ) (a n k : ℕ) → drop k (slice f a n) ≡ slice f (a + k) (n - k)
drop-slice f a n zero =
    ap (λ b. slice f b n) (let z : a ≡ a + 0 = omega arith in z)
    ∙ ap (slice f (a + 0)) (let z : n ≡ n - 0 = omega arith in z)
drop-slice f a zero (suc k) = ap (slice f (a + suc k)) (let z : 0 ≡ 0 - suc k = omega arith in z)
drop-slice f a (suc n) (suc k) =
    drop-slice f (a + 1) n k
    ∙ ap (λ b. slice f b (n - k)) (let z : a + 1 + k ≡ a + suc k = omega arith in z)
    ∙ ap (slice f (a + suc k)) (let z : n - k ≡ suc n - suc k = omega arith in z)

take-slice : (f : ℕ → ℕ) (a n k : ℕ) → k ≤ n → take k (slice f a n) ≡ slice f a k
take-slice f a n zero le = refl
take-slice f a zero (suc k) le = absurd (omega (arith, le))
take-slice f a (suc n) (suc k) le = ap (λ r. f a ∷ r) (take-slice f (a + 1) n k (omega (arith, le)))

-- A part of a cell.
pub part-IsAt :
    (f : ℕ → ℕ) (a : ℕ) (bs : List ℕ) (k n : ℕ)
    → IsAt f (cell a bs)
    → k + n ≤ length bs
    → IsAt f (cell (a + k) (take n (drop k bs)))
part-IsAt f a bs k n h le =
    ap (slice f (a + k)) (omega (arith, length-take n (drop k bs), length-drop k bs, le))
    ∙ sym (take-slice f (a + k) (length bs - k) n (omega (arith, le)))
    ∙ ap (take n) (sym (drop-slice f a (length bs) k))
    ∙ ap (λ xs. take n (drop k xs)) h

-- A field that is a part of a cell.
get_val-part :
    (f : File) (a : ℕ) (bs : List ℕ) (k n : ℕ)
    → IsAt f.byte (cell a bs)
    → k + n ≤ length bs
    → a + length bs ≤ f.size
    → get_val n (at (a + k) f) ≡ ok (of_le (take n (drop k bs)), at (a + (k + n)) f)
unfolding get_val
get_val-part f a bs k n h le long =
    rw
      (
        get-IsAt f (a + k) n (take n (drop k bs))
            (omega (arith, length-take n (drop k bs), length-drop k bs, le))
            (part-IsAt f.byte a bs k n h le) (omega (arith, le, long)),
        ◌>>=◌,
      )
      (ap (λ o. ok (of_le (take n (drop k bs)), at o f))
        (let z : a + k + n ≡ a + (k + n) = omega arith in z))

-- What stands at `a`: a salt, and a header encrypted with it.
pub record Sealed (g : Gcrypt) (c : Secrets) (f : File) (a : ℕ) (salt bs : List ℕ) (h : Header)
    : Type 0 where
  pub salted : length salt ≡ 8
  pub salt_at : IsAt f.byte (cell a salt)
  pub size : length bs ≡ 25
  pub header_at : IsAt f.byte (cell (a + 8) bs)
  pub opens : decrypt_header g c salt (header_of bs) ≡ ok h
  pub long : a + 33 ≤ f.size

module _ (g : Gcrypt) (c : Secrets) where
  pub get_encrypted_header-Sealed :
      (f : File) (initial_pos here : ℕ) (salt bs : List ℕ) (h : Header)
      → Sealed g c f (here + initial_pos) salt bs h
      → get_encrypted_header g c initial_pos here f ≡ ok (h, at (here + initial_pos + 33) f)
  unfolding get_encrypted_header
  get_encrypted_header-Sealed f initial_pos here salt bs h s =
      let a = here + initial_pos in
      let part = λ (k n : ℕ) (le : k + n ≤ 25).
        get_val-part f (a + 8) bs k n s.header_at (omega (arith, le, s.size))
          (omega (arith, s.size, s.long)) in
      let at_header : a + 8 ≡ a + 8 + 0 = omega arith in
      rw (get-IsAt f a 8 salt s.salted s.salt_at (omega (arith, s.long)), ◌>>=◌)
        (rw (ap (λ o. get_val 1 (at o f)) at_header ∙ part 0 1 (omega arith), ◌>>=◌)
          (rw (part 1 8 (omega arith), ◌>>=◌)
            (rw (part 9 8 (omega arith), ◌>>=◌)
              (rw (part 17 8 (omega arith), ◌>>=◌)
                (rw (s.opens, ◌>>=◌)
                  (ap (λ o. ok (h, at o f))
                    (let z : a + 8 + (17 + 8) ≡ a + 33 = omega arith in z)))))))

  -- The file after `rewrite_encrypted`: the header is read back, and all but the header and its salt is as
  -- it was.
  pub record Rewritten (f f' : File) (nonce : List ℕ) (initial_pos ofs : ℕ) (h : Header)
      : Type 0 where
    pub run : rewrite_encrypted g c nonce initial_pos ofs f ≡ ok f'
    pub bytes : List ℕ
    pub sealed : Sealed g c f' (ofs - 8 + initial_pos) nonce bytes h
    pub reads :
        get_encrypted_header g c initial_pos (ofs - 8) f'
        ≡ ok (h, at (ofs - 8 + initial_pos + 33) f')
    pub same_ofs : f'.ofs ≡ f.ofs
    pub keeps : (k : Cell) → Apart k (ofs - 8 + initial_pos) 33 → IsAt f.byte k → IsAt f'.byte k
    pub grows : f.size ≤ f'.size

  -- A header that stands in the file behind the room for its salt, rewritten with a salt of eight bytes:
  -- it is read back as it was, and the rest of the file stays.
  pub rewrite_encrypted-reads :
      IsCipher g
      → (f : File) (nonce : List ℕ) (initial_pos ofs : ℕ) (h : Header) → IsHeader h
      → length nonce ≡ 8
      → 8 ≤ ofs
      → IsAt f.byte (cell (ofs + initial_pos) (header_bytes h))
      → ofs + initial_pos + 25 ≤ f.size
      → (f' : File) × Rewritten f f' nonce initial_pos ofs h
  unfolding rewrite_encrypted put le_bytes
  rewrite_encrypted-reads cipher f nonce initial_pos ofs h v n le there long =
      let a = ofs - 8 + initial_pos in
      let b = ofs + initial_pos in
      let (bs, enc, n25, opens) = decrypt_header-encrypted g c cipher h nonce v in
      let salted = put nonce (seek a f) in
      let behind : salted.ofs ≡ b = omega (arith, n, le) in
      let still : IsAt salted.byte (cell b (header_bytes h)) =
        patch-Apart (cell b (header_bytes h)) (cell a nonce) f.byte (inr (omega (arith, n, le)))
          there in
      let got : get 25 salted ≡ ok (header_bytes h, at (salted.ofs + 25) salted) =
        get-IsAt salted salted.ofs 25 (header_bytes h) refl
          (subst (λ o. IsAt salted.byte (cell o (header_bytes h))) (sym behind) still)
          (omega (arith, behind, long)) in
      let f' = seek f.ofs (put bs (seek b salted)) in
      let at_b : b ≡ a + 8 = omega (arith, le) in
      let sealed : Sealed g c f' a nonce bs h = record {
        salted = n;
        salt_at =
            patch-Apart (cell a nonce) (cell b bs) salted.byte (inl (omega (arith, n, le)))
              (patch-IsAt (cell a nonce) f.byte);
        size = n25;
        header_at = subst (λ o. IsAt f'.byte (cell o bs)) at_b (patch-IsAt (cell b bs) salted.byte);
        opens = opens;
        long = omega (arith, n25, le);
      } in
      (
        f',
        record {
          run = rw (got, ◌>>=◌) (rw (enc, ◌>>=◌) refl);
          bytes = bs;
          sealed = sealed;
          reads = get_encrypted_header-Sealed f' initial_pos (ofs - 8) nonce bs h sealed;
          same_ofs = refl;
          keeps = λ k apart e.
              patch-Apart k (cell b bs) salted.byte (later k bs apart n25 le)
                (patch-Apart k (cell a nonce) f.byte (sooner k apart n) e);
          grows = omega arith;
        },
      )
    where
      later :
          (k : Cell) (bs : List ℕ)
          → Apart k (ofs - 8 + initial_pos) 33
          → length bs ≡ 25
          → 8 ≤ ofs
          → Apart k (ofs + initial_pos) (length bs)
      later k bs (inl q) e le = inl (omega (arith, q, le))
      later k bs (inr q) e le = inr (omega (arith, q, e, le))

      sooner :
          (k : Cell)
          → Apart k (ofs - 8 + initial_pos) 33
          → length nonce ≡ 8
          → Apart k (ofs - 8 + initial_pos) (length nonce)
      sooner k (inl q) e = inl q
      sooner k (inr q) e = inr (omega (arith, q, e))

  -- A block of an encrypted archive: a key of 16 bytes at least, as much random data, and a salt. What
  -- stands in the file behind a header is read back and decrypted to the block without its padding.
  pub get_encrypted_block-reads :
      IsCipher g
      → (f : File) (a : ℕ) (s_buf padding salt bs : List ℕ) → 16 ≤ c.enc_keylen
      → c.enc_keylen ≤ length padding
      → All IsByte s_buf
      → All IsByte padding
      → length salt ≡ 8
      → lrz_crypt g c (padded g c padding s_buf) salt true ≡ ok bs
      → IsAt f.byte (cell a salt)
      → IsAt f.byte (cell (a + 8) bs)
      → a + 8 + length bs ≤ f.size
      → get_encrypted_block g c (length s_buf) (at a f)
        ≡ ok (s_buf, at (a + 8 + max (length s_buf) c.enc_keylen) f)
  unfolding get_encrypted_block
  get_encrypted_block-reads cipher f a s_buf padding salt bs key random bytes random_bytes n enc
        salt_at data_at long =
      let filled : length (padded g c padding s_buf) ≡ max (length s_buf) c.enc_keylen = omega (
        arith,
        length-append s_buf (take (c.enc_keylen - length s_buf) padding),
        length-take (c.enc_keylen - length s_buf) padding,
        random,
      ) in
      let (bs', enc', n', all, dec) =
        lrz_crypt-decrypts g c cipher (padded g c padding s_buf) salt (omega (arith, filled, key)) (
          All-append s_buf (take (c.enc_keylen - length s_buf) padding) bytes
            (All-take (c.enc_keylen - length s_buf) padding random_bytes)) in
      let same : bs' ≡ bs = only (sym enc' ∙ enc) in
      rw (get-IsAt f a 8 salt n salt_at (omega (arith, long)), ◌>>=◌)
        (rw
          (
            get-IsAt f (a + 8) (max (length s_buf) c.enc_keylen) bs
                (ap length (sym same) ∙ n' ∙ filled) data_at
                (omega (arith, long, ap length same, n', filled)),
            ◌>>=◌,
          )
          (rw (ap (λ xs. lrz_crypt g c xs salt false) (sym same) ∙ dec, ◌>>=◌)
            (ap (λ xs. ok (xs, at (a + 8 + max (length s_buf) c.enc_keylen) f))
              (take-append_length s_buf (take (c.enc_keylen - length s_buf) padding)))))
    where
      only : {xs ys : List ℕ} → ◌≡◌ {A = Result (List ℕ)} (ok xs) (ok ys) → xs ≡ ys
      only e = cc
