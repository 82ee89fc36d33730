-- ===== src/Util/Crypt.antt =====
-- The encryption of src/util.c: `lrz_stretch`, `lrz_keygen`, `lrz_crypt` and `decrypt_header`. gcrypt is a
-- parameter.
pub mod Laws
pub mod Cost
use lrzip_next.Common.{
  ℕ, zero, suc, ◌+◌, ◌-◌, ◌*◌, ◌/◌, ◌%◌, ◌^◌, Bool, true, false, ltb, ◌==◌, if◌then◌else◌,
}
use lrzip_next.Common.{List, [], ◌∷◌, ◌++◌, take, drop, get_or, Option, none, some}
use lrzip_next.Common.Results.{Result, ok, err, fatal, ◌>>=◌}
use lrzip_next.Bytes.{le_bytes, of_le}

pub data Shake : Type 0 where
  shake128 shake256 : Shake

-- `gcry_md_extract` of so many bytes, AES in CBC mode with cipher text stealing under a key and an
-- initial vector, and scrypt of a password and a salt at a cost. `none` is an error.
pub record Gcrypt : Type 0 where
  pub md_extract : Shake → List ℕ → ℕ → List ℕ
  pub cipher_encrypt : List ℕ → List ℕ → List ℕ → Option (List ℕ)
  pub cipher_decrypt : List ℕ → List ℕ → List ℕ → Option (List ℕ)
  pub kdf_derive : List ℕ → List ℕ → ℕ → Option (List ℕ)

-- What of `control` belongs to encryption. `costfactor` is the exponent of the magic header.
pub record Secrets : Type 0 where
  pub hash : List ℕ
  pub salt : List ℕ
  pub salt_pass : List ℕ
  pub enc_code : ℕ
  pub enc_keylen : ℕ
  pub enc_ivlen : ℕ
  pub minor_version : ℕ
  pub costfactor : ℕ

abbrev pub salt_len : ℕ
salt_len = 8

-- The key and the initial vector.
unfoldable pub lrz_keygen : Gcrypt → Secrets → List ℕ → List ℕ × List ℕ
lrz_keygen g c salt =
    let algo = if c.enc_code == 1 then shake128 else shake256 in
    let key = g.md_extract algo (c.hash ++ salt ++ c.salt_pass) c.enc_keylen in
    (key, g.md_extract algo (key ++ salt ++ c.salt_pass) c.enc_ivlen)

unfoldable pub lrz_crypt : Gcrypt → Secrets → List ℕ → List ℕ → Bool → Result (List ℕ)
unfolding lrz_keygen
lrz_crypt g c buf salt encrypt =
    let (key, iv) = lrz_keygen g c salt in
    let answer = if encrypt then g.cipher_encrypt key iv buf else g.cipher_decrypt key iv buf in
    elim answer [ none ↦ err fatal | some bs ↦ ok bs ]

-- `log2f` of an integer, rounded down, on fuel. For 0 it is not a number that has an `int`.
unfoldable pub log2_loop : ℕ → ℕ → ℕ
log2_loop zero n = 0
log2_loop (suc fuel) n = let rest = log2_loop fuel (n / 2) in if ltb n 2 then 0 else rest + 1

-- `for (i = 1; i <= 30; i++) if ( encloops < (1 << i) ) break;`, on fuel for the rounds left.
unfoldable pub cost_loop : ℕ → ℕ → ℕ → ℕ
cost_loop zero i encloops = i
cost_loop (suc left) i encloops = elim (ltb encloops (2 ^ i)) [
  | true ↦ i
  | false ↦ cost_loop left (i + 1) encloops
]

-- `exponent << control->salt[0]` before it is cut to an `int`.
abbrev pub shifted_loops : Secrets → ℕ
shifted_loops c = 2 ^ log2_loop 8 (get_or c.salt 1 0) * 2 ^ get_or c.salt 0 0

-- Archives before version 0.14 have the loops in the first two bytes of the salt. The shift is one of an
-- `int`: its 32 bits are kept, and a negative one goes into a `size_t` as it is. C leaves it open what a
-- shift that overflows gives, and what a second byte of 0 does.
abbrev pub encloops : Secrets → ℕ
encloops c =
    let low = shifted_loops c % 2 ^ 32 in if ltb low (2 ^ 31) then low else low + (2 ^ 64 - 2 ^ 32)

unfoldable pub cost_factor : Secrets → ℕ
unfolding cost_loop log2_loop
cost_factor c =
    if ltb c.minor_version 14 then 2 ^ (cost_loop 30 1 (encloops c) - 1) else 2 ^ c.costfactor

unfoldable pub lrz_stretch : Gcrypt → Secrets → Result Secrets
unfolding cost_factor
lrz_stretch g c = elim (g.kdf_derive c.salt_pass c.salt (cost_factor c)) [
  | none ↦ err fatal
  | some hash ↦ ok (record c { hash = hash })
]

-- The fields of a block header, as they stand in memory.
pub record Header : Type 0 where
  pub c_type : ℕ
  pub c_len : ℕ
  pub u_len : ℕ
  pub next_head : ℕ

-- The 25 bytes of a header behind its salt.
abbrev pub header_bytes : Header → List ℕ
header_bytes h =
    le_bytes 1 h.c_type ++ (le_bytes 8 h.c_len ++ (le_bytes 8 h.u_len ++ le_bytes 8 h.next_head))

abbrev pub header_of : List ℕ → Header
header_of buf = record {
  c_type = of_le (take 1 buf);
  c_len = of_le (take 8 (drop 1 buf));
  u_len = of_le (take 8 (drop 9 buf));
  next_head = of_le (take 8 (drop 17 buf));
}

unfoldable pub decrypt_header : Gcrypt → Secrets → List ℕ → Header → Result Header
unfolding lrz_crypt
decrypt_header g c salt h = do buf ← lrz_crypt g c (header_bytes h) salt false; ok (header_of buf)
