-- ===== src/Tests/Crypt.antt =====
-- Encryption, src/util.c and src/stream.c, at a concrete input: a block of three bytes behind an empty
-- header, with a cipher that turns every bit.
use lrzip_next.Common.{
  ℕ, zero, suc, ◌-◌, ◌*◌, ◌≤◌, ◌<◌, ◌≡◌, ◌⊎◌, ◌^◌, refl, ap, ap₂, arith, ◌==◌, if◌then◌else◌,
}
use lrzip_next.Common.{List, [], ◌∷◌, length, replicate, All, some}
use lrzip_next.Bytes.{IsByte, le_bytes}
use lrzip_next.Stream.Out.{stream1}
use lrzip_next.Stream.Disk.{File}
use lrzip_next.Stream.Disk.Write.{Packed}
use lrzip_next.Stream.Disk.Encrypted.{EncOut}
use lrzip_next.Stream.Disk.Encrypted.Headers.{Rewritten, rewrite_encrypted-reads}
use lrzip_next.Stream.Disk.Encrypted.Append.{Open, IsBlock, Appended, append_encrypted-reads}
use lrzip_next.Util.Crypt.{Gcrypt, Secrets, Header, log2_loop, encloops, cost_factor}
use lrzip_next.Util.Crypt.Laws.{IsCipher, IsHeader}
use lrzip_next.Util.Crypt.Cost.{cost_factor-bounds}

abbrev turn : List ℕ → List ℕ
turn [] = []
turn (x ∷ xs) = (255 - x) ∷ turn xs

abbrev turning : Gcrypt
turning = record {
  md_extract = λ s bs n. replicate n 7;
  cipher_encrypt = λ key iv bs. some (turn bs);
  cipher_decrypt = λ key iv bs. some (turn bs);
  kdf_derive = λ pass salt cost. some pass;
}

length-turn : (xs : List ℕ) → length (turn xs) ≡ length xs
length-turn [] = refl
length-turn (x ∷ xs) = ap suc (length-turn xs)

turn-turn : (xs : List ℕ) → All IsByte xs → turn (turn xs) ≡ xs
turn-turn [] h = refl
turn-turn (x ∷ xs) h =
    ap₂ (λ y ys. y ∷ ys) (let z : 255 - (255 - x) ≡ x = omega (arith, h.0) in z) (turn-turn xs h.1)

turn-IsByte : (xs : List ℕ) → All IsByte (turn xs)
turn-IsByte [] = tt
turn-IsByte (x ∷ xs) = (omega arith, turn-IsByte xs)

turning-IsCipher : IsCipher turning
turning-IsCipher key iv buf le bytes =
    (turn buf, refl, length-turn buf, turn-IsByte buf, ap some (turn-turn buf bytes))

abbrev secrets : Secrets
secrets = record {
  hash = replicate 64 1;
  salt = 3 ∷ 128 ∷ replicate 6 0;
  salt_pass = 112 ∷ 119 ∷ [];
  enc_code = 1;
  enc_keylen = 16;
  enc_ivlen = 16;
  minor_version = 13;
  costfactor = 20;
}

abbrev empty : Header
empty = record { c_type = 3; c_len = 0; u_len = 0; next_head = 0 }

abbrev all_types : File
all_types = record { byte = λ (i : ℕ). if i == 8 then 3 else 0; size = 33; ofs = 33 }

empty-IsHeader : IsHeader empty
empty-IsHeader = record {
  c_type = omega arith;
  c_len = omega arith;
  u_len = omega arith;
  next_head = omega arith;
}

rewrite_encrypted-reads_example :
    (f' : File) × Rewritten turning secrets all_types f' (replicate 8 9) 0 8 empty
unfolding le_bytes
rewrite_encrypted-reads_example =
    rewrite_encrypted-reads turning secrets turning-IsCipher all_types (replicate 8 9) 0 8 empty
      empty-IsHeader refl (omega arith) refl (omega arith)

abbrev chain : EncOut turning secrets
chain = record {
  ctis = record {
    chunk_bytes = 1;
    chunks = 1;
    size = 0;
    initial_pos = 0;
    cur_pos = 33;
    last_head0 = 0;
    last_head1 = 25;
    file = all_types;
  };
  headofs0 = 0;
  headofs1 = 8;
}

abbrev three_bytes : Packed
three_bytes = record { c_type = 3; s_len = 3; s_buf = 1 ∷ 2 ∷ 3 ∷ [] }

chain-Open :
    Open turning secrets stream1 three_bytes
      (replicate 8 9)
      (replicate 16 5)
      (replicate 8 4)
      chain
      empty
unfolding le_bytes
chain-Open = record {
  header = empty-IsHeader;
  there = refl;
  behind = omega arith;
  within = omega arith;
  small = omega arith;
}

three_bytes-IsBlock :
    IsBlock turning secrets stream1 three_bytes
      (replicate 8 9)
      (replicate 16 5)
      (replicate 8 4)
      chain
      empty
three_bytes-IsBlock = record {
  key = omega arith;
  nonce = refl;
  random = omega arith;
  salted = refl;
  typed = omega arith;
  bytes = (omega arith, (omega arith, (omega arith, tt)));
  random_bytes = many 16;
  c_len = omega arith;
  s_len = omega arith;
}
  where
    many : (n : ℕ) → All IsByte (replicate n 5)
    many zero = tt
    many (suc n) = (omega arith, many n)

append_encrypted-reads_example :
    (e' : EncOut turning secrets) × (f' : File) × Appended turning secrets stream1 three_bytes
      (replicate 8 9)
      (replicate 16 5)
      (replicate 8 4)
      chain
      empty
      e'
      f'
append_encrypted-reads_example =
    append_encrypted-reads turning secrets stream1 three_bytes (replicate 8 9) (replicate 16 5)
      (replicate 8 4) chain empty turning-IsCipher chain-Open three_bytes-IsBlock

cost_factor-bounds_example :
    (cost_factor secrets ≤ encloops secrets)
    × ((encloops secrets < 2 * cost_factor secrets) ⊎ (cost_factor secrets ≡ 2 ^ 30))
    × (encloops secrets ≤ 128 * 2 ^ 3)
unfolding log2_loop
cost_factor-bounds_example = cost_factor-bounds secrets (omega arith) (omega arith) (omega arith)
