-- ===== src/Runzip.antt =====
-- src/runzip.c: the reading of one chunk's tokens. The output is the list of the bytes that were
-- written to `fd_out`, which `fd_hist` reads back; `fd_out` stands at its end.
pub mod Copy
pub mod Reads
pub mod Rounds
pub mod Laws
pub mod Chunk
pub mod Files
pub use lrzip_next.Common.Results.{
  Error, fatal, failed, no_end, Result, ok, err, guard, ◌>>=◌, ◌>>◌,
}
use lrzip_next.Common.{ℕ, zero, suc, ◌+◌, ◌-◌, ◌^◌, min, Bool, true, false, ◌&&◌, not, ltb, ◌==◌}
use lrzip_next.Common.{
  List, [], ◌∷◌, ◌++◌, length, take, drop, flatten, if◌then◌else◌, Option, none, some,
}
use lrzip_next.Bytes.{of_le}
use lrzip_next.Stream.In.{Chan, read_stream}

-- The two streams, the output, and the bytes given to `crc_handle` and `hash_handle`.
pub record Runzip : Type 0 where
  pub s0 : Chan
  pub s1 : Chan
  pub out : List ℕ
  pub summed : List ℕ
  pub hashed : List ℕ

-- A read from stream 0 that is short, or fails, is fatal.
unfoldable pub read_exact : Runzip → ℕ → Result (List ℕ × Runzip)
read_exact r len = elim (read_stream r.s0 len) [
  | none ↦ err fatal
  | some (bs, s0') ↦ if length bs == len then ok (bs, record r { s0 = s0' }) else err fatal
]

unfoldable pub read_u8 : Runzip → Result (ℕ × Runzip)
unfolding read_exact
read_u8 r = do (bs, r') ← read_exact r 1; ok (of_le bs, r')

unfoldable pub read_u32 : Runzip → Result (ℕ × Runzip)
unfolding read_exact
read_u32 r = do (bs, r') ← read_exact r 4; ok (of_le bs, r')

-- The result is the bit pattern of an `i64`.
unfoldable pub read_vchars : Runzip → ℕ → Result (ℕ × Runzip)
unfolding read_exact
read_vchars r len = do (bs, r') ← read_exact r len; ok (of_le bs, r')

-- `control->chunk_bytes` is 2 here, for a length. The result is `*head` and the length.
unfoldable pub read_header : Runzip → Result (ℕ × ℕ × Runzip)
unfolding read_u8 read_vchars
read_header r = do (head, r') ← read_u8 r; (len, r'') ← read_vchars r' 2; ok (head, len, r'')

-- `write_1g` and `gcry_md_write`: the hash is fed where there is one, and the CRC where there is none.
unfoldable pub write_out : Bool → Runzip → List ℕ → Runzip
write_out has_hash r bs = record r {
  out = r.out ++ bs;
  summed = if has_hash then r.summed else r.summed ++ bs;
  hashed = if has_hash then r.hashed ++ bs else r.hashed;
}

-- The length has two bytes, so it is not negative. What a short read of stream 1 returns is written
-- and counted.
unfoldable pub unzip_literal : Bool → Runzip → ℕ → Result (ℕ × Runzip)
unfolding write_out
unzip_literal has_hash r len = elim (read_stream r.s1 len) [
  | none ↦ err fatal
  | some (bs, s1') ↦ ok (length bs, write_out has_hash (record r { s1 = s1' }) bs)
]

-- `while (len)`, on fuel: the same bytes are written again and again.
unfoldable pub repeat_loop : ℕ → Bool → Runzip → List ℕ → ℕ → ℕ → Runzip
unfolding write_out
repeat_loop zero has_hash r buf offset len = r
repeat_loop (suc fuel) has_hash r buf offset zero = r
repeat_loop (suc fuel) has_hash r buf offset (suc len) =
    let n = min (suc len) offset in
    repeat_loop fuel has_hash (write_out has_hash r (take n buf)) buf offset (suc len - n)

-- -1 comes back as it is; another negative offset, 0 or one before the beginning of the output is
-- fatal. Each round writes a byte at least, since the offset is not 0.
unfoldable pub unzip_match : Bool → Runzip → ℕ → ℕ → Result (ℕ × Runzip)
unfolding repeat_loop read_vchars
unzip_match has_hash r len chunk_bytes = do
  (offset, r') ← read_vchars r chunk_bytes
  guard (not (offset == 2 ^ 64 - 1)) failed
  guard (ltb offset (2 ^ 63)) fatal
  guard (not (ltb (length r'.out) offset)) fatal
  guard (ltb 0 (min len offset)) fatal
  let buf = take (min len offset) (drop (length r'.out - offset) r'.out)
  ok (len, repeat_loop len has_hash r' buf offset len)

-- `while ((len = read_header(control, ss, &head)) || head)`, on fuel. The result has the bytes
-- retrieved.
unfoldable pub token_loop : ℕ → Bool → Runzip → ℕ → ℕ → Result (ℕ × Runzip)
unfolding read_header unzip_literal unzip_match
token_loop zero has_hash r chunk_bytes total = err no_end
token_loop (suc fuel) has_hash r chunk_bytes total = do
  (head, len, r') ← read_header r
  elim (len == 0 && (head == 0)) [
    | true ↦ ok (total, r')
    | false ↦ do
      (u, r'') ←
          (if head == 0
            then unzip_literal has_hash r' len
            else unzip_match has_hash r' len chunk_bytes)
      token_loop fuel has_hash r'' chunk_bytes (total + u)
  ]

-- Each token has a byte of its own on stream 0 at least.
abbrev pub tokens : Runzip → ℕ
tokens r = suc (length r.s0.buf + length (flatten r.s0.blocks))

-- The tokens of a chunk and, where there is no hash, the check of its CRC.
unfoldable pub unzip_chunk : (List ℕ → ℕ) → Bool → Runzip → ℕ → Result (ℕ × Runzip)
unfolding token_loop read_u32 flatten
unzip_chunk crc has_hash r chunk_bytes = do
  (total, r') ← token_loop (tokens r) has_hash r chunk_bytes 0
  if has_hash then ok (total, r') else do
    (good_cksum, r'') ← read_u32 r'
    guard (good_cksum == crc r''.summed) fatal
    ok (total, r'')
