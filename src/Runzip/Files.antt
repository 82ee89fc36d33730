-- ===== src/Runzip/Files.antt =====
-- `runzip_fd` of src/runzip.c: the chunks of an archive one after another, and the hash behind them.
use lrzip_next.Common.{ℕ, zero, suc, ◌+◌, Bool, true, false, ◌&&◌, ◌||◌, not, ltb, ◌==◌}
use lrzip_next.Common.{List, [], ◌∷◌, Option, none, some}
use lrzip_next.Stream.In.{Chan}
use lrzip_next.Runzip.{Runzip, Result, ok, err, fatal, failed, guard, ◌>>=◌, ◌>>◌, unzip_chunk}

-- What `runzip_chunk` finds of a chunk: the byte width, whether the input ends behind it, the streams that
-- `open_stream_in` opens, `none` where it fails, and `control->eof` behind it.
pub record ArchiveChunk : Type 0 where
  pub chunk_bytes : ℕ
  pub at_end : Bool
  pub streams : Option (Chan × Chan)
  pub eof : Bool

-- With the byte width in front. An input that ends there is 0 bytes.
unfoldable pub runzip_chunk : (List ℕ → ℕ) → Bool → ArchiveChunk → Runzip → Result (ℕ × Runzip)
unfolding unzip_chunk
runzip_chunk crc has_hash c r = do
  guard (not (ltb c.chunk_bytes 1 || ltb 8 c.chunk_bytes)) fatal
  elim c.at_end [
    | true ↦ ok (0, r)
    | false ↦ elim c.streams [
      | none ↦ err fatal
      | some (s0, s1) ↦ unzip_chunk crc has_hash (record r { s0 = s0; s1 = s1 }) c.chunk_bytes
    ]
  ]

-- `do ... while (total < expected_size || (!expected_size && !control->eof))`. Where there is no chunk
-- left its byte width cannot be read.
unfoldable pub runzip_loop :
    (List ℕ → ℕ) → Bool → ℕ → List ArchiveChunk → ℕ → Runzip → Result (ℕ × Runzip)
unfolding runzip_chunk
runzip_loop crc has_hash expected_size [] total r = err fatal
runzip_loop crc has_hash expected_size (c ∷ cs) total r = do
  (u, r') ← runzip_chunk crc has_hash c r
  guard (not (ltb u 1 && ltb total expected_size)) failed
  elim (ltb (total + u) expected_size || ((expected_size == 0) && not c.eof)) [
    | true ↦ runzip_loop crc has_hash expected_size cs (total + u) r'
    | false ↦ ok (total + u, r')
  ]

-- `strncmp(a, b, n) == 0`: the comparison ends behind a NUL byte. Beyond a list there is one.
unfoldable pub strncmp_equal : ℕ → List ℕ → List ℕ → Bool
strncmp_equal zero xs ys = true
strncmp_equal (suc n) [] [] = true
strncmp_equal (suc n) [] (y ∷ ys) = y == 0
strncmp_equal (suc n) (x ∷ xs) [] = x == 0
strncmp_equal (suc n) (x ∷ xs) (y ∷ ys) =
    let rest = strncmp_equal n xs ys in (x == y) && ((x == 0) || rest)

abbrev pub no_output : Runzip
no_output = record {
  s0 = record { buf = []; bufp = 0; blocks = [] };
  s1 = record { buf = []; bufp = 0; blocks = [] };
  out = [];
  summed = [];
  hashed = [];
}

-- The hash of the bytes that were written against the stored one and, with `check_file`, the stored one
-- against that of the file as it is read back. `md` is gcrypt's digest, of `hash_len` bytes.
unfoldable pub check_hash : (List ℕ → List ℕ) → ℕ → Bool → List ℕ → Runzip → Result (Unit {0})
unfolding strncmp_equal
check_hash md hash_len check_file hash_stored r = do
  guard (strncmp_equal hash_len hash_stored (md r.hashed)) fatal
  guard (not check_file || strncmp_equal hash_len (md r.hashed) (md r.out)) fatal

-- The result is the number of bytes, and those that were written.
unfoldable pub runzip_fd :
    (List ℕ → ℕ)
    → (List ℕ → List ℕ)
    → ℕ
    → Bool
    → ℕ
    → List ArchiveChunk
    → Option (List ℕ)
    → Result (ℕ × List ℕ)
unfolding runzip_loop check_hash
runzip_fd crc md hash_len check_file expected_size cs none = do
  (total, r) ← runzip_loop crc false expected_size cs 0 no_output
  ok (total, r.out)
runzip_fd crc md hash_len check_file expected_size cs (some hash_stored) = do
  (total, r) ← runzip_loop crc true expected_size cs 0 no_output
  check_hash md hash_len check_file hash_stored r
  ok (total, r.out)
