-- ===== src/Stream/Disk.antt =====
-- The archive file as src/stream.c sees it: bytes at offsets, the offset of the descriptor, and the
-- functions that write and read there. A disk that is full is left out: `write_1g` writes it all.
pub mod Cells
pub mod Write
pub mod Chain
pub mod Keeps
pub mod Read
pub mod Blocks
pub mod Layout
pub mod Opening
pub mod Chunk
pub mod Ends
pub mod Encrypted
use lrzip_next.Common.{ℕ, zero, suc, ◌+◌, ◌-◌, ◌≤◌, max, Bool, true, false, ◌&&◌, ltb, leb}
use lrzip_next.Common.{List, [], ◌∷◌, length, get_or, if◌then◌else◌}
use lrzip_next.Common.Results.{failed, Result, ok, err, ◌>>=◌}
use lrzip_next.Bytes.{le_bytes, of_le}
use lrzip_next.Rzip.Slice.{slice}

pub record File : Type 0 where
  pub byte : ℕ → ℕ
  pub size : ℕ
  pub ofs : ℕ

-- The bytes of a file with some of them overwritten.
unfoldable pub patch : ℕ → List ℕ → (ℕ → ℕ) → ℕ → ℕ
patch at bs byte i = if leb at i && ltb i (at + length bs) then get_or bs (i - at) 0 else byte i

-- `lseek` to an offset from the beginning.
abbrev pub seek : ℕ → File → File
seek at f = record f { ofs = at }

-- `write_buf`, `write_u8` and `write_val`.
unfoldable pub put : List ℕ → File → File
put bs f = record {
  byte = patch f.ofs bs f.byte;
  size = max f.size (f.ofs + length bs);
  ofs = f.ofs + length bs;
}

abbrev pub put_val : ℕ → ℕ → File → File
put_val len v f = put (le_bytes len v) f

-- `read_buf`: a read beyond the end is short, which is an error.
unfoldable pub get : ℕ → File → Result (List ℕ × File)
get n f =
    if ltb f.size (f.ofs + n)
    then err failed
    else ok (slice f.byte f.ofs n, record f { ofs = f.ofs + n })

-- `read_u8` and `read_val`, with the `le64toh` of the callers.
unfoldable pub get_val : ℕ → File → Result (ℕ × File)
unfolding get
get_val len f = do (bs, f') ← get len f; ok (of_le bs, f')
