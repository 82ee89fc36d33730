-- ===== src/Rzip/Files.antt =====
-- `rzip_fd` of src/rzip.c for a file: the sizes of chunks and maps, the byte width of a chunk, and the
-- passes, each of which is `rzip_chunk`. The passes are those of chunks that are mapped whole. Where the
-- map is smaller than the chunk the code goes on in its sliding mode: the functions of it are in
-- Rzip/Sliding, a pass with them is not modelled.
pub mod Width
pub mod Retry
pub mod Stdin
use lrzip_next.Common.{ℕ, zero, suc, ◌+◌, ◌-◌, ◌*◌, ◌/◌, ◌%◌, ◌^◌, min, Bool, true, false}
use lrzip_next.Common.{
  List, [], ◌∷◌, Option, none, some, ◌&&◌, ◌||◌, not, ltb, leb, ◌==◌, if◌then◌else◌,
}
use lrzip_next.Common.Results.{Result, ok, err, fatal, no_end, unmodelled, guard, ◌>>=◌, ◌>>◌}
use lrzip_next.Util.Page.{round_to_page}
use lrzip_next.Stream.Out.{StreamInfo, close_stream_out}
use lrzip_next.Rzip.State.{RzipState}
use lrzip_next.Rzip.Search.{Env, hash_search}

-- What `mmap` answers: `no_memory` for ENOMEM, `refused` for another error.
pub data Mapping : Type 0 where
  mapped no_memory refused : Mapping

-- What `rzip_fd` takes from `control` and from the system: `mmap` of so many bytes, and the size of the
-- buffers that `open_stream_out` has chosen.
pub record FileControl : Type 0 where
  pub env : Env
  pub ramsize : ℕ
  pub window : ℕ
  pub unlimited : Bool
  pub can_map : ℕ → Mapping
  pub stream_bufsize : ℕ
  pub st_size : ℕ

abbrev pub chunk_multiple : ℕ
chunk_multiple = 100 * 1_048_576

-- `control->max_chunk`, before it is rounded.
abbrev pub chunk_limit : FileControl → ℕ
chunk_limit c =
    if c.unlimited
    then c.st_size
    else (if not (c.window == 0) then c.window * chunk_multiple else c.ramsize / 3 * 2)

abbrev pub max_mmap : FileControl → ℕ
max_mmap c = min (round_to_page (c.env.page_size) (c.env.maxram)) (chunk_limit c)

abbrev pub max_chunk : FileControl → ℕ
max_chunk c =
    if ltb (chunk_limit c) c.st_size
    then round_to_page (c.env.page_size) (chunk_limit c)
    else chunk_limit c

-- `while (st->chunk_size >> bits > 0) bits++;`, on fuel for 64 bits.
unfoldable pub width_bits : ℕ → ℕ → ℕ → ℕ
width_bits zero bits size = bits
width_bits (suc fuel) bits size = elim (ltb 0 (size / 2 ^ bits)) [
  | true ↦ width_bits fuel (bits + 1) size
  | false ↦ bits
]

unfoldable pub byte_width : ℕ → ℕ
unfolding width_bits
byte_width size =
    let bits = width_bits 56 8 size in if bits % 8 == 0 then bits / 8 else bits / 8 + 1

-- `retry:`, on fuel. The result is `st->mmap_size`.
unfoldable pub map_loop : ℕ → FileControl → ℕ → Result ℕ
map_loop zero c mmap_size = err no_end
map_loop (suc fuel) c mmap_size =
    let less = round_to_page (c.env.page_size) (mmap_size / 10 * 9) in
    elim (c.can_map mmap_size) [
      | mapped ↦ ok mmap_size
      | refused ↦ err fatal
      | no_memory ↦ elim (less == 0) [ true ↦ err fatal | false ↦ map_loop fuel c less ]
    ]

-- A chunk for the archive: the byte width, the flag of the last chunk and the closed streams.
pub record Chunk : Type 0 where
  pub chunk_bytes : ℕ
  pub eof : Bool
  pub streams : StreamInfo

-- The local variables of `rzip_fd`. `eof` is `control->eof`, and `hashed` the bytes given to
-- `hash_handle`.
pub record RzipFd : Type 0 where
  pub st : RzipState
  pub len : ℕ
  pub eof : Bool
  pub hashed : List ℕ

-- Fresh streams from `open_stream_out`.
abbrev pub fresh_streams : FileControl → StreamInfo
fresh_streams c = record { bufsize = c.stream_bufsize; s0 = []; s1 = []; jobs = [] }

abbrev pub or_fatal {ℓ} : {A : Type ℓ} → Option A → Result A
or_fatal none = err fatal
or_fatal (some a) = ok a

-- `st->mmap_size` before `retry:`.
abbrev pub first_mmap : FileControl → ℕ → ℕ
first_mmap c len = if min (max_chunk c) len == 0 then c.env.page_size else min (max_mmap c) len

abbrev pub next_chunk : FileControl → RzipFd → RzipState
next_chunk c fd = record (fd.st) {
  ss = fresh_streams c;
  chunk_size = min (max_chunk c) fd.len;
  chunk_bytes = byte_width (min (max_chunk c) fd.len);
}

-- A round of the loop, with the chunk that it leaves to the threads that write. `eof` of the chunk is
-- `control->eof` at the pass: the thread that writes the header of the chunk reads it later.
unfoldable pub rzip_pass : FileControl → (ℕ → ℕ) → RzipFd → Result (Chunk × RzipFd)
unfolding map_loop
rzip_pass c file fd = do
  mmap_size ← map_loop (first_mmap c fd.len + 2) c (first_mmap c fd.len)
  let offset = c.st_size - fd.len
  let st = next_chunk c fd
  guard (leb st.chunk_size mmap_size) unmodelled
  let eof = fd.eof || (st.chunk_size == fd.len)
  (st', hashed) ← or_fatal (hash_search c.env (λ i. file (offset + i)) st fd.hashed)
  let len = fd.len - st'.chunk_size
  guard (not (ltb 0 len && eof)) fatal
  ok (
    record { chunk_bytes = st.chunk_bytes; eof = eof; streams = close_stream_out st'.ss },
    record { st = st'; len = len; eof = eof; hashed = hashed },
  )

abbrev pub Passes : Type 0
Passes = Result (List Chunk × List ℕ)

-- The chunk of a pass and, while there is more of the file, those of the passes after it.
unfoldable pub passes_from : (RzipFd → Passes) → Chunk → RzipFd → Passes
passes_from again chunk fd = elim (ltb 0 fd.len) [
  | false ↦ ok (chunk ∷ [], fd.hashed)
  | true ↦ do (rest, hashed) ← again fd; ok (chunk ∷ rest, hashed)
]

-- `while (!pass || len > 0)`, on fuel. The result is the chunks, and what `hash_handle` was given.
unfoldable pub rzip_loop : ℕ → FileControl → (ℕ → ℕ) → RzipFd → Passes
unfolding rzip_pass passes_from
rzip_loop zero c file fd = err no_end
rzip_loop (suc fuel) c file fd = do
  (chunk, fd') ← rzip_pass c file fd
  passes_from (rzip_loop fuel c file) chunk fd'

-- The chunks and the hash behind them, where there is one. `md` is the digest that gcrypt makes of the
-- bytes it was given. Every pass takes a byte at least, if there is one.
unfoldable pub rzip_fd :
    FileControl → (List ℕ → List ℕ) → (ℕ → ℕ) → RzipState → Result (List Chunk × Option (List ℕ))
unfolding rzip_loop
rzip_fd c md file st = do
  (chunks, hashed) ←
      rzip_loop (c.st_size + 1) c file
        (record { st = st; len = c.st_size; eof = false; hashed = [] })
  ok (chunks, if c.env.has_hash then some (md hashed) else none)
