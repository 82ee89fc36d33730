-- ===== src/Stream/Disk/Write.antt =====
-- How `compthread` of src/stream.c writes a block, once it is its turn: the headers of a fresh chunk,
-- the pointer of the block before, the header of this block and its bytes. There is no encryption and
-- no temporary buffer here.
use lrzip_next.Common.{ℕ, ◌+◌, ◌*◌, ◌==◌, if◌then◌else◌, List, [], ◌∷◌, length}
use lrzip_next.Stream.Out.{StreamNo, stream0, stream1}
use lrzip_next.Stream.Backend.{ctype_none}
use lrzip_next.Stream.Disk.{File, seek, put, put_val}

-- `struct stream_info` as the writing uses it.
pub record ChunkOut : Type 0 where
  pub chunk_bytes : ℕ
  pub chunks : ℕ
  pub size : ℕ
  pub initial_pos : ℕ
  pub cur_pos : ℕ
  pub last_head0 : ℕ
  pub last_head1 : ℕ
  pub file : File

-- What a thread has for the file: `c_len` is the length of `s_buf`.
pub record Packed : Type 0 where
  pub c_type : ℕ
  pub s_len : ℕ
  pub s_buf : List ℕ

abbrev pub last_head : ChunkOut → StreamNo → ℕ
last_head ctis stream0 = ctis.last_head0
last_head ctis stream1 = ctis.last_head1

abbrev pub set_last_head : StreamNo → ℕ → ChunkOut → ChunkOut
set_last_head stream0 pos ctis = record ctis { last_head0 = pos }
set_last_head stream1 pos ctis = record ctis { last_head1 = pos }

abbrev pub put_block_header : ℕ → ℕ → ℕ → ℕ → File → File
put_block_header wl c_type c_len s_len f =
    put_val wl 0 (put_val wl s_len (put_val wl c_len (put (c_type ∷ []) f)))

-- One of the empty headers that begin a chunk.
unfoldable pub initial_header : StreamNo → ChunkOut → ChunkOut
initial_header sn ctis =
    let wl = ctis.chunk_bytes in
    set_last_head sn (ctis.cur_pos + 1 + wl * 2) (record ctis {
      file = put_block_header wl ctype_none 0 0 ctis.file;
      cur_pos = ctis.cur_pos + (1 + wl * 3);
    })

-- `if (!ctis->chunks++)`
unfoldable pub begin_chunk : ℕ → ChunkOut → ChunkOut
unfolding initial_header
begin_chunk eof ctis =
    let wl = ctis.chunk_bytes in
    let file = put_val wl ctis.size (put (eof ∷ []) (put (wl ∷ []) ctis.file)) in
    initial_header stream1
      (initial_header stream0 (record ctis { file = file; initial_pos = file.ofs }))

-- From the pointer to this block on.
unfoldable pub append_block : StreamNo → Packed → ChunkOut → ChunkOut
append_block sn p ctis =
    let wl = ctis.chunk_bytes in
    let pointed = seek (last_head ctis sn + ctis.initial_pos) ctis.file in
    let linked = put_val wl ctis.cur_pos pointed in
    let placed = seek (ctis.cur_pos + ctis.initial_pos) linked in
    set_last_head sn (ctis.cur_pos + 1 + wl * 2) (record ctis {
      file = put p.s_buf (put_block_header wl p.c_type (length p.s_buf) p.s_len placed);
      cur_pos = ctis.cur_pos + (1 + wl * 3) + length p.s_buf;
    })

-- The turn of one thread.
unfoldable pub write_block : ℕ → StreamNo → Packed → ChunkOut → ChunkOut
unfolding begin_chunk append_block
write_block eof sn p ctis =
    let counted = record ctis { chunks = ctis.chunks + 1 } in
    append_block sn p (if ctis.chunks == 0 then begin_chunk eof counted else counted)

-- The threads take their turns in the order in which the jobs were handed over.
unfoldable pub write_blocks : ℕ → List (StreamNo × Packed) → ChunkOut → ChunkOut
unfolding write_block
write_blocks eof [] ctis = ctis
write_blocks eof (b ∷ bs) ctis = write_blocks eof bs (write_block eof b.0 b.1 ctis)
