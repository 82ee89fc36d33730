-- ===== src/Stream/Disk/Read.antt =====
-- How src/stream.c reads a chunk: `open_stream_in`, and the part of `fill_buffer` that finds the next
-- block of a stream in the file. There is no encryption and no temporary buffer here.
use lrzip_next.Common.{
  ℕ, zero, suc, ◌+◌, ◌-◌, ◌*◌, ◌^◌, Bool, true, false, ◌&&◌, ◌||◌, not, ltb, leb, ◌==◌,
  if◌then◌else◌,
}
use lrzip_next.Common.{List, [], ◌∷◌, max, Option, none, some}
use lrzip_next.Common.Results.{fatal, failed, no_end, Result, ok, err, ◌>>=◌, ◌>>◌, guard}
use lrzip_next.Stream.Out.{StreamNo, stream0, stream1}
use lrzip_next.Stream.Backend.{UncompThread, ctype_none}
use lrzip_next.Stream.Disk.{File, seek, get, get_val}

-- `struct stream_info` as the reading uses it, and the flag that this is the last chunk.
pub record ChunkIn : Type 0 where
  pub chunk_bytes : ℕ
  pub eof : ℕ
  pub size : ℕ
  pub initial_pos : ℕ
  pub last_head0 : ℕ
  pub last_head1 : ℕ

abbrev pub number_of : StreamNo → ℕ
number_of stream0 = 0
number_of stream1 = 1

-- An i64 is negative where its highest bit is set.
abbrev pub is_negative : ℕ → Bool
is_negative v = leb (2 ^ 63) v

-- `c_len < 1` of an i64.
abbrev pub below_one : ℕ → Bool
below_one v = (v == 0) || is_negative v

-- From `again` on, for the stream 0 where `first` holds: an empty header is passed over there, and
-- `initial_pos` is moved. The fuel counts the headers.
unfoldable pub open_header : ℕ → Bool → ℕ → ℕ → File → Result (ℕ × ℕ × File)
unfolding get_val
open_header zero first wl initial_pos f = err no_end
open_header (suc fuel) first wl initial_pos f = do
  (c, f1) ← get_val 1 f
  (v1, f2) ← get_val wl f1
  (v2, f3) ← get_val wl f2
  (last_head, f4) ← get_val wl f3
  elim ((c == ctype_none) && (v1 == 0) && (v2 == 0) && (last_head == 0) && first) [
    | true ↦ open_header fuel first wl (initial_pos + (1 + wl * 3)) f4
    | false ↦
        guard (c == ctype_none) failed
        >> guard (v1 == 0) failed
        >> guard (v2 == 0) failed
        >> ok (last_head, initial_pos, f4)
  ]

-- Two streams; a file of `size` bytes has fewer headers.
unfoldable pub open_stream_in : ℕ → File → Result (ChunkIn × File)
unfolding get_val open_header
open_stream_in wl f = do
  (eof, f1) ← get_val 1 f
  (size, f2) ← get_val wl f1
  guard (leb 1 wl && leb wl 8 && not (is_negative size)) failed
  (head0, pos, f3) ← open_header (suc f.size) true wl f2.ofs f2
  (head1, pos', f4) ← open_header 1 false wl pos f3
  ok (
    record {
      chunk_bytes = wl;
      eof = eof;
      size = size;
      initial_pos = pos';
      last_head0 = head0;
      last_head1 = head1;
    },
    f4,
  )

-- `read_seekto`: `here` is an i64, and a place in front of the file is not sought.
abbrev pub seek_block : ℕ → ℕ → File → Result File
seek_block here initial_pos f =
    if is_negative here
    then (if leb (2 ^ 64) (here + initial_pos)
        then ok (seek (here + initial_pos - 2 ^ 64) f)
        else err failed)
    else ok (seek (here + initial_pos) f)

module _ (can_malloc : ℕ → Bool) where
  -- "Check for invalid data and that the last_head is actually moving forward correctly." `here` is an
  -- i64; `next` is not a negative one where it is compared.
  abbrev pub is_invalid : ℕ → ℕ → ℕ → ℕ → ℕ → Bool
  is_invalid size here c_len u_len next =
      below_one c_len
      || below_one u_len
      || is_negative next
      || ltb size next
      || not (next == 0) && (not (is_negative here) && leb next here)

  -- From `fill_another` on: the block at `here`, unless it is an empty one, and where the next is.
  unfoldable pub fill_another :
      ChunkIn → StreamNo → ℕ → File → Result (Option UncompThread × ℕ × File)
  unfolding get get_val
  fill_another sinfo sn here f = do
    f0 ← seek_block here sinfo.initial_pos f
    (c_type, f1) ← get_val 1 f0
    (c_len, f2) ← get_val sinfo.chunk_bytes f1
    (u_len, f3) ← get_val sinfo.chunk_bytes f2
    (next, f4) ← get_val sinfo.chunk_bytes f3
    elim ((c_len == 0) && (u_len == 0) && (number_of sn == 1) && (next == 0)) [
      | true ↦ ok (none, next, f4)
      | false ↦
          guard (not (is_invalid sinfo.size here c_len u_len next)) fatal
          >> (guard (can_malloc (max u_len c_len)) fatal
              >> (get c_len f4 >>= λ r. ok (
                some (record {
                  streamno = number_of sn;
                  c_type = c_type;
                  u_len = u_len;
                  c_len = c_len;
                  s_buf = r.0;
                }),
                next,
                r.1,
              )))
    ]

  abbrev pub with_block : Option UncompThread → List UncompThread → List UncompThread
  with_block none bs = bs
  with_block (some b) bs = b ∷ bs

  -- The blocks that the threads of a stream are started on, one after another, until `eos` is set.
  unfoldable pub fill_stream : ℕ → ChunkIn → StreamNo → ℕ → File → Result (List UncompThread)
  unfolding fill_another
  fill_stream zero sinfo sn here f = err no_end
  fill_stream (suc fuel) sinfo sn here f = fill_another sinfo sn here f >>= λ r. elim (r.1 == 0) [
    | true ↦ ok (with_block r.0 [])
    | false ↦ fill_stream fuel sinfo sn r.1 r.2 >>= λ rest. ok (with_block r.0 rest)
  ]
