-- ===== src/Stream/Out.antt =====
-- The writing side of src/stream.c: `write_stream`, `flush_buffer`, `clear_buffer` and
-- `close_stream_out`. A flushed buffer goes to a compression thread; the threads take their turns
-- in the order of the calls, so what is kept of them is the list of jobs in that order.
pub mod Laws
use lrzip_next.Common.{ℕ, zero, suc, ◌+◌, ◌-◌, ◌≤◌, min, Bool, true, false}
use lrzip_next.Common.{List, [], ◌∷◌, ◌++◌, length, take, drop, ◌==◌, if◌then◌else◌}

-- Stream 0 has the headers, match offsets and the checksum, stream 1 the literal bytes.
pub data StreamNo : Type 0 where
  stream0 stream1 : StreamNo

-- What `clear_buffer` hands to a thread: `streamno` and `s_buf[0..s_len)`.
pub record Job : Type 0 where
  pub streamno : StreamNo
  pub s_buf : List ℕ

-- `s0` and `s1` are `s[i].buf[0..buflen)`.
pub record StreamInfo : Type 0 where
  pub bufsize : ℕ
  pub s0 : List ℕ
  pub s1 : List ℕ
  pub jobs : List Job

abbrev pub buf : StreamInfo → StreamNo → List ℕ
buf ss stream0 = ss.s0
buf ss stream1 = ss.s1

abbrev pub set_buf : StreamInfo → StreamNo → List ℕ → StreamInfo
set_buf ss stream0 xs = record ss { s0 = xs }
set_buf ss stream1 xs = record ss { s1 = xs }

-- `newbuf` says whether the stream goes on with a fresh buffer.
unfoldable pub clear_buffer : StreamInfo → StreamNo → Bool → StreamInfo
clear_buffer ss sn newbuf =
    let ss' = record ss { jobs = ss.jobs ++ (record { streamno = sn; s_buf = buf ss sn } ∷ []) } in
    if newbuf then set_buf ss' sn [] else ss'

unfoldable pub flush_buffer : StreamInfo → StreamNo → StreamInfo
unfolding clear_buffer
flush_buffer ss sn = clear_buffer ss sn true

-- One round of the copying loops: `n` bytes that fit, and a flush of a buffer that is full.
unfoldable pub put_round : StreamInfo → StreamNo → List ℕ → StreamInfo
put_round ss sn xs =
    let ss' = set_buf ss sn (buf ss sn ++ xs) in
    if length (buf ss' sn) == ss'.bufsize then flush_buffer ss' sn else ss'

abbrev pub room : StreamInfo → StreamNo → ℕ
room ss sn = ss.bufsize - length (buf ss sn)

-- `while (len)`, on fuel.
unfoldable pub write_loop : ℕ → StreamInfo → StreamNo → List ℕ → StreamInfo
write_loop zero ss sn p = ss
write_loop (suc fuel) ss sn [] = ss
write_loop (suc fuel) ss sn (x ∷ xs) =
    let n = min (room ss sn) (length (x ∷ xs)) in
    write_loop fuel (put_round ss sn (take n (x ∷ xs))) sn (drop n (x ∷ xs))

-- Each round takes a byte at least where the buffer has room, so `len` rounds are enough.
unfoldable pub write_stream : StreamInfo → StreamNo → List ℕ → StreamInfo
write_stream ss sn p = write_loop (length p) ss sn p

-- Without encryption the headers need no rewriting: the rest of every buffer is handed over.
unfoldable pub close_stream_out : StreamInfo → StreamInfo
unfolding clear_buffer
close_stream_out ss = clear_buffer (clear_buffer ss stream0 false) stream1 false
