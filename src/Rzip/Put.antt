-- ===== src/Rzip/Put.antt =====
-- How src/rzip.c writes: bytes and integers to stream 0, runs of literal bytes to stream 1.
pub mod Token
pub mod Laws
pub mod Frame
use lrzip_next.Common.{ℕ, zero, suc, ◌+◌, ◌-◌, min, Bool, List, [], ◌∷◌, length, ltb, ◌==◌}
use lrzip_next.Common.{if◌then◌else◌}
use lrzip_next.Bytes.{le_bytes}
use lrzip_next.Stream.Out.{StreamNo, stream0, stream1, StreamInfo, room, put_round, write_stream}
use lrzip_next.Rzip.State.{RzipState, Stats}
use lrzip_next.Rzip.Slice.{slice}

unfoldable pub put_u8 : StreamInfo → ℕ → StreamInfo
put_u8 ss b = write_stream ss stream0 (b ∷ [])

unfoldable pub put_u32 : StreamInfo → ℕ → StreamInfo
put_u32 ss s = write_stream ss stream0 (le_bytes 4 s)

unfoldable pub put_vchars : StreamInfo → ℕ → ℕ → StreamInfo
put_vchars ss s length = write_stream ss stream0 (le_bytes length s)

unfoldable pub put_header : StreamInfo → ℕ → ℕ → StreamInfo
unfolding put_u8 put_vchars
put_header ss head len = put_vchars (put_u8 ss head) len 2

-- A piece of at most 0xFFFF bytes.
abbrev pub piece : ℕ → ℕ
piece len = if ltb 0xffff len then 0xffff else len

-- One round of `put_match`. The caller has `offset < p`, so `p - offset` is not negative.
unfoldable pub match_round : RzipState → ℕ → ℕ → ℕ → RzipState
unfolding put_header put_vchars
match_round st p offset n = record st {
  ss = put_vchars (put_header st.ss 1 n) (p - offset) st.chunk_bytes;
  stats = record (st.stats) {
    matches = st.stats.matches + 1;
    match_bytes = st.stats.match_bytes + n;
  };
}

-- `do … while (len)`, on fuel.
unfoldable pub put_match_loop : ℕ → RzipState → ℕ → ℕ → ℕ → RzipState
unfolding match_round
put_match_loop zero st p offset len = st
put_match_loop (suc fuel) st p offset len =
    let n = piece len in
    let st' = match_round st p offset n in
    let rest = put_match_loop fuel st' (p + n) (offset + n) (len - n) in
    if len - n == 0 then st' else rest

unfoldable pub put_match : RzipState → ℕ → ℕ → ℕ → RzipState
unfolding put_match_loop
put_match st p offset len = put_match_loop (suc len) st p offset len

module _ (byte : ℕ → ℕ) where
  -- `while (len)`, on fuel; `do_mcpy` copies buf[p..p + n) behind the stream's buffer.
  unfoldable pub write_sbstream_loop : ℕ → StreamInfo → StreamNo → ℕ → ℕ → StreamInfo
  write_sbstream_loop zero ss sn p len = ss
  write_sbstream_loop (suc fuel) ss sn p zero = ss
  write_sbstream_loop (suc fuel) ss sn p (suc len) =
      let n = min (room ss sn) (suc len) in
      write_sbstream_loop fuel (put_round ss sn (slice byte p n)) sn (p + n) (suc len - n)

  unfoldable pub write_sbstream : StreamInfo → StreamNo → ℕ → ℕ → StreamInfo
  unfolding write_sbstream_loop
  write_sbstream ss sn p len = write_sbstream_loop len ss sn p len

  -- One round of `put_literal`.
  unfoldable pub literal_round : RzipState → ℕ → ℕ → RzipState
  unfolding put_header write_sbstream
  literal_round st last len =
      let ss' = put_header st.ss 0 len in
      record st {
        ss = if len == 0 then ss' else write_sbstream ss' stream1 last len;
        stats = record (st.stats) {
          literals = st.stats.literals + 1;
          literal_bytes = st.stats.literal_bytes + len;
        };
      }

  -- `do … while (p > last)`, on fuel.
  unfoldable pub put_literal_loop : ℕ → RzipState → ℕ → ℕ → RzipState
  unfolding literal_round
  put_literal_loop zero st last p = st
  put_literal_loop (suc fuel) st last p =
      let len = piece (p - last) in
      let st' = literal_round st last len in
      let rest = put_literal_loop fuel st' (last + len) p in
      if ltb (last + len) p then rest else st'

  unfoldable pub put_literal : RzipState → ℕ → ℕ → RzipState
  unfolding put_literal_loop
  put_literal st last p = put_literal_loop (suc (p - last)) st last p
