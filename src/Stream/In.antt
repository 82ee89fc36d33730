-- ===== src/Stream/In.antt =====
-- The reading side of src/stream.c: `read_stream` on one stream.
pub mod Laws
use lrzip_next.Common.{ℕ, zero, suc, ◌+◌, ◌-◌, min, Bool, true, false, ◌&&◌, not, ltb, ◌==◌}
use lrzip_next.Common.{List, [], ◌∷◌, ◌++◌, length, take, drop, if◌then◌else◌, Option, none, some}

-- `buf` is `s->buf[0..buflen)`. `blocks` are the decompressed blocks that `fill_buffer` has yet to
-- hand over, in the order in which their headers are linked.
pub record Chan : Type 0 where
  pub buf : List ℕ
  pub bufp : ℕ
  pub blocks : List (List ℕ)

-- The next block takes the place of the buffer. There is an error where there is none.
unfoldable pub fill_buffer : Chan → List (List ℕ) → Option Chan
fill_buffer s [] = none
fill_buffer s (b ∷ bs) = some (record { buf = b; bufp = 0; blocks = bs })

abbrev pub Read : Type 0
Read = Option (List ℕ × Chan)

-- The end of a round, behind the copying: where that was not enough the buffer is filled, and an
-- empty block ends the reading; `again` is the next round.
unfoldable pub read_more : (Chan → ℕ → List ℕ → Read) → Chan → ℕ → List ℕ → Read
unfolding fill_buffer
read_more again s left got = elim (ltb 0 left && (s.bufp == length s.buf)) [
  | false ↦ again s left got
  | true ↦ elim (fill_buffer s s.blocks) [
    | none ↦ none
    | some s' ↦ elim (s'.bufp == length s'.buf) [
      | true ↦ some (got, s')
      | false ↦ again s' left got
    ]
  ]
]

-- `while (len)`, on fuel: a round copies what the buffer has. The result is what was read, and
-- `none` for the error -1.
unfoldable pub read_loop : ℕ → Chan → ℕ → List ℕ → Read
read_loop zero s len got = some (got, s)
read_loop (suc fuel) s zero got = some (got, s)
read_loop (suc fuel) s (suc len) got =
    let n = min (length s.buf - s.bufp) (suc len) in
    read_more (read_loop fuel) (record s { bufp = s.bufp + n }) (suc len - n)
      (got ++ take n (drop s.bufp s.buf))

-- Every round but the first takes a byte.
unfoldable pub read_stream : Chan → ℕ → Read
unfolding read_loop read_more
read_stream s len = read_loop (suc len) s len []
