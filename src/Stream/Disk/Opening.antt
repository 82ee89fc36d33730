-- ===== src/Stream/Disk/Opening.antt =====
-- `open_stream_in` of src/stream.c on the headers that `compthread` has written, and the streams behind
-- them.
use lrzip_next.Common.{ℕ, suc, ◌+◌, ◌^◌, ◌≤◌, ◌<◌, ◌≡◌, refl, sym, arith, subst}
use lrzip_next.Common.{Bool, true, false, ◌&&◌, not, leb, ◌==◌}
use lrzip_next.Common.{List, [], ◌∷◌, length, All}
use lrzip_next.Common.Results.{ok, ◌>>=◌}
use lrzip_next.Bytes.{le_bytes}
use lrzip_next.Stream.Out.{stream0, stream1}
use lrzip_next.Stream.Backend.{ctype_none}
use lrzip_next.Stream.Disk.{File}
use lrzip_next.Stream.Disk.Cells.{Cell, IsAt, All-map}
use lrzip_next.Stream.Disk.Chain.{Placed, Chain, Settled, cells, cell_at}
use lrzip_next.Stream.Disk.Keeps.{first_head}
use lrzip_next.Stream.Disk.Read.{ChunkIn, is_negative, open_header, open_stream_in, fill_stream}
use lrzip_next.Stream.Disk.Blocks.{
  at, get_val-IsAt, get_u8-IsAt, IsAccepted, threads_of, IsLong, fill_stream-cells,
}

-- An empty header at `b`, but for its pointer.
abbrev pub empty_header : ℕ → ℕ → List Cell
empty_header wl b =
    record { addr = b; bytes = ctype_none ∷ [] }
    ∷ record { addr = b + 1; bytes = le_bytes wl 0 }
    ∷ record { addr = b + 1 + wl; bytes = le_bytes wl 0 }
    ∷ []

open_header-points :
    (f : File) (fuel : ℕ) (first : Bool) (wl initial_pos b next : ℕ)
    → All (IsAt f.byte) (empty_header wl b)
    → IsAt f.byte (record { addr = b + 1 + wl + wl; bytes = le_bytes wl next })
    → b + 1 + wl + wl + wl ≤ f.size
    → 0 < next
    → next < 256 ^ wl
    → open_header (suc fuel) first wl initial_pos (at b f)
      ≡ ok (next, initial_pos, at (b + 1 + wl + wl + wl) f)
unfolding open_header
open_header-points f fuel first wl initial_pos b next h n le lo fits =
    let c = get_u8-IsAt f b ctype_none (omega arith) h.0 (omega (arith, le)) in
    let v1 = get_val-IsAt f (b + 1) wl 0 (omega (arith, fits)) h.1.0 (omega (arith, le)) in
    let v2 = get_val-IsAt f (b + 1 + wl) wl 0 (omega (arith, fits)) h.1.1.0 (omega (arith, le)) in
    let head = get_val-IsAt f (b + 1 + wl + wl) wl next fits n (omega (arith, le)) in
    let z : (next == 0) ≡ false = ground arith in rw (c, v1, v2, head) (rw (z, ◌>>=◌) refl)

-- What stands at `o`, where a chunk begins: its width, the flag, its size and two headers.
abbrev pub opening : ℕ → ℕ → ℕ → ℕ → List Cell
opening o eof size wl =
    record { addr = o; bytes = wl ∷ [] }
    ∷ record { addr = o + 1; bytes = eof ∷ [] }
    ∷ record { addr = o + 1 + 1; bytes = le_bytes wl size }
    ∷ record { addr = o + 1 + 1 + wl; bytes = ctype_none ∷ [] }
    ∷ record { addr = o + 1 + 1 + wl + 1; bytes = le_bytes wl 0 }
    ∷ record { addr = o + 1 + 1 + wl + 1 + wl; bytes = le_bytes wl 0 }
    ∷ record { addr = o + 1 + 1 + wl + 1 + wl + wl + wl; bytes = ctype_none ∷ [] }
    ∷ record { addr = o + 1 + 1 + wl + 1 + wl + wl + wl + 1; bytes = le_bytes wl 0 }
    ∷ record { addr = o + 1 + 1 + wl + 1 + wl + wl + wl + 1 + wl; bytes = le_bytes wl 0 }
    ∷ []

module _ (f : File) (o eof size wl cur t0 t1 : ℕ) (p0 p1 : Placed) (ps0 ps1 : List Placed)
    (c0 : Chain (o + 1 + 1 + wl) wl f.byte cur t0 t1 (first_head wl stream0) (p0 ∷ ps0))
    (c1 : Chain (o + 1 + 1 + wl) wl f.byte cur t1 t0 (first_head wl stream1) (p1 ∷ ps1))
    (long : cur + (o + 1 + 1 + wl) ≤ f.size) (front : All (IsAt f.byte) (opening o eof size wl))
    (eof_fits : eof < 256) (width : (1 ≤ wl) × (wl ≤ 8))
    (size_fits : (size < 2 ^ 63) × (size < 256 ^ wl))
    (fits0 : (0 < p0.pos) × (p0.pos < 256 ^ wl) × (p0.pos < 2 ^ 63))
    (fits1 : (0 < p1.pos) × (p1.pos < 256 ^ wl) × (p1.pos < 2 ^ 63))
    (room : first_head wl stream1 + wl ≤ cur) where
  abbrev opened : ChunkIn
  opened = record {
    chunk_bytes = wl;
    eof = eof;
    size = size;
    initial_pos = o + 1 + 1 + wl;
    last_head0 = p0.pos;
    last_head1 = p1.pos;
  }

  abbrev second : ℕ
  second = o + 1 + 1 + wl + 1 + wl + wl + wl

  IsAt-moved :
      (a b v : ℕ)
      → a ≡ b
      → IsAt f.byte (record { addr = a; bytes = le_bytes wl v })
      → IsAt f.byte (record { addr = b; bytes = le_bytes wl v })
  IsAt-moved a b v e h = subst (λ k. IsAt f.byte (record { addr = k; bytes = le_bytes wl v })) e h

  heads0 :
      open_header (suc f.size) true wl (o + 1 + 1 + wl) (at (o + 1 + 1 + wl) f)
      ≡ ok (p0.pos, o + 1 + 1 + wl, at second f)
  heads0 =
      open_header-points f f.size true wl (o + 1 + 1 + wl) (o + 1 + 1 + wl) p0.pos
        (front.1.1.1.0, (front.1.1.1.1.0, (front.1.1.1.1.1.0, tt)))
        (IsAt-moved (first_head wl stream0 + (o + 1 + 1 + wl)) _ p0.pos (omega arith) c0.holds.0)
        (omega (arith, long, room)) fits0.0 fits0.1

  heads1 :
      open_header 1 false wl (o + 1 + 1 + wl) (at second f)
      ≡ ok (p1.pos, o + 1 + 1 + wl, at (second + 1 + wl + wl + wl) f)
  heads1 =
      open_header-points f 0 false wl (o + 1 + 1 + wl) second p1.pos
        (front.1.1.1.1.1.1.0, (front.1.1.1.1.1.1.1.0, (front.1.1.1.1.1.1.1.1.0, tt)))
        (IsAt-moved (first_head wl stream1 + (o + 1 + 1 + wl)) _ p1.pos (omega arith) c1.holds.0)
        (omega (arith, long, room)) fits1.0 fits1.1

  open_stream_in-opened :
      open_stream_in wl (at (o + 1) f) ≡ ok (opened, at (second + 1 + wl + wl + wl) f)
  unfolding open_stream_in
  open_stream_in-opened =
      let e = get_u8-IsAt f (o + 1) eof eof_fits front.1.0 (omega (arith, long, room)) in
      let s =
        get_val-IsAt f (o + 1 + 1) wl size size_fits.1 front.1.1.0 (omega (arith, long, room)) in
      let t : leb 1 wl && leb wl 8 && not (is_negative size) ≡ true =
        ground (arith, width, size_fits) in
      rw (e, s) (rw (t, ◌>>=◌) (rw (heads0, heads1) refl))

  module _ (can_malloc : ℕ → Bool) (granted : (n : ℕ) → can_malloc n ≡ true) (fuel : ℕ)
      (here : ℕ) where
    IsLong-cells :
        (t t' : ℕ) (cs : List Cell)
        → All (Settled (o + 1 + 1 + wl) wl cur t t') cs
        → All (IsLong f.size) cs
    IsLong-cells t t' cs =
        All-map (Settled (o + 1 + 1 + wl) wl cur t t') (IsLong f.size) cs
          (λ c s. omega (arith, s.0, long))

    fills0 :
        length ps0 < fuel
        → IsAccepted wl size stream0 (p0 ∷ ps0)
        → fill_stream can_malloc fuel opened stream0 p0.pos (at here f)
          ≡ ok (threads_of stream0 (p0 ∷ ps0))
    fills0 lt acc =
        fill_stream-cells can_malloc granted opened stream0 (first_head wl stream0) fuel p0 ps0
          (at here f) lt fits0.2 c0.holds
          (subst (λ k. IsAt f.byte (cell_at (o + 1 + 1 + wl) wl k 0)) (sym c0.ends) c0.zero)
          (IsLong-cells t0 t1 (cells (o + 1 + 1 + wl) wl (first_head wl stream0) (p0 ∷ ps0))
            c0.settled)
          acc

    fills1 :
        length ps1 < fuel
        → IsAccepted wl size stream1 (p1 ∷ ps1)
        → fill_stream can_malloc fuel opened stream1 p1.pos (at here f)
          ≡ ok (threads_of stream1 (p1 ∷ ps1))
    fills1 lt acc =
        fill_stream-cells can_malloc granted opened stream1 (first_head wl stream1) fuel p1 ps1
          (at here f) lt fits1.2 c1.holds
          (subst (λ k. IsAt f.byte (cell_at (o + 1 + 1 + wl) wl k 0)) (sym c1.ends) c1.zero)
          (IsLong-cells t1 t0 (cells (o + 1 + 1 + wl) wl (first_head wl stream1) (p1 ∷ ps1))
            c1.settled)
          acc

  -- All that is read of the chunk.
  pub opened-read :
      (can_malloc : ℕ → Bool) (fuel : ℕ)
      → ((n : ℕ) → can_malloc n ≡ true)
      → length ps0 < fuel
      → length ps1 < fuel
      → IsAccepted wl size stream0 (p0 ∷ ps0)
      → IsAccepted wl size stream1 (p1 ∷ ps1)
      → (sinfo : ChunkIn) × (f' : File) × (open_stream_in wl (at (o + 1) f) ≡ ok (sinfo, f'))
        × (sinfo.eof ≡ eof)
        × (sinfo.size ≡ size)
        × (fill_stream can_malloc fuel sinfo stream0 sinfo.last_head0 f'
            ≡ ok (threads_of stream0 (p0 ∷ ps0)))
        × (fill_stream can_malloc fuel sinfo stream1 sinfo.last_head1 f'
            ≡ ok (threads_of stream1 (p1 ∷ ps1)))
  opened-read can_malloc fuel granted lt0 lt1 acc0 acc1 =
      let stop = second + 1 + wl + wl + wl in
      (
        opened,
        at stop f,
        open_stream_in-opened,
        refl,
        refl,
        fills0 can_malloc granted fuel stop lt0 acc0,
        fills1 can_malloc granted fuel stop lt1 acc1,
      )
