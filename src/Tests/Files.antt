-- ===== src/Tests/Files.antt =====
-- A whole file, src/rzip.c and src/runzip.c, at a concrete input: 40 bytes in chunks of eight, which
-- are mapped whole.
use native.Mathlib.Nat.{mod-lt}
use lrzip_next.Common.{
  min, ◌∷◌, [], ℕ, ◌-◌, ◌%◌, ◌^◌, ◌≤◌, ◌<◌, ◌≡◌, ◌≢◌, ◌⊎◌, refl, arith, inl, inr, Bool, true, false,
}
use lrzip_next.Common.{List, length, ltb, if◌then◌else◌, Option, some}
use lrzip_next.Common.Results.{Result, ok, err}
use lrzip_next.Util.Page.{round_to_page}
use lrzip_next.Rzip.Put.{put_literal}
use lrzip_next.Rzip.Search.{hash_search}
use lrzip_next.Rzip.Slice.{slice}
use lrzip_next.Rzip.Files.{
  mapped, no_memory, refused, FileControl, Chunk, byte_width, map_loop, rzip_fd,
}
use lrzip_next.Rzip.Files.Width.{byte_width-fits}
use lrzip_next.Rzip.Files.Retry.{MapsPage, map_loop-returns}
use lrzip_next.Rzip.Files.Stdin.{mmap_stdin, mmap_stdin-take}
use lrzip_next.Runzip.Files.{runzip_fd}
use lrzip_next.RoundTrip.Passes.{Works}
use lrzip_next.RoundTrip.Covers.{AllDelivered, handed_chunks}
use lrzip_next.RoundTrip.Files.{rzip_fd-returns, file-round_trip}
use lrzip_next.Tests.Base.{every_four, fresh}

abbrev small : FileControl
small = record {
  env = record {
    page_size = 4;
    maxram = 8;
    can_malloc = λ (n : ℕ). true;
    has_hash = true;
    crc = λ (xs : List ℕ). length xs % 2 ^ 32;
  };
  ramsize = 12;
  window = 0;
  unlimited = false;
  can_map = λ (n : ℕ). if ltb 8 n then no_memory else mapped;
  stream_bufsize = 4;
  st_size = 40;
}

small-MapsPage : MapsPage small
small-MapsPage = record {
  some_page = omega arith;
  page = refl;
  memory_only = λ n e. answers (ltb 8 n) e;
}
  where
    answers : (b : Bool) → (if b then no_memory else mapped) ≢ refused
    answers true e = cc
    answers false e = cc

small-maps : (n : ℕ) → (n ≤ 8) ⊎ (n ≡ 4) → (if ltb 8 n then no_memory else mapped) ≡ mapped
small-maps n h =
    let z : ltb 8 n ≡ false = elim h [ inl le ↦ ground (arith, le) | inr e ↦ ground (arith, e) ] in
    rw z refl

small-Works : Works small
unfolding round_to_page
small-Works = record {
  some_page = omega arith;
  whole = omega arith;
  maps = λ n h. small-maps n h;
  grants = (refl, λ n le. refl);
  buffers = omega arith;
  has_hash = refl;
  small = omega arith;
  crc32 = λ xs. mod-lt (length xs) (omega arith);
}

abbrev number_of : Result (List Chunk × Option (List ℕ)) → ℕ
number_of (ok (cs, h)) = length cs
number_of (err e) = 0

five_chunks : number_of (rzip_fd small (λ xs. xs) every_four fresh) ≡ 5
unfolding rzip_fd round_to_page hash_search put_literal
five_chunks = refl

abbrev compressed :
    (cs : List Chunk) × (rzip_fd small (λ xs. xs) every_four fresh
      ≡ ok (cs, some (slice every_four 0 40)))
    × AllDelivered 0 cs (handed_chunks cs)
compressed = rzip_fd-returns small every_four small-Works (λ xs. xs) fresh 0

file-round_trip_example :
    runzip_fd
      (λ xs. length xs % 2 ^ 32)
      (λ xs. xs)
      16
      true
      0
      (handed_chunks compressed.0)
      (some (slice every_four 0 40))
    ≡ ok (40, slice every_four 0 40)
file-round_trip_example =
    file-round_trip small every_four small-Works (λ xs. xs) fresh 16 true 0 compressed.0
      (some (slice every_four 0 40)) (handed_chunks compressed.0) (inr refl) compressed.1
      compressed.2

byte_width-fits_example :
    (1000 < 256 ^ byte_width 1000)
    × (1 ≤ byte_width 1000)
    × ((byte_width 1000 ≡ 1) ⊎ (256 ^ (byte_width 1000 - 1) ≤ 1000))
byte_width-fits_example = byte_width-fits 1000 (omega arith)

map_loop-returns_example :
    (m : ℕ) × (map_loop 22 small 20 ≡ ok m) × ((if ltb 8 m then no_memory else mapped) ≡ mapped)
map_loop-returns_example = map_loop-returns small small-MapsPage 22 20 (omega arith)

-- Never more than three bytes at once.
mmap_stdin-take_example :
    mmap_stdin (λ n left. min n 3) 5 (1 ∷ 2 ∷ 3 ∷ 4 ∷ [])
    ≡ record { rest = []; got = 1 ∷ 2 ∷ 3 ∷ 4 ∷ []; eof = true }
mmap_stdin-take_example =
    mmap_stdin-take (λ n left. min n 3) (λ n left lo some_left. (omega (arith, lo), omega arith)) 5
      (1 ∷ 2 ∷ 3 ∷ 4 ∷ [])
