-- ===== src/Tests/Write.antt =====
-- The writing side, src/rzip.c and the first half of src/stream.c, at concrete inputs.
use lrzip_next.Common.{ℕ, ◌+◌, ◌-◌, ◌*◌, ◌≤◌, ◌≡◌, refl, arith, true, false, inr, some}
use lrzip_next.Common.{List, [], ◌∷◌}
use lrzip_next.Bytes.{le_bytes, of_le, of_le-le_bytes}
use lrzip_next.Stream.Out.{stream0, stream1, write_stream, close_stream_out}
use lrzip_next.Stream.Out.Laws.{Holds, joined, write_stream-Holds}
use lrzip_next.Rzip.State.{RzipState}
use lrzip_next.Rzip.Put.{put_literal, put_match}
use lrzip_next.Rzip.Put.Token.{Token}
use lrzip_next.Rzip.Put.Laws.{Encodes, put_literal-Encodes, put_match-Encodes}
use lrzip_next.Rzip.Match.{find_best_match}
use lrzip_next.Rzip.Match.Laws.{FoundOrNone, find_best_match-Found}
use lrzip_next.Rzip.Tag.{next_tag, full_tag}
use lrzip_next.Rzip.Tag.Laws.{next_tag-full_tag}
use lrzip_next.Rzip.Search.{hash_search, search_loop, start}
use lrzip_next.Rzip.Search.Inv.{Inv}
use lrzip_next.Rzip.Search.Ends.{search_loop-Inv}
use lrzip_next.Rzip.Search.Result.{Done, start-Inv}
use lrzip_next.Rzip.Search.Returns.{hash_search-encodes}
use lrzip_next.RoundTrip.{Restored, handed_chan, chunk-round_trip, handed_chan-Delivers}
use lrzip_next.Runzip.{Runzip}
use lrzip_next.Tests.Base.{every_four, streams, fresh, small_env, one_entry}
use lrzip_next.Tests.Base.{streams-Holds, fresh-Encodes}

abbrev searched :
    (st' : RzipState) × (hashed : List ℕ) × (ks : List Token) × (hash_search
        (small_env false)
        every_four
        fresh
        []
      ≡ some (st', hashed))
    × Done (small_env false) every_four 40 1 [] st' hashed ks
searched =
    hash_search-encodes (small_env false) every_four (refl, λ n le. refl) fresh [] (omega arith)
      streams-Holds

abbrev reader : Runzip
reader = record {
  s0 = handed_chan stream0 (close_stream_out searched.0.ss);
  s1 = handed_chan stream1 (close_stream_out searched.0.ss);
  out = 5 ∷ 6 ∷ [];
  summed = [];
  hashed = [];
}

chunk-round_trip_example :
    (r' : Runzip) × Restored (small_env false) every_four 40 1 [] reader searched.1 r'
chunk-round_trip_example =
    chunk-round_trip (small_env false) every_four 40 1 [] reader fresh searched.0 searched.1
      searched.3 refl refl (omega arith) (omega arith) (omega arith) streams-Holds
      (handed_chan-Delivers searched.0.ss searched.4.holds.valid) refl (inr refl)

hash_search-encodes_example :
    (st' : RzipState) × (hashed : List ℕ) × (ks : List Token) × (hash_search
        (small_env true)
        every_four
        fresh
        (9 ∷ [])
      ≡ some (st', hashed))
    × Done (small_env true) every_four 40 1 (9 ∷ []) st' hashed ks
hash_search-encodes_example =
    hash_search-encodes (small_env true) every_four (refl, λ n le. refl) fresh (9 ∷ [])
      (omega arith) streams-Holds

search_loop-Inv_example :
    Inv
      (small_env false)
      every_four
      40
      1
      []
      (search_loop (small_env false) every_four 100 (start (small_env false) every_four fresh []))
    × (40 - 31
        ≤ (search_loop
            (small_env false)
            every_four
            100
            (start (small_env false) every_four fresh [])).p)
unfolding start
search_loop-Inv_example =
    search_loop-Inv (small_env false) every_four 40 1 [] 100
      (start (small_env false) every_four fresh []) (omega arith) (omega arith)
      (start-Inv (small_env false) every_four 40 1 [] fresh refl refl streams-Holds)

find_best_match-Found_example :
    let best = find_best_match every_four one_entry 0 7 8 60 0 0 in
    FoundOrNone every_four 0 60 (8 - best.reverse) best.length best.offset
find_best_match-Found_example =
    find_best_match-Found every_four one_entry 0 7 8 60 0 0 (omega arith) (omega arith)

next_tag-full_tag_example :
    next_tag every_four (λ b. b * 7) (5 + 1) (full_tag every_four (λ b. b * 7) 5)
    ≡ full_tag every_four (λ b. b * 7) (5 + 1)
next_tag-full_tag_example = next_tag-full_tag every_four (λ b. b * 7) 5

abbrev with_four : RzipState
with_four = record fresh { ss = (put_literal every_four fresh 0 4).ss }

put_match-Encodes_example : Encodes every_four 1 (put_match with_four 4 0 36).ss (4 + 36)
put_match-Encodes_example =
    put_match-Encodes every_four with_four 4 0 36 (omega arith) (omega arith)
      (record { behind = omega arith; agree = λ i h. omega arith })
      (put_literal-Encodes every_four fresh 0 4 (omega arith) fresh-Encodes)

write_stream-Holds_example :
    Holds
      (write_stream streams stream1 (1 ∷ 2 ∷ 3 ∷ 4 ∷ 5 ∷ []))
      (joined stream1 stream0 [] (1 ∷ 2 ∷ 3 ∷ 4 ∷ 5 ∷ []))
      (joined stream1 stream1 [] (1 ∷ 2 ∷ 3 ∷ 4 ∷ 5 ∷ []))
write_stream-Holds_example =
    write_stream-Holds streams stream1 (1 ∷ 2 ∷ 3 ∷ 4 ∷ 5 ∷ []) [] [] streams-Holds

of_le-le_bytes_example : of_le (le_bytes 2 258) ≡ 258
of_le-le_bytes_example = of_le-le_bytes 2 258 (omega arith)
