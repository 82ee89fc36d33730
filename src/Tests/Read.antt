-- ===== src/Tests/Read.antt =====
-- The reading side, src/runzip.c and the second half of src/stream.c, at concrete inputs.
use lrzip_next.Common.{ℕ, ◌+◌, ◌≡◌, refl, arith, true, false, some}
use lrzip_next.Common.{[], ◌∷◌, length, flatten}
use lrzip_next.Bytes.{le_bytes}
use lrzip_next.Stream.In.{Chan, read_stream}
use lrzip_next.Stream.In.Laws.{Good, read_stream-Good}
use lrzip_next.Rzip.Put.Token.{copy_back}
use lrzip_next.Runzip.{Runzip, ok, err, fatal, token_loop, unzip_chunk, repeat_loop}
use lrzip_next.Runzip.Copy.{Copied, repeat_loop-Copied}
use lrzip_next.Runzip.Rounds.{Ran}
use lrzip_next.Runzip.Laws.{token_loop-Ran}
use lrzip_next.Runzip.Chunk.{Unzipped, unzip_chunk-hashed, unzip_chunk-summed, unzip_chunk-refused}
use lrzip_next.Tests.Base.{two_tokens, archive}

abbrev channel : Chan
channel = record { buf = 9 ∷ 1 ∷ []; bufp = 1; blocks = (2 ∷ 3 ∷ []) ∷ (4 ∷ []) ∷ [] }

read_stream-Good_example :
    (s' : Chan) × (read_stream channel 3 ≡ some (1 ∷ 2 ∷ 3 ∷ [], s')) × Good s' (4 ∷ [])
unfolding flatten
read_stream-Good_example =
    read_stream-Good channel (1 ∷ 2 ∷ 3 ∷ []) (4 ∷ [])
      (record { inside = omega arith; dense = (omega arith, tt); holds = refl })

repeat_loop-Copied_example :
    Copied false
      (record (archive 5) { out = 1 ∷ 2 ∷ [] })
      (repeat_loop 5 false (record (archive 5) { out = 1 ∷ 2 ∷ [] }) (1 ∷ 2 ∷ []) 2 5)
      2
      5
repeat_loop-Copied_example =
    repeat_loop-Copied 5 false (record (archive 5) { out = 1 ∷ 2 ∷ [] }) (1 ∷ 2 ∷ []) 2 5
      (omega arith) (omega arith) (omega arith) refl

archive-Good0 :
    (cksum : ℕ)
    → Good (archive cksum).s0 (0 ∷ 2 ∷ 0 ∷ 1 ∷ 3 ∷ 0 ∷ 2 ∷ 0 ∷ 0 ∷ 0 ∷ cksum ∷ 0 ∷ 0 ∷ 0 ∷ [])
unfolding flatten
archive-Good0 cksum = record { inside = omega arith; dense = (omega arith, tt); holds = refl }

archive-Good1 : (cksum : ℕ) → Good (archive cksum).s1 (1 ∷ 2 ∷ [])
unfolding flatten
archive-Good1 cksum = record { inside = omega arith; dense = tt; holds = refl }

token_loop-Ran_example :
    (r' : Runzip) × (token_loop 9 true (archive 5) 1 0 ≡ ok (0 + 5, r'))
    × Ran true (archive 5) r' two_tokens (5 ∷ 0 ∷ 0 ∷ 0 ∷ []) []
unfolding le_bytes
token_loop-Ran_example =
    token_loop-Ran true 1 two_tokens 9 0 0 (archive 5) (5 ∷ 0 ∷ 0 ∷ 0 ∷ []) [] (omega arith)
      (
        (omega arith, omega arith),
        ((omega arith, omega arith, omega arith, omega arith, omega arith), tt),
      )
      (omega arith) (omega arith) (archive-Good0 5) (archive-Good1 5)

unzip_chunk-hashed_example :
    (r' : Runzip) × (unzip_chunk length true (archive 6) 1 ≡ ok (5, r'))
    × Unzipped true (archive 6) r' (1 ∷ 2 ∷ 1 ∷ 2 ∷ 1 ∷ [])
unfolding le_bytes copy_back
unzip_chunk-hashed_example =
    unzip_chunk-hashed length 1 two_tokens (archive 6) 6 [] [] (1 ∷ 2 ∷ 1 ∷ 2 ∷ 1 ∷ [])
      (
        (omega arith, omega arith),
        ((omega arith, omega arith, omega arith, omega arith, omega arith), tt),
      )
      (omega arith) (omega arith) (archive-Good0 6) (archive-Good1 6) refl

unzip_chunk-summed_example :
    (r' : Runzip) × (unzip_chunk length false (archive 5) 1 ≡ ok (5, r'))
    × Unzipped false (archive 5) r' (1 ∷ 2 ∷ 1 ∷ 2 ∷ 1 ∷ [])
unfolding le_bytes copy_back
unzip_chunk-summed_example =
    unzip_chunk-summed length 1 two_tokens (archive 5) 5 [] [] (1 ∷ 2 ∷ 1 ∷ 2 ∷ 1 ∷ [])
      (
        (omega arith, omega arith),
        ((omega arith, omega arith, omega arith, omega arith, omega arith), tt),
      )
      (omega arith) (omega arith) (archive-Good0 5) (archive-Good1 5) refl refl

unzip_chunk-refused_example : unzip_chunk length false (archive 6) 1 ≡ err fatal
unfolding le_bytes copy_back
unzip_chunk-refused_example =
    unzip_chunk-refused length 1 two_tokens (archive 6) 6 [] [] (1 ∷ 2 ∷ 1 ∷ 2 ∷ 1 ∷ [])
      (
        (omega arith, omega arith),
        ((omega arith, omega arith, omega arith, omega arith, omega arith), tt),
      )
      (omega arith) (omega arith) (archive-Good0 6) (archive-Good1 6) refl
      (λ e. absurd (omega (arith, e)))
