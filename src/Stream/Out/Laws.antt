-- ===== src/Stream/Out/Laws.antt =====
-- What a stream being written holds: the bytes handed over in jobs, and those still in its buffer.
use lrzip_next.Common.{ℕ, zero, suc, ◌≤◌, ◌<◌, ◌≡◌, refl, sym, ap, ◌∙◌, arith, min}
use lrzip_next.Common.{List, [], ◌∷◌, ◌++◌, length, take, drop, All, flatten, ◌==◌, Bool-cases}
use lrzip_next.Common.{Bool, true, false, inl, inr, if◌then◌else◌, append-nil, append_assoc}
use lrzip_next.Common.{length-append, length-take, length-drop, take-append-drop, flatten-append}
use lrzip_next.Common.{==→eq}
use lrzip_next.Stream.Out.{
  StreamNo, stream0, stream1, Job, StreamInfo, buf, room, clear_buffer, flush_buffer, put_round,
  write_loop, write_stream, close_stream_out,
}

abbrev pub same : StreamNo → StreamNo → Bool
same stream0 stream0 = true
same stream1 stream1 = true
same _ _ = false

-- The blocks of one stream, in order.
unfoldable pub blocks_of : StreamNo → List Job → List (List ℕ)
blocks_of sn [] = []
blocks_of sn (j ∷ js) = if same sn j.streamno then j.s_buf ∷ blocks_of sn js else blocks_of sn js

pub blocks_of-append :
    (sn : StreamNo) (js ks : List Job)
    → blocks_of sn (js ++ ks) ≡ blocks_of sn js ++ blocks_of sn ks
unfolding blocks_of
blocks_of-append sn [] ks = refl
blocks_of-append sn (j ∷ js) ks = elim (Bool-cases (same sn j.streamno)) [
  | inl e ↦ rw e (ap (λ r. j.s_buf ∷ r) (blocks_of-append sn js ks))
  | inr e ↦ rw e (blocks_of-append sn js ks)
]

unfoldable pub written : StreamInfo → StreamNo → List ℕ
unfolding blocks_of
written ss sn = flatten (blocks_of sn ss.jobs) ++ buf ss sn

-- Every buffer has room, and every block handed over so far is a full one.
pub record IsValid (ss : StreamInfo) : Type 0 where
  pub room0 : length ss.s0 < ss.bufsize
  pub room1 : length ss.s1 < ss.bufsize
  pub full : All (λ (j : Job). length j.s_buf ≡ ss.bufsize) ss.jobs

-- `x` followed by `xs` on the stream that is written to, `x` alone on the other.
abbrev pub joined : StreamNo → StreamNo → List ℕ → List ℕ → List ℕ
joined stream0 stream0 x xs = x ++ xs
joined stream1 stream1 x xs = x ++ xs
joined _ _ x xs = x

-- The streams are valid, and hold these bytes.
pub record Holds (ss : StreamInfo) (x0 x1 : List ℕ) : Type 0 where
  pub valid : IsValid ss
  pub held0 : written ss stream0 ≡ x0
  pub held1 : written ss stream1 ≡ x1

All-append :
    (n : ℕ) (js ks : List Job)
    → All (λ (j : Job). length j.s_buf ≡ n) js
    → All (λ (j : Job). length j.s_buf ≡ n) ks
    → All (λ (j : Job). length j.s_buf ≡ n) (js ++ ks)
All-append n [] ks h k = k
All-append n (j ∷ js) ks h k = (h.0, All-append n js ks h.1 k)

flush_moves : (a : List (List ℕ)) (x : List ℕ) → flatten (a ++ (x ∷ [])) ++ [] ≡ flatten a ++ x
unfolding flatten
flush_moves a x = rw (append-nil, flatten-append, append-nil)

-- The bytes of a stream do not change when its buffer becomes a job.
written-flush :
    (sn : StreamNo) (ss : StreamInfo) (xs : List ℕ)
    → flatten (blocks_of sn (ss.jobs ++ (record { streamno = sn; s_buf = xs } ∷ []))) ++ []
      ≡ flatten (blocks_of sn ss.jobs) ++ xs
unfolding blocks_of
written-flush stream0 ss xs = rw blocks_of-append (flush_moves (blocks_of stream0 ss.jobs) xs)
written-flush stream1 ss xs = rw blocks_of-append (flush_moves (blocks_of stream1 ss.jobs) xs)

blocks_of-other0 :
    (js : List Job) (xs : List ℕ)
    → blocks_of stream1 (js ++ (record { streamno = stream0; s_buf = xs } ∷ []))
      ≡ blocks_of stream1 js
unfolding blocks_of
blocks_of-other0 js xs = rw blocks_of-append (append-nil (blocks_of stream1 js))

blocks_of-other1 :
    (js : List Job) (xs : List ℕ)
    → blocks_of stream0 (js ++ (record { streamno = stream1; s_buf = xs } ∷ []))
      ≡ blocks_of stream0 js
unfolding blocks_of
blocks_of-other1 js xs = rw blocks_of-append (append-nil (blocks_of stream0 js))

pub put_round-Holds :
    (ss : StreamInfo) (sn : StreamNo) (xs x0 x1 : List ℕ)
    → length xs ≤ room ss sn
    → Holds ss x0 x1
    → Holds (put_round ss sn xs) (joined sn stream0 x0 xs) (joined sn stream1 x1 xs)
unfolding put_round flush_buffer written
put_round-Holds ss stream0 xs x0 x1 fits h =
    elim (Bool-cases (length (ss.s0 ++ xs) == ss.bufsize)) [
      | inl e ↦ rw e (record {
        valid = record {
          room0 = omega (arith, h.valid.room0);
          room1 = h.valid.room1;
          full = All-append ss.bufsize ss.jobs _ h.valid.full (==→eq _ _ e, tt);
        };
        held0 =
            written-flush stream0 ss (ss.s0 ++ xs)
            ∙ sym (append_assoc (flatten (blocks_of stream0 ss.jobs)) ss.s0 xs)
            ∙ ap (λ r. r ++ xs) h.held0;
        held1 = rw blocks_of-other0 h.held1;
      })
      | inr e ↦ rw e (record {
        valid = record {
          room0 = ground (arith, length-append ss.s0 xs);
          room1 = h.valid.room1;
          full = h.valid.full;
        };
        held0 =
            sym (append_assoc (flatten (blocks_of stream0 ss.jobs)) ss.s0 xs)
            ∙ ap (λ r. r ++ xs) h.held0;
        held1 = h.held1;
      })
    ]
put_round-Holds ss stream1 xs x0 x1 fits h =
    elim (Bool-cases (length (ss.s1 ++ xs) == ss.bufsize)) [
      | inl e ↦ rw e (record {
        valid = record {
          room0 = h.valid.room0;
          room1 = omega (arith, h.valid.room1);
          full = All-append ss.bufsize ss.jobs _ h.valid.full (==→eq _ _ e, tt);
        };
        held0 = rw blocks_of-other1 h.held0;
        held1 =
            written-flush stream1 ss (ss.s1 ++ xs)
            ∙ sym (append_assoc (flatten (blocks_of stream1 ss.jobs)) ss.s1 xs)
            ∙ ap (λ r. r ++ xs) h.held1;
      })
      | inr e ↦ rw e (record {
        valid = record {
          room0 = h.valid.room0;
          room1 = ground (arith, length-append ss.s1 xs);
          full = h.valid.full;
        };
        held0 = h.held0;
        held1 =
            sym (append_assoc (flatten (blocks_of stream1 ss.jobs)) ss.s1 xs)
            ∙ ap (λ r. r ++ xs) h.held1;
      })
    ]

-- A valid stream has room for a byte, so a round of a copying loop takes one at least.
pub room_pos : (ss : StreamInfo) (sn : StreamNo) → IsValid ss → 0 < room ss sn
room_pos ss stream0 v = omega (arith, v.room0)
room_pos ss stream1 v = omega (arith, v.room1)

joined_step :
    (sn to : StreamNo) (x a b : List ℕ)
    → joined sn to (joined sn to x a) b ≡ joined sn to x (a ++ b)
joined_step stream0 stream0 x a b = append_assoc x a b
joined_step stream0 stream1 x a b = refl
joined_step stream1 stream0 x a b = refl
joined_step stream1 stream1 x a b = append_assoc x a b

joined-nil : (sn to : StreamNo) (x : List ℕ) → joined sn to x [] ≡ x
joined-nil stream0 stream0 x = append-nil x
joined-nil stream0 stream1 x = refl
joined-nil stream1 stream0 x = refl
joined-nil stream1 stream1 x = append-nil x

-- The copying loops of `write_stream` and `write_sbstream`, in one: a first part that fits, and the
-- rest.
pub Holds-step :
    (s : StreamInfo) (sn : StreamNo) (a b p x0 x1 : List ℕ)
    → a ++ b ≡ p
    → Holds s
        (joined sn stream0 (joined sn stream0 x0 a) b)
        (joined sn stream1 (joined sn stream1 x1 a) b)
    → Holds s (joined sn stream0 x0 p) (joined sn stream1 x1 p)
Holds-step s sn a b p x0 x1 e h =
    rw (← e) (rw (joined_step sn stream0 x0 a b, joined_step sn stream1 x1 a b) at h)

pub Holds-nil :
    (s : StreamInfo) (sn : StreamNo) (x0 x1 : List ℕ)
    → Holds s x0 x1
    → Holds s (joined sn stream0 x0 []) (joined sn stream1 x1 [])
Holds-nil s sn x0 x1 h = rw (joined-nil sn stream0 x0, joined-nil sn stream1 x1) h

write_loop-Holds :
    (fuel : ℕ) (ss : StreamInfo) (sn : StreamNo) (p x0 x1 : List ℕ)
    → length p ≤ fuel
    → Holds ss x0 x1
    → Holds (write_loop fuel ss sn p) (joined sn stream0 x0 p) (joined sn stream1 x1 p)
unfolding write_loop
write_loop-Holds zero ss sn [] x0 x1 e h = Holds-nil ss sn x0 x1 h
write_loop-Holds zero ss sn (x ∷ xs) x0 x1 e h = absurd (omega arith)
write_loop-Holds (suc fuel) ss sn [] x0 x1 e h = Holds-nil ss sn x0 x1 h
write_loop-Holds (suc fuel) ss sn (x ∷ xs) x0 x1 e h =
    let n = min (room ss sn) (length (x ∷ xs)) in
    Holds-step _ sn (take n (x ∷ xs)) (drop n (x ∷ xs)) (x ∷ xs) x0 x1 (take-append-drop n (x ∷ xs))
      (write_loop-Holds fuel (put_round ss sn (take n (x ∷ xs))) sn (drop n (x ∷ xs)) _ _
        (omega (arith, length-drop n (x ∷ xs), room_pos ss sn h.valid))
        (put_round-Holds ss sn (take n (x ∷ xs)) x0 x1 (omega (arith, length-take n (x ∷ xs))) h))

-- `write_stream` appends exactly the bytes that it is given to its stream, leaves the other alone,
-- hands over full blocks only, and keeps room in both buffers.
pub write_stream-Holds :
    (ss : StreamInfo) (sn : StreamNo) (p x0 x1 : List ℕ)
    → Holds ss x0 x1
    → Holds (write_stream ss sn p) (joined sn stream0 x0 p) (joined sn stream1 x1 p)
unfolding write_stream
write_stream-Holds ss sn p x0 x1 h = write_loop-Holds (length p) ss sn p x0 x1 (omega arith) h

-- After `close_stream_out` the blocks of each stream make up all that was written to it.
pub blocks-close_stream_out :
    (ss : StreamInfo) (sn : StreamNo)
    → flatten (blocks_of sn (close_stream_out ss).jobs) ≡ written ss sn
unfolding close_stream_out written
blocks-close_stream_out ss stream0 =
    rw blocks_of-other1 (sym (append-nil _) ∙ written-flush stream0 ss ss.s0)
blocks-close_stream_out ss stream1 =
    sym (append-nil _)
    ∙ written-flush stream1 (clear_buffer ss stream0 false) ss.s1
    ∙ rw blocks_of-other0
