-- ===== src/Stream/In/Laws.antt =====
-- `read_stream` returns the bytes of the stream in order.
use lrzip_next.Common.{ℕ, zero, suc, ◌+◌, ◌-◌, ◌≤◌, ◌<◌, min, ◌≡◌, refl, sym, ap, ◌∙◌, ◌⊎◌, arith}
use lrzip_next.Common.{true, false, ◌&&◌, ltb, ◌==◌, Bool-cases, inl, inr, subst, flatten}
use lrzip_next.Common.{List, [], ◌∷◌, ◌++◌, length, take, drop, some, append_assoc}
use lrzip_next.Common.{length-append, length-drop, append-nil}
use lrzip_next.Common.{ltb→lt, ltb→ge, take-all, append_front, drop-drop}
use lrzip_next.Common.{take-append_length}
use lrzip_next.Stream.In.{Chan, Read, fill_buffer, read_more, read_loop, read_stream}

-- What is still to be read.
abbrev pub unread : Chan → List ℕ
unread s = drop s.bufp s.buf ++ flatten s.blocks

-- Only the last block of a stream may be empty.
abbrev pub IsDense : List (List ℕ) → Type 0
IsDense [] = Unit {0}
IsDense (b ∷ []) = Unit {0}
IsDense (b ∷ c ∷ bs) = (0 < length b) × IsDense (c ∷ bs)

pub record Good (s : Chan) (xs : List ℕ) : Type 0 where
  pub inside : s.bufp ≤ length s.buf
  pub dense : IsDense s.blocks
  pub holds : unread s ≡ xs

IsDense-tail : (b : List ℕ) (bs : List (List ℕ)) → IsDense (b ∷ bs) → IsDense bs
IsDense-tail b [] h = tt
IsDense-tail b (c ∷ bs) h = h.1

-- With something left to read, the next block has a byte.
next_block :
    (b : List ℕ) (bs : List (List ℕ))
    → IsDense (b ∷ bs)
    → 0 < length (flatten (b ∷ bs))
    → 0 < length b
unfolding flatten
next_block b [] h lt = omega (arith, length-append b [])
next_block b (c ∷ bs) h lt = h.0

read_loop-zero : (fuel : ℕ) (s : Chan) (got : List ℕ) → read_loop fuel s 0 got ≡ some (got, s)
unfolding read_loop
read_loop-zero zero s got = refl
read_loop-zero (suc fuel) s got = refl

read_more_done :
    (again : Chan → ℕ → List ℕ → Read) (s : Chan) (left : ℕ) (got : List ℕ)
    → left ≡ 0
    → read_more again s left got ≡ again s left got
unfolding read_more
read_more_done again s left got e =
    let t : (ltb 0 left && (s.bufp == length s.buf)) ≡ false = ground arith in rw (t, read_more)

read_more_fill :
    (again : Chan → ℕ → List ℕ → Read) (s : Chan) (left : ℕ) (got b : List ℕ) (bs : List (List ℕ))
    → 0 < left
    → s.bufp ≡ length s.buf
    → s.blocks ≡ b ∷ bs
    → 0 < length b
    → read_more again s left got ≡ again (record { buf = b; bufp = 0; blocks = bs }) left got
unfolding read_more fill_buffer
read_more_fill again s left got b bs lo all e lt =
    let t : (ltb 0 left && (s.bufp == length s.buf)) ≡ true = ground arith in
    let z : (0 == length b) ≡ false = ground arith in
    rw (t, read_more) (rw (e, fill_buffer) (rw (z, read_more)))

-- The buffer has enough: the reading ends there.
read_enough :
    (fuel len : ℕ) (s : Chan) (got : List ℕ)
    → suc len ≤ length s.buf - s.bufp
    → read_loop (suc fuel) s (suc len) got
      ≡ some (got ++ take (suc len) (drop s.bufp s.buf), record s { bufp = s.bufp + suc len })
unfolding read_loop
read_enough fuel len s got h =
    let n : min (length s.buf - s.bufp) (suc len) ≡ suc len = omega arith in
    let z : suc len - suc len ≡ 0 = omega arith in
    rw (n, z) (read_more_done (read_loop fuel) _ 0 _ refl ∙ read_loop-zero fuel _ _)

-- The buffer runs out, and the next block has a byte: the reading goes on there.
read_on :
    (fuel len : ℕ) (s : Chan) (b : List ℕ) (bs : List (List ℕ)) (got : List ℕ)
    → s.bufp ≤ length s.buf
    → length s.buf - s.bufp < suc len
    → s.blocks ≡ b ∷ bs
    → 0 < length b
    → read_loop (suc fuel) s (suc len) got
      ≡ read_loop fuel
          (record { buf = b; bufp = 0; blocks = bs })
          (suc len - (length s.buf - s.bufp))
          (got ++ drop s.bufp s.buf)
unfolding read_loop
read_on fuel len s b bs got i h e lt =
    let m = length s.buf - s.bufp in
    let n : min (length s.buf - s.bufp) (suc len) ≡ m = omega arith in
    let all : take m (drop s.bufp s.buf) ≡ drop s.bufp s.buf =
      take-all m _ (omega (arith, length-drop s.bufp s.buf)) in
    rw (n, all)
      (read_more_fill (read_loop fuel) _ (suc len - m) _ b bs (omega arith) (omega arith) e lt)

abbrev Reads : ℕ → ℕ → Chan → List ℕ → List ℕ → List ℕ → Type 0
Reads fuel len s xs rest got =
    (s' : Chan) × (read_loop fuel s len got ≡ some (got ++ xs, s')) × Good s' rest

module _ (len : ℕ) (s : Chan) (xs rest got : List ℕ) (l : suc len ≡ length xs)
    (h : Good s (xs ++ rest)) where
  abbrev here : List ℕ
  here = drop s.bufp s.buf

  size : length here ≡ length s.buf - s.bufp
  size = length-drop s.bufp s.buf

  read_here :
      (fuel : ℕ) → suc len ≤ length s.buf - s.bufp → Reads (suc fuel) (suc len) s xs rest got
  read_here fuel le =
      let (front, back) =
        append_front xs rest here (flatten s.blocks) (sym h.holds) (omega (arith, size, l)) in
      (
        record s { bufp = s.bufp + suc len },
        read_enough fuel len s got le
            ∙ ap (λ r. some (got ++ r, record s { bufp = s.bufp + suc len }))
                (ap (λ k. take k here) l
                  ∙ ap (take (length xs)) (sym front)
                  ∙ take-append_length xs (drop (length xs) here)),
        record {
          inside = omega arith;
          dense = h.dense;
          holds =
              ap (λ r. r ++ flatten s.blocks)
                (drop-drop s.bufp (suc len) s.buf ∙ ap (λ k. drop k here) l)
              ∙ sym back;
        },
      )

  -- The rest of the reading is on the next block.
  read_beyond :
      (fuel : ℕ) (bs : List (List ℕ))
      → ((s' : Chan) (ys : List ℕ)
          → suc len - (length s.buf - s.bufp) ≡ length ys
          → s'.bufp < length s'.buf
          → Good s' (ys ++ rest)
          → Reads fuel (suc len - (length s.buf - s.bufp)) s' ys rest (got ++ here))
      → s.blocks ≡ bs
      → length s.buf - s.bufp < suc len
      → Reads (suc fuel) (suc len) s xs rest got
  unfolding flatten
  read_beyond fuel [] ih e lt =
      let whole : length (here ++ []) ≡ length (xs ++ rest) =
        ap length (sym (ap (λ r. here ++ flatten r) e) ∙ h.holds) in
      absurd (omega (arith, whole, length-append here [], length-append xs rest, size, l))
  read_beyond fuel (b ∷ bs) ih e lt =
      let (front, back) =
        append_front here (flatten (b ∷ bs)) xs rest (sym (ap (λ r. here ++ flatten r) e) ∙ h.holds)
          (omega (arith, size, l)) in
      let ys = drop (length here) xs in
      let dense : IsDense (b ∷ bs) = subst IsDense e h.dense in
      let byte : 0 < length b = next_block b bs dense (
        omega
          (arith, ap length back, length-append ys rest, length-drop (length here) xs, size, l)) in
      let (s', run, good) =
        ih (record { buf = b; bufp = 0; blocks = bs }) ys
          (omega (arith, length-drop (length here) xs, size, l)) byte
          (record { inside = omega arith; dense = IsDense-tail b bs dense; holds = back }) in
      (
        s',
        read_on fuel len s b bs got h.inside lt e byte
            ∙ run
            ∙ ap (λ r. some (r, s')) (append_assoc got here ys ∙ ap (λ r. got ++ r) front),
        good,
      )

fuel_left :
    (fuel len p n : ℕ) → (len < suc fuel) ⊎ (len ≤ suc fuel) × (p < n) → len - (n - p) ≤ fuel
fuel_left fuel len p n (inl h) = omega arith
fuel_left fuel len p n (inr h) = omega (arith, h.0, h.1)

-- A read of `xs` that is there: the result is `xs`, and the rest stays. Each round but one on an
-- empty buffer takes a byte.
read_loop-Good :
    (fuel len : ℕ) (s : Chan) (xs rest got : List ℕ)
    → len ≡ length xs
    → (len < fuel) ⊎ (len ≤ fuel) × (s.bufp < length s.buf)
    → Good s (xs ++ rest)
    → (s' : Chan) × (read_loop fuel s len got ≡ some (got ++ xs, s')) × Good s' rest
read_loop-Good fuel zero s [] rest got l f h =
    (s, read_loop-zero fuel s got ∙ ap (λ r. some (r, s)) (sym (append-nil got)), h)
read_loop-Good fuel zero s (x ∷ xs) rest got l f h = absurd (omega arith)
read_loop-Good zero (suc len) s xs rest got l f h = absurd (omega arith)
read_loop-Good (suc fuel) (suc len) s xs rest got l f h =
    elim (Bool-cases (ltb (length s.buf - s.bufp) (suc len))) [
      | inr enough ↦
          read_here len s xs rest got l h fuel (ltb→ge (length s.buf - s.bufp) (suc len) enough)
      | inl less ↦
          let lt = ltb→lt (length s.buf - s.bufp) (suc len) less in
          read_beyond len s xs rest got l h fuel s.blocks
            (λ s' ys k room g.
              read_loop-Good fuel (suc len - (length s.buf - s.bufp)) s' ys rest
                (got ++ drop s.bufp s.buf) k (inr (fuel_left fuel (suc len) _ _ f, room)) g)
            refl lt
    ]

-- Where no block but the last is empty and the stream has as many bytes, `read_stream` returns the
-- next ones, and the rest stays.
pub read_stream-Good :
    (s : Chan) (xs rest : List ℕ)
    → Good s (xs ++ rest)
    → (s' : Chan) × (read_stream s (length xs) ≡ some (xs, s')) × Good s' rest
unfolding read_stream
read_stream-Good s xs rest h =
    read_loop-Good (suc (length xs)) (length xs) s xs rest [] refl (inl (omega arith)) h
