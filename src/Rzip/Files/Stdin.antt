-- ===== src/Rzip/Files/Stdin.antt =====
-- `mmap_stdin` of src/rzip.c: a chunk is read from standard input, in pieces of what `read` returns.
use lrzip_next.Common.{ℕ, zero, suc, ◌+◌, ◌-◌, ◌*◌, ◌≤◌, ◌<◌, ◌≡◌, min, refl, sym, ap, ◌∙◌, arith}
use lrzip_next.Common.{Bool, true, false, ltb, ◌==◌}
use lrzip_next.Common.{
  List, [], ◌∷◌, ◌++◌, length, take, drop, length-drop, append_assoc, append-nil, drop-drop,
}

abbrev one_g : ℕ
one_g = 1000 * 1_048_576

-- What is left of the input, the bytes that were read, and whether there was an end.
pub record StdinRead : Type 0 where
  pub rest : List ℕ
  pub got : List ℕ
  pub eof : Bool

same_read :
    {r r' g g' : List ℕ} {e e' : Bool}
    → r ≡ r'
    → g ≡ g'
    → e ≡ e'
    → ◌≡◌ {A = StdinRead}
        (record { rest = r; got = g; eof = e })
        (record { rest = r'; got = g'; eof = e' })
same_read p q s i = record { rest = p i; got = q i; eof = s i }

take-add : (a n : ℕ) (xs : List ℕ) → take (a + n) xs ≡ take a xs ++ take n (drop a xs)
take-add zero n xs = ap (λ k. take k xs) (let z : 0 + n ≡ n = omega arith in z)
take-add (suc a) n [] =
    ap (λ k. take k []) (let z : suc a + n ≡ suc (a + n) = omega arith in z) ∙ sym (take-nil n)
  where
    take-nil : (k : ℕ) → take {A = ℕ} k [] ≡ []
    take-nil zero = refl
    take-nil (suc k) = refl
take-add (suc a) n (x ∷ xs) =
    ap (λ k. take k (x ∷ xs)) (let z : suc a + n ≡ suc (a + n) = omega arith in z)
    ∙ ap (λ r. x ∷ r) (take-add a n xs)

shorter :
    (n len : ℕ) (xs : List ℕ)
    → n ≤ len
    → n ≤ length xs
    → ltb (length (drop n xs)) (len - n) ≡ ltb (length xs) len
shorter n len xs hi le = ground (arith, length-drop n xs, hi, le)

-- `read` asked for so many bytes, with so many left: how many it returns.
module _ (piece : ℕ → ℕ → ℕ) where
  -- At the end it returns 0.
  abbrev pub read_stdin : ℕ → List ℕ → ℕ
  read_stdin n [] = 0
  read_stdin n (x ∷ xs) = min (piece n (length (x ∷ xs))) (length (x ∷ xs))

  -- `while (len > 0)`, on fuel.
  unfoldable pub stdin_loop : ℕ → ℕ → List ℕ → List ℕ → StdinRead
  stdin_loop zero len input got = record { rest = input; got = got; eof = false }
  stdin_loop (suc fuel) len input got =
      let ret = read_stdin (min len one_g) input in
      elim (len == 0) [
        | true ↦ record { rest = input; got = got; eof = false }
        | false ↦ elim (ret == 0) [
          | true ↦ record { rest = input; got = got; eof = true }
          | false ↦ stdin_loop fuel (len - ret) (drop ret input) (got ++ take ret input)
        ]
      ]

  -- The chunk: its size is that of the bytes, where the input ends before it is full.
  unfoldable pub mmap_stdin : ℕ → List ℕ → StdinRead
  unfolding stdin_loop
  mmap_stdin chunk_size input = stdin_loop (suc chunk_size) chunk_size input []

  -- `read` returns some bytes where there are some, and no more than it is asked for.
  abbrev pub Reads : Type 0
  Reads = (n left : ℕ) → 0 < n → 0 < left → (0 < piece n left) × (piece n left ≤ n)

  module _ (reads : Reads) where
    loop-take :
        (fuel len : ℕ) (input got : List ℕ)
        → len < fuel
        → stdin_loop fuel len input got ≡ record {
          rest = drop len input;
          got = got ++ take len input;
          eof = ltb (length input) len;
        }
    unfolding stdin_loop
    loop-take zero len input got lt = absurd (omega (arith, lt))
    loop-take (suc fuel) zero input got lt =
        same_read refl (sym (append-nil got))
          (let z : ltb (length input) 0 ≡ false = ground arith in sym z)
    loop-take (suc fuel) (suc len) [] got lt =
        let some_left : (suc len == 0) ≡ false = ground arith in
        let full : ltb 0 (suc len) ≡ true = ground arith in
        rw (some_left, stdin_loop)
          (same_read {r = []} {r' = []} {g = got} {g' = got ++ []} {e = true} {e' = ltb 0 (suc len)}
            refl (sym (append-nil got)) (sym full))
    loop-take (suc fuel) (suc len) (x ∷ xs) got lt =
        let (some_bytes, asked) =
          reads (min (suc len) one_g) (length (x ∷ xs)) (omega arith) (omega arith) in
        let ret = min (piece (min (suc len) one_g) (length (x ∷ xs))) (length (x ∷ xs)) in
        let lo : 0 < ret = omega (arith, some_bytes) in
        let hi : ret ≤ suc len = omega (arith, asked) in
        let z : (ret == 0) ≡ false = ground (arith, lo) in
        let whole : ret + (suc len - ret) ≡ suc len = omega (arith, hi) in
        let some_left : (suc len == 0) ≡ false = ground arith in
        rw (some_left, stdin_loop)
          (rw z (
            loop-take fuel (suc len - ret) (drop ret (x ∷ xs)) (got ++ take ret (x ∷ xs))
              (omega (arith, lt, lo, hi))
            ∙ same_read
                (sym (drop-drop ret (suc len - ret) (x ∷ xs)) ∙ ap (λ k. drop k (x ∷ xs)) whole)
                (append_assoc got (take ret (x ∷ xs)) (take (suc len - ret) (drop ret (x ∷ xs)))
                  ∙ ap (λ ys. got ++ ys)
                      (sym (take-add ret (suc len - ret) (x ∷ xs))
                        ∙ ap (λ k. take k (x ∷ xs)) whole))
                (shorter ret (suc len) (x ∷ xs) hi (omega arith))))

    -- Where `read` returns some bytes while there are some, and no more than it is asked for: a chunk has
    -- the first bytes of the input, as many as there are up to its size, the others are left, and the
    -- end is seen where there are fewer.
    pub mmap_stdin-take :
        (chunk_size : ℕ) (input : List ℕ)
        → mmap_stdin chunk_size input ≡ record {
          rest = drop chunk_size input;
          got = take chunk_size input;
          eof = ltb (length input) chunk_size;
        }
    unfolding mmap_stdin
    mmap_stdin-take chunk_size input = loop-take (suc chunk_size) chunk_size input [] (omega arith)
