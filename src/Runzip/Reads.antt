-- ===== src/Runzip/Reads.antt =====
-- What each read of src/runzip.c returns when its bytes are on the stream.
use lrzip_next.Common.{ℕ, ◌+◌, ◌-◌, ◌*◌, ◌^◌, ◌≤◌, ◌<◌, min, ◌≡◌, refl, sym, ap, ◌∙◌, arith}
use lrzip_next.Common.{Bool, true, not, ltb, ◌==◌}
use lrzip_next.Common.{List, [], ◌∷◌, ◌++◌, length, take}
use lrzip_next.Bytes.{le_bytes, of_le, length-le_bytes, of_le-le_bytes}
use lrzip_next.Stream.In.{Chan}
use lrzip_next.Stream.In.Laws.{Good, read_stream-Good}
use lrzip_next.Runzip.{Runzip, ok, read_exact, read_u8}
use lrzip_next.Runzip.{read_u32, read_vchars, read_header, write_out, unzip_literal, unzip_match}
use lrzip_next.Runzip.{repeat_loop, ◌>>=◌}
use lrzip_next.Runzip.Copy.{back}

pub read_exact-Good :
    (r : Runzip) (n : ℕ) (xs rest : List ℕ)
    → n ≡ length xs
    → Good r.s0 (xs ++ rest)
    → (s : Chan) × (read_exact r n ≡ ok (xs, record r { s0 = s })) × Good s rest
unfolding read_exact
read_exact-Good r n xs rest l h =
    let (s, e, g) = read_stream-Good r.s0 xs rest h in
    let t : (length xs == length xs) ≡ true = ground arith in
    (s, ap (read_exact r) l ∙ rw (e, read_exact) (rw (t, read_exact)), g)

pub read_vchars-Good :
    (r : Runzip) (n v : ℕ) (rest : List ℕ)
    → v < 256 ^ n
    → Good r.s0 (le_bytes n v ++ rest)
    → (s : Chan) × (read_vchars r n ≡ ok (v, record r { s0 = s })) × Good s rest
unfolding read_vchars
read_vchars-Good r n v rest lt h =
    let (s, e, g) = read_exact-Good r n (le_bytes n v) rest (sym (length-le_bytes n v)) h in
    (
      s,
      ap (λ m. m >>= λ p. ok (of_le p.0, p.1)) e
          ∙ ap (λ k. ok (k, record r { s0 = s })) (of_le-le_bytes n v lt),
      g,
    )

pub read_u32-Good :
    (r : Runzip) (v : ℕ) (rest : List ℕ)
    → v < 2 ^ 32
    → Good r.s0 (le_bytes 4 v ++ rest)
    → (s : Chan) × (read_u32 r ≡ ok (v, record r { s0 = s })) × Good s rest
unfolding read_u32 read_vchars
read_u32-Good r v rest lt h = read_vchars-Good r 4 v rest lt h

pub read_header-Good :
    (r : Runzip) (head len : ℕ) (rest : List ℕ)
    → len < 256 ^ 2
    → Good r.s0 ((head ∷ le_bytes 2 len) ++ rest)
    → (s : Chan) × (read_header r ≡ ok (head, len, record r { s0 = s })) × Good s rest
unfolding read_header read_u8 of_le
read_header-Good r head len rest lt h =
    let (s, e, g) = read_exact-Good r 1 (head ∷ []) (le_bytes 2 len ++ rest) refl h in
    let (s', e', g') = read_vchars-Good (record r { s0 = s }) 2 len rest lt g in
    (
      s',
      rw (e, read_header)
          (rw (e', read_header)
            (ap (λ k. ok (k, len, record r { s0 = s' }))
              (let z : head + 256 * 0 ≡ head = omega arith in z))),
      g',
    )

pub unzip_literal-Good :
    (has_hash : Bool) (r : Runzip) (bs rest : List ℕ)
    → Good r.s1 (bs ++ rest)
    → (s : Chan) × (unzip_literal has_hash r (length bs)
        ≡ ok (length bs, write_out has_hash (record r { s1 = s }) bs))
      × Good s rest
unfolding unzip_literal
unzip_literal-Good has_hash r bs rest h =
    let (s, e, g) = read_stream-Good r.s1 bs rest h in (s, rw (e, unzip_literal), g)

pub unzip_match-Good :
    (has_hash : Bool) (r : Runzip) (ofs len cb : ℕ) (rest : List ℕ)
    → 0 < len
    → 0 < ofs
    → ofs ≤ length r.out
    → ofs < 256 ^ cb
    → ofs < 2 ^ 63
    → Good r.s0 (le_bytes cb ofs ++ rest)
    → (s : Chan) × (unzip_match has_hash r len cb
        ≡ ok (
          len,
          repeat_loop len has_hash
              (record r { s0 = s })
              (take (min len ofs) (back ofs r.out))
              ofs
              len,
        ))
      × Good s rest
unfolding unzip_match
unzip_match-Good has_hash r ofs len cb rest l o le fit small h =
    let (s, e, g) = read_vchars-Good r cb ofs rest fit h in
    let a : not (ofs == 2 ^ 64 - 1) ≡ true = ground arith in
    let b : ltb ofs (2 ^ 63) ≡ true = ground arith in
    let c : not (ltb (length r.out) ofs) ≡ true = ground arith in
    let d : ltb 0 (min len ofs) ≡ true = ground arith in
    (
      s,
      rw (e, unzip_match)
          (rw (a, unzip_match) (rw (b, unzip_match) (rw (c, unzip_match) (rw (d, unzip_match))))),
      g,
    )
