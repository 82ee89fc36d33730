-- ===== src/Magic/Whole.antt =====
-- The magic header of src/lrzip.c as a whole: what `write_magic` writes is what `read_magic` reads.
use lrzip_next.Common.{ℕ, ◌+◌, ◌*◌, ◌/◌, ◌%◌, ◌^◌, ◌≤◌, ◌<◌, ◌≡◌, refl, sym, ap, ap₂, ◌∙◌, arith}
use lrzip_next.Common.{true, false, ltb, leb, ◌==◌, ◌&&◌, if◌then◌else◌, ◌⊎◌, inl, inr, Bool-cases}
use lrzip_next.Common.{
  List, [], ◌∷◌, ◌++◌, length, take, drop, get_or, replicate, length-append, take-append_length,
  drop-append_length,
}
use lrzip_next.Bytes.{le_bytes, of_le, of_le-le_bytes}
use lrzip_next.Runzip.{Result, ok, err, ◌>>=◌}
use lrzip_next.Magic.{
  Control, Ctype, lzma, zpaq, bzip3, zstd, other, size_byte, filter_byte, get_filter, ctype_bytes,
  get_ctype, get_dictionary, get_bzip3, write_magic, read_bytes, bytes_to_read, read_rest,
  get_magic, get_magic_v11, get_size_at, get_encryption, get_expected_size, get_hash_from_magic,
  get_levels, get_comment, read_magic,
}
use lrzip_next.Magic.Laws.{HasCode, SameCodec, get_ctype-bytes, get_filter-byte, IsDelta}

read_bytes-enough :
    (input : List ℕ) (n : ℕ)
    → n ≤ length input
    → read_bytes input n ≡ ok (take n input, drop n input)
unfolding read_bytes
read_bytes-enough input n le =
    let z : ltb (length input) n ≡ false = ground (arith, le) in rw z refl

-- The fields that are set before those of the version.
abbrev begun_with : Control → Control
begun_with c0 = record c0 {
  major_version = 0;
  minor_version = 14;
  rzip_compression_level = 0;
  compression_level = 0;
}

-- The header in an array of 24 bytes.
abbrev array : Control → List ℕ
array c = take 21 (write_magic 0 14 c) ++ replicate 3 0

read_magic-v11 :
    (c0 c : Control) (input : List ℕ)
    → read_magic c0 (write_magic 0 14 c ++ input)
      ≡ get_magic_v11 (begun_with c0) (c.comment ++ input) (array c)
unfolding read_magic write_magic get_magic read_rest bytes_to_read
read_magic-v11 c0 c input =
    rw (read_bytes-enough (write_magic 0 14 c ++ input) 6 (omega arith), ◌>>=◌)
      (rw (read_bytes-enough (drop 6 (write_magic 0 14 c ++ input)) 15 (omega arith), ◌>>=◌) refl)

-- The size stands in the header where the archive is not encrypted and the size is known.
size-array :
    (c : Control)
    → c.encrypt ≡ false
    → c.eof ≡ true
    → take 8 (drop 6 (array c)) ≡ le_bytes 8 c.st_size
unfolding write_magic size_byte le_bytes
size-array c plain known = rw (plain, known) refl

-- What the reading of the back end leaves alone.
abbrev kept : Control → Result Control → ℕ × ℕ
kept r (ok x) = (x.st_size, x.filter_flag)
kept r (err e) = (r.st_size, r.filter_flag)

get_ctype-kept : (r : Control) (a b : ℕ) → kept r (get_ctype r a b) ≡ (r.st_size, r.filter_flag)
unfolding get_ctype get_dictionary get_bzip3
get_ctype-kept r a b = elim (Bool-cases (a == 1)) [
  | inl e ↦ rw e refl
  | inr e1 ↦ elim (Bool-cases (a == 2)) [
    | inl e ↦ rw (e1, e) refl
    | inr e2 ↦ elim (Bool-cases (a == 3)) [
      | inl e ↦ rw (e1, e2, e) refl
      | inr e3 ↦ elim (Bool-cases (a % 16 == 4)) [
        | inl e ↦ rw (e1, e2, e3, e) refl
        | inr e4 ↦ elim (Bool-cases (a == 0)) [
          | inl e ↦ rw (e1, e2, e3, e4, e) refl
          | inr e5 ↦ rw (e1, e2, e3, e4, e5) refl
        ]
      ]
    ]
  ]
]

-- A header of which nothing is lost: no encryption, a size that is known, a hash, and fields that fit.
pub record IsPlain (c : Control) : Type 0 where
  pub plain : c.encrypt ≡ false
  pub known : c.eof ≡ true
  pub size : c.st_size < 2 ^ 64
  pub hash : c.hashed ≡ true
  pub code : (0 < c.hash_code) × (c.hash_code ≤ 13)
  pub filter : (c.filter_flag < 128) ⊎ (c.filter_flag ≡ 128) × IsDelta c.delta
  pub codec : HasCode c.ctype c
  pub levels : (c.rzip_compression_level < 16) × (c.compression_level < 16)
  pub commented : length c.comment < 256

-- The fields that agree.
pub record Same (c r : Control) : Type 0 where
  pub size : r.st_size ≡ c.st_size
  pub hash : r.hash_code ≡ c.hash_code
  pub filter : r.filter_flag ≡ c.filter_flag
  pub rzip_level : r.rzip_compression_level ≡ c.rzip_compression_level
  pub level : r.compression_level ≡ c.compression_level
  pub comment : (r.comment ≡ c.comment) ⊎ (c.comment ≡ [])
  pub codec : SameCodec c.ctype c r

-- What the bytes of an array are.
record IsArray (c : Control) (m : List ℕ) : Type 0 where
  size : of_le (take 8 (drop 6 m)) ≡ c.st_size
  hash : get_or m 14 0 ≡ c.hash_code
  plain : get_or m 15 0 ≡ 0
  filter : get_or m 16 0 ≡ filter_byte c
  kind : get_or m 17 0 ≡ (ctype_bytes c.ctype c).0
  code : get_or m 18 0 ≡ (ctype_bytes c.ctype c).1
  levels : get_or m 19 0 ≡ (c.rzip_compression_level * 16 + c.compression_level) % 256
  comment : get_or m 20 0 ≡ length c.comment % 256

array-IsArray : (c : Control) → IsPlain c → IsArray c (array c)
unfolding write_magic
array-IsArray c v = record {
  size = ap of_le (size-array c v.plain v.known) ∙ of_le-le_bytes 8 c.st_size v.size;
  hash = ap (λ b. if b then c.hash_code else 0) v.hash;
  plain = ap (λ b. if b then c.enc_code else 0) v.plain;
  filter = refl;
  kind = refl;
  code = refl;
  levels = refl;
  comment = refl;
}

get_size_at-known :
    (r : Control) (m : List ℕ)
    → get_or m 15 0 ≡ 0
    → get_size_at 15 r m ≡ record r { st_size = of_le (take 8 (drop 6 m)) }
unfolding get_size_at get_expected_size
get_size_at-known r m e = rw e refl

get_encryption-plain :
    (r : Control) (s : List ℕ)
    → ((get_encryption r 0 s).st_size ≡ r.st_size)
      × ((get_encryption r 0 s).filter_flag ≡ r.filter_flag)
      × ((get_encryption r 0 s).minor_version ≡ r.minor_version)
unfolding get_encryption
get_encryption-plain r s = elim (Bool-cases r.encrypt) [
  | inl e ↦ rw e (refl, refl, refl)
  | inr e ↦ rw e (refl, refl, refl)
]

get_filter-size : (r : Control) (b : ℕ) → (get_filter r b).st_size ≡ r.st_size
unfolding get_filter
get_filter-size r b = ground arith

get_comment-all :
    (r : Control) (bs input : List ℕ)
    → get_comment r (bs ++ input) (length bs) ≡ ok (record r { comment = bs }, input)
unfolding get_comment
get_comment-all r bs input =
    rw (read_bytes-enough (bs ++ input) (length bs) (omega (arith, length-append bs input)), ◌>>=◌)
      (rw (take-append_length bs input, drop-append_length bs input) refl)

get_hash_from_magic-known :
    (r : Control) (h : ℕ)
    → 0 < h
    → h ≤ 13
    → get_hash_from_magic r h ≡ record r { hashed = true; hash_code = h }
unfolding get_hash_from_magic
get_hash_from_magic-known r h lo hi =
    let z : ltb 0 h && leb h 13 ≡ true = ground (arith, lo, hi) in rw z refl

-- The fields behind those of the back end.
abbrev last_fields : Control → ℕ → ℕ → List ℕ → Control
last_fields r h b bs = record r {
  hashed = true;
  hash_code = h;
  compression_level = b % 16;
  rzip_compression_level = b / 16;
  comment = bs;
}

SameCodec-last_fields :
    (k : Ctype) (c r : Control) (h b : ℕ) (bs : List ℕ)
    → SameCodec k c r
    → SameCodec k c (last_fields r h b bs)
SameCodec-last_fields lzma c r h b bs s = s
SameCodec-last_fields zpaq c r h b bs s = s
SameCodec-last_fields bzip3 c r h b bs s = s
SameCodec-last_fields zstd c r h b bs s = s
SameCodec-last_fields other c r h b bs s = s

some_comment :
    (r : Control) (bs input : List ℕ)
    → 0 < length bs
    → (if length bs == 0 then ok (r, bs ++ input) else get_comment r (bs ++ input) (length bs))
      ≡ ok (record r { comment = bs }, input)
some_comment r bs input lo =
    let z : (length bs == 0) ≡ false = ground (arith, lo) in rw z (get_comment-all r bs input)

-- The levels and the comment, from their bytes.
abbrev levels_on : Control → List ℕ → ℕ → ℕ → Result (Control × List ℕ)
levels_on r input b n =
    if n == 0 then ok (get_levels r b, input) else get_comment (get_levels r b) input n

-- A comment that is there is read; without one the reader keeps its own.
comment_read :
    (r : Control) (bs input : List ℕ)
    → length bs < 256
    → (cs : List ℕ) × ((if length bs % 256 == 0
          then ok (r, bs ++ input)
          else get_comment r (bs ++ input) (length bs % 256))
        ≡ ok (record r { comment = cs }, input))
      × ((cs ≡ bs) ⊎ (bs ≡ []))
comment_read r [] input lt = (r.comment, refl, inr refl)
comment_read r (x ∷ xs) input lt =
    let n : length (x ∷ xs) % 256 ≡ length (x ∷ xs) = omega (arith, lt) in
    (x ∷ xs, rw n (some_comment r (x ∷ xs) input (omega arith)), inl refl)

module _ (c0 c : Control) (input : List ℕ) (v : IsPlain c) (no_filter : c0.filter_flag ≡ 0) where
  abbrev ending : List ℕ → Control → Result (Control × List ℕ)
  ending m y =
      levels_on (get_hash_from_magic y (get_or m 14 0)) (c.comment ++ input) (get_or m 19 0)
        (get_or m 20 0)

  from_array :
      (m : List ℕ)
      → IsArray c m
      → (r : Control) × (get_magic_v11 (begun_with c0) (c.comment ++ input) m ≡ ok (r, input))
        × Same c r
  unfolding get_magic_v11 get_levels
  from_array m a =
      let r0 = record (begun_with c0) { st_size = of_le (take 8 (drop 6 m)) } in
      let r1 = get_encryption r0 0 (drop 6 m) in
      let (size1, flag1, minor1) = get_encryption-plain r0 (drop 6 m) in
      let r2 = get_filter r1 (filter_byte c) in
      let flag2 : r2.filter_flag ≡ c.filter_flag =
        get_filter-byte c r1 (omega (arith, minor1)) v.filter (inr (flag1 ∙ no_filter)) in
      let (r3, run, same) = get_ctype-bytes c.ctype c r2 v.codec in
      let keeps =
        ap (kept r2) (sym run)
        ∙ get_ctype-kept r2 (ctype_bytes c.ctype c).0 (ctype_bytes c.ctype c).1 in
      let b = (c.rzip_compression_level * 16 + c.compression_level) % 256 in
      let r4 = last_fields r3 c.hash_code b r3.comment in
      let (bs, commented, which) = comment_read r4 c.comment input v.commented in
      (
        record r4 { comment = bs },
        ap
              (λ x.
                get_ctype (get_filter (get_encryption x (get_or m 15 0) (drop 6 m)) (get_or m 16 0))
                  (get_or m 17 0) (get_or m 18 0)
                >>= λ y. ending m y)
              (get_size_at-known (begun_with c0) m a.plain)
            ∙ ap
                (λ k.
                  get_ctype (get_filter (get_encryption r0 k (drop 6 m)) (get_or m 16 0))
                    (get_or m 17 0) (get_or m 18 0)
                  >>= λ y. ending m y)
                a.plain
            ∙ ap
                (λ k.
                  get_ctype (get_filter r1 k) (get_or m 17 0) (get_or m 18 0) >>= λ y. ending m y)
                a.filter
            ∙ ap₂ (λ k l. get_ctype r2 k l >>= λ y. ending m y) a.kind a.code
            ∙ ap (λ q. q >>= λ y. ending m y) run
            ∙ ap
                (λ h.
                  levels_on (get_hash_from_magic r3 h) (c.comment ++ input) (get_or m 19 0)
                    (get_or m 20 0))
                a.hash
            ∙ ap₂ (λ x y. levels_on (get_hash_from_magic r3 c.hash_code) (c.comment ++ input) x y)
                a.levels a.comment
            ∙ ap (λ x. levels_on x (c.comment ++ input) b (length c.comment % 256))
                (get_hash_from_magic-known r3 c.hash_code v.code.0 v.code.1)
            ∙ commented,
        record {
          size = ap (λ x. x.0) keeps ∙ get_filter-size r1 (filter_byte c) ∙ size1 ∙ a.size;
          hash = refl;
          filter = ap (λ x. x.1) keeps ∙ flag2;
          rzip_level = omega (arith, v.levels);
          level = omega (arith, v.levels);
          comment = which;
          codec = SameCodec-last_fields c.ctype c r3 c.hash_code b bs same;
        },
      )

  -- Where the archive is not encrypted, its size and hash are known and stored, and the fields fit in their
  -- bytes: `read_magic` of version 0.14 makes of what `write_magic` writes the size, the hash, the flag
  -- of the filter, the fields of the back end and the levels as they were, and the comment if there is
  -- one, and leaves the rest of the file. The reader has no filter before.
  pub read_magic-write_magic :
      (r : Control) × (read_magic c0 (write_magic 0 14 c ++ input) ≡ ok (r, input)) × Same c r
  read_magic-write_magic =
      let (r, run, same) = from_array (array c) (array-IsArray c v) in
      (r, read_magic-v11 c0 c input ∙ run, same)
