-- ===== src/Tests/Backend.antt =====
-- The back ends of src/stream.c at a concrete input: libraries that pack by leaving out the zeros in
-- front, and a block of 71 bytes with the delta filter.
use lrzip_next.Common.{
  ℕ, zero, suc, ◌+◌, ◌-◌, ◌≤◌, ◌≡◌, ◌≢◌, refl, sym, ap, ap₂, ◌∙◌, arith, inr, subst,
}
use lrzip_next.Common.{Bool, true, List, [], ◌∷◌, ◌++◌, length, map, replicate, some}
use lrzip_next.Stream.Backend.{Libraries, Levels, Reply, packed, CompressThread}
use lrzip_next.Stream.Backend.Threads.{
  Filters, FilterUse, gzip, bzip3, filter_encode, filter_restore, compress_buf, compress_block,
}
use lrzip_next.Stream.Backend.Laws.{Lossless, IsPlain}
use lrzip_next.Stream.Backend.Codecs.{GoodIf, compress_buf-Restores}
use lrzip_next.Stream.Backend.Block.{
  Invertible, IsFilterUse, filter_restore-encode, ReadyIf, compress_block-Ready,
}

abbrev front : List ℕ → List ℕ
front [] = []
front (zero ∷ xs) = front xs
front (suc x ∷ xs) = suc x ∷ xs

abbrev refill : ℕ → List ℕ → List ℕ
refill n bs = replicate (n - length bs) 0 ++ bs

shorter : (xs : List ℕ) → length (front xs) ≤ length xs
shorter [] = omega arith
shorter (zero ∷ xs) = omega (arith, shorter xs)
shorter (suc x ∷ xs) = omega arith

refill-same : (n : ℕ) (xs : List ℕ) → length xs ≡ n → refill n xs ≡ xs
refill-same n xs e = ap (λ k. replicate k 0 ++ xs) (let z : n - length xs ≡ 0 = omega arith in z)

refill-front : (xs : List ℕ) → refill (length xs) (front xs) ≡ xs
refill-front [] = refl
refill-front (zero ∷ xs) =
    ap (λ k. replicate k 0 ++ front xs)
      (let z : suc (length xs) - length (front xs) ≡ suc (length xs - length (front xs)) =
          omega (arith, shorter xs) in
        z)
    ∙ ap (λ ys. 0 ∷ ys) (refill-front xs)
refill-front (suc x ∷ xs) = refill-same (suc (length xs)) (suc x ∷ xs) refl

abbrev pub libs : Libraries
libs = record {
  page_size = 4096;
  can_malloc = λ (n : ℕ). true;
  fresh = λ (n : ℕ). replicate n 0;
  lz4_test = true;
  lz4_compresses = λ (xs : List ℕ). 1;
  zstd = λ (level dlen : ℕ) (xs : List ℕ). Reply.full;
  unzstd = λ (n : ℕ) (bs : List ℕ). some bs;
  bzip3_new = λ (b : ℕ). true;
  bzip3 = λ (b : ℕ) (xs : List ℕ). (true, front xs);
  unbzip3 = λ (b n : ℕ) (bs : List ℕ). some (refill n bs);
  zpaq = λ (c level b : ℕ) (xs : List ℕ). xs;
  unzpaq = λ (bs : List ℕ). bs;
  bzip2 = λ (level dlen : ℕ) (xs : List ℕ). packed (front xs);
  unbzip2 = λ (n : ℕ) (bs : List ℕ). some (refill n bs);
  gzip = λ (level dlen : ℕ) (xs : List ℕ). packed (front xs);
  ungzip = λ (n : ℕ) (bs : List ℕ). some (refill n bs);
  lzma = λ (level dict dlen : ℕ) (xs : List ℕ). Reply.memory;
  unlzma = λ (n : ℕ) (bs : List ℕ). some bs;
  lzo_memory = λ (fast : Bool). 16;
  lzo = λ (fast : Bool) (xs : List ℕ). front xs;
  unlzo = λ (n : ℕ) (bs : List ℕ). some (refill n bs);
}

abbrev pub levels : Levels
levels = record {
  compression_level = 7;
  zstd_level = 3;
  zpaq_level = 3;
  zpaq_bs = 8;
  bzip3_block_size = 8;
  dict_size = 4096;
}

of_packed : Reply → List ℕ
of_packed (packed bs) = bs
of_packed Reply.full = []
of_packed Reply.memory = []
of_packed Reply.broken = []

from_packed :
    (xs bs : List ℕ) → packed (front xs) ≡ packed bs → some (refill (length xs) bs) ≡ some xs
unfolding of_packed
from_packed xs bs e = ap some (ap (refill (length xs)) (sym (ap of_packed e)) ∙ refill-front xs)

abbrev IsPacked : Reply → Type 0
IsPacked (packed bs) = Unit
IsPacked Reply.full = ⊥
IsPacked Reply.memory = ⊥
IsPacked Reply.broken = ⊥

pub law : Lossless libs levels
law = record {
  zstd = λ level dlen xs bs e. absurd (subst IsPacked (sym e) tt);
  zstd_room = λ level dlen xs bs e. absurd (subst IsPacked (sym e) tt);
  bzip3 = λ xs e. ap some (refill-front xs);
  bzip3_done = λ xs le. refl;
  zpaq = λ c level bs xs. refl;
  bzip2 = λ level dlen xs bs e. from_packed xs bs e;
  gzip = λ level dlen xs bs e. from_packed xs bs e;
  lzma = λ level dict dlen xs bs e. absurd (subst IsPacked (sym e) tt);
  lzo = λ fast xs. ap some (refill-front xs);
}

abbrev pub sdk : Filters
sdk = record {
  branch_enc = λ (flag : ℕ) (xs : List ℕ). map (λ x. x + 1) xs;
  branch_dec = λ (flag : ℕ) (xs : List ℕ). map (λ x. x - 1) xs;
  delta_enc = λ (d : ℕ) (xs : List ℕ). map (λ x. x + d) xs;
  delta_dec = λ (d : ℕ) (xs : List ℕ). map (λ x. x - d) xs;
}

map-back : (d : ℕ) (xs : List ℕ) → map (λ x. x - d) (map (λ x. x + d) xs) ≡ xs
map-back d [] = refl
map-back d (x ∷ xs) =
    ap₂ (λ y ys. y ∷ ys) (let z : x + d - d ≡ x = omega arith in z) (map-back d xs)

length-map : (f : ℕ → ℕ) (xs : List ℕ) → length (map f xs) ≡ length xs
length-map f [] = refl
length-map f (x ∷ xs) = ap suc (length-map f xs)

pub inv : Invertible sdk
inv = record {
  branch = λ flag xs. map-back 1 xs;
  branch_length = λ flag xs. length-map (λ x. x + 1) xs;
  delta = λ d xs. map-back d xs;
  delta_length = λ d xs. length-map (λ x. x + d) xs;
}

abbrev pub delta_two : FilterUse
delta_two = record { flag = 128; delta = 2; minor_version = 14 }

pub delta_two-IsFilterUse : IsFilterUse delta_two
delta_two-IsFilterUse = record { new_version = omega arith; choice = inr (inr (refl, omega arith)) }

pub not_riscv : delta_two.flag ≢ 8
not_riscv = λ e. omega (arith, e)

abbrev pub block : List ℕ
block = replicate 70 0 ++ (5 ∷ [])

-- Of stream 0, so that the library packs it well.
abbrev pub cti : CompressThread
cti = record { streamno = 0; c_type = 3; s_len = 71; c_len = 71; s_buf = block }

pub cti-IsPlain : IsPlain cti
cti-IsPlain = record { none_yet = refl; len = refl; same = refl }

not_bzip3 : {n : ℕ} → gzip ≡ bzip3 → n ≤ 8
not_bzip3 e = cc

compress_block-Ready_example :
    ReadyIf libs libs levels gzip sdk delta_two cti law law
      (λ uci. refl)
      inv
      delta_two-IsFilterUse
      not_riscv
      cti-IsPlain
      refl
      refl
      refl
      refl
      (omega arith)
      (compress_block libs libs levels gzip sdk delta_two cti)
compress_block-Ready_example =
    compress_block-Ready libs libs levels gzip sdk delta_two cti law law (λ uci. refl) inv
      delta_two-IsFilterUse not_riscv cti-IsPlain refl refl refl refl (omega arith)
      (λ e. not_bzip3 e)

compress_buf-Restores_example :
    GoodIf libs levels cti law cti-IsPlain refl refl
      (omega arith)
      (compress_buf libs levels gzip cti)
compress_buf-Restores_example =
    compress_buf-Restores libs levels cti law cti-IsPlain refl refl (omega arith) gzip
      (λ e. not_bzip3 e)

filter_restore-encode_example :
    filter_restore sdk delta_two 1 (filter_encode sdk delta_two 1 block) ≡ block
filter_restore-encode_example =
    filter_restore-encode sdk delta_two inv delta_two-IsFilterUse 1 block
