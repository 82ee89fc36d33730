-- ===== src/Runzip/Copy.antt =====
-- The repeated writing of `unzip_match` is the byte by byte copy of the format.
use lrzip_next.Common.{ℕ, zero, suc, ◌+◌, ◌-◌, ◌≤◌, ◌<◌, min, ◌≡◌, refl, sym, ap, ◌∙◌, arith}
use lrzip_next.Common.{List, [], ◌∷◌, ◌++◌, length, take, drop, get_or, append_assoc, append-nil}
use lrzip_next.Common.{Bool, true, false, if◌then◌else◌, ltb, Bool-cases, inl, inr}
use lrzip_next.Common.{length-append, length-take, length-drop, take-append_le, drop-append_le}
use lrzip_next.Common.{drop-append_length, ltb→lt, ltb→ge}
use lrzip_next.Rzip.Put.Token.{copy_back}
use lrzip_next.Runzip.{Runzip, write_out, repeat_loop}

-- The last `ofs` bytes.
abbrev pub back : ℕ → List ℕ → List ℕ
back ofs out = drop (length out - ofs) out

drop-cons : (k : ℕ) (xs : List ℕ) → k < length xs → drop k xs ≡ get_or xs k 0 ∷ drop (suc k) xs
drop-cons k [] h = absurd (omega arith)
drop-cons zero (x ∷ xs) h = refl
drop-cons (suc k) (x ∷ xs) h = drop-cons k xs (omega arith)

pub take-take : (m n : ℕ) (xs : List ℕ) → m ≤ n → take m (take n xs) ≡ take m xs
take-take zero n xs h = refl
take-take (suc m) zero xs h = absurd (omega arith)
take-take (suc m) (suc n) [] h = refl
take-take (suc m) (suc n) (x ∷ xs) h = ap (λ r. x ∷ r) (take-take m n xs (omega arith))

-- Where the source does not reach what is being written, a copy appends it as it is.
copy_back_short :
    (n ofs : ℕ) (out : List ℕ)
    → n ≤ ofs
    → ofs ≤ length out
    → copy_back n ofs out ≡ out ++ take n (back ofs out)
unfolding copy_back
copy_back_short zero ofs out h k = sym (append-nil out)
copy_back_short (suc n) ofs out h k =
    let c = get_or out (length out - ofs) 0 in
    let out' = out ++ (c ∷ []) in
    let next : length out' - ofs ≡ suc (length out - ofs) =
      omega (arith, length-append out (c ∷ [])) in
    let le : suc (length out - ofs) ≤ length out = omega arith in
    copy_back_short n ofs out' (omega arith) (omega (arith, length-append out (c ∷ [])))
    ∙ append_assoc out (c ∷ []) (take n (back ofs out'))
    ∙ ap (λ r. out ++ (c ∷ r))
        (ap (λ j. take n (drop j out')) next
          ∙ ap (take n) (drop-append_le (suc (length out - ofs)) out (c ∷ []) le)
          ∙ take-append_le n (drop (suc (length out - ofs)) out) (c ∷ [])
              (omega (arith, length-drop (suc (length out - ofs)) out)))
    ∙ ap (λ r. out ++ take (suc n) r) (sym (drop-cons (length out - ofs) out (omega arith)))

copy_back-add :
    (m n ofs : ℕ) (out : List ℕ) → copy_back (m + n) ofs out ≡ copy_back n ofs (copy_back m ofs out)
unfolding copy_back
copy_back-add zero n ofs out =
    ap (λ k. copy_back k ofs out) (let e : zero + n ≡ n = omega arith in e)
copy_back-add (suc m) n ofs out =
    ap (λ k. copy_back k ofs out) (let e : suc m + n ≡ suc (m + n) = omega arith in e)
    ∙ copy_back-add m n ofs _

-- `r'` is `r` with these bytes written.
pub record Wrote (has_hash : Bool) (r r' : Runzip) (bs : List ℕ) : Type 0 where
  pub out : r'.out ≡ r.out ++ bs
  pub summed : r'.summed ≡ (if has_hash then r.summed else r.summed ++ bs)
  pub hashed : r'.hashed ≡ (if has_hash then r.hashed ++ bs else r.hashed)

pub Wrote-nil : (has_hash : Bool) (r : Runzip) → Wrote has_hash r r []
Wrote-nil true r = record {
  out = sym (append-nil r.out);
  summed = refl;
  hashed = sym (append-nil r.hashed);
}
Wrote-nil false r = record {
  out = sym (append-nil r.out);
  summed = sym (append-nil r.summed);
  hashed = refl;
}

pub Wrote-trans :
    (has_hash : Bool) (a b c : Runzip) (xs ys : List ℕ)
    → Wrote has_hash a b xs
    → Wrote has_hash b c ys
    → Wrote has_hash a c (xs ++ ys)
Wrote-trans true a b c xs ys h k = record {
  out = k.out ∙ ap (λ r. r ++ ys) h.out ∙ append_assoc a.out xs ys;
  summed = k.summed ∙ h.summed;
  hashed = k.hashed ∙ ap (λ r. r ++ ys) h.hashed ∙ append_assoc a.hashed xs ys;
}
Wrote-trans false a b c xs ys h k = record {
  out = k.out ∙ ap (λ r. r ++ ys) h.out ∙ append_assoc a.out xs ys;
  summed = k.summed ∙ ap (λ r. r ++ ys) h.summed ∙ append_assoc a.summed xs ys;
  hashed = k.hashed ∙ h.hashed;
}

pub write_out-Wrote :
    (has_hash : Bool) (r : Runzip) (bs : List ℕ) → Wrote has_hash r (write_out has_hash r bs) bs
unfolding write_out
write_out-Wrote has_hash r bs = record { out = refl; summed = refl; hashed = refl }

pub write_out-s0 :
    (has_hash : Bool) (r : Runzip) (bs : List ℕ) → (write_out has_hash r bs).s0 ≡ r.s0
unfolding write_out
write_out-s0 has_hash r bs = refl

pub write_out-s1 :
    (has_hash : Bool) (r : Runzip) (bs : List ℕ) → (write_out has_hash r bs).s1 ≡ r.s1
unfolding write_out
write_out-s1 has_hash r bs = refl

-- The loop of `unzip_match` writes what the copy appends, and leaves the streams alone.
pub record Copied (has_hash : Bool) (r r' : Runzip) (ofs len : ℕ) : Type 0 where
  pub bytes : (bs : List ℕ) × Wrote has_hash r r' bs
  pub copied : r'.out ≡ copy_back len ofs r.out
  pub same0 : r'.s0 ≡ r.s0
  pub same1 : r'.s1 ≡ r.s1

-- One round: what it writes is what the copy appends, and the bytes that the next rounds write are
-- still the last ones.
round_next :
    (n len ofs : ℕ) (buf out : List ℕ)
    → n ≡ min len ofs
    → ofs ≤ length out
    → take n buf ≡ take n (back ofs out)
    → take (min (len - n) ofs) buf ≡ take (min (len - n) ofs) (back ofs (out ++ take n buf))
round_next n len ofs buf out d le e = elim (Bool-cases (ltb n len)) [
  | inr all ↦
      let z : min (len - n) ofs ≡ 0 = omega (arith, ltb→ge n len all) in
      ap (λ k. take k buf) z ∙ sym (ap (λ k. take k (back ofs (out ++ take n buf))) z)
  | inl more ↦
      let lt = ltb→lt n len more in
      let same : n ≡ ofs = omega arith in
      let size : length (take n buf) ≡ ofs =
        omega
          (arith, ap length e, length-take n (back ofs out), length-drop (length out - ofs) out) in
      let at : length (out ++ take n buf) - ofs ≡ length out =
        omega (arith, length-append out (take n buf)) in
      let last : back ofs (out ++ take n buf) ≡ take n buf =
        ap (λ k. drop k (out ++ take n buf)) at ∙ drop-append_length out (take n buf) in
      sym (ap (take (min (len - n) ofs)) last ∙ take-take (min (len - n) ofs) n buf (omega arith))
]

-- With a distance inside the output and the last bytes of it in `buf`, the loop ends with enough fuel;
-- its output is that of a copy byte by byte, fed to the hash or the CRC, and the streams are the same.
pub repeat_loop-Copied :
    (fuel : ℕ) (has_hash : Bool) (r : Runzip) (buf : List ℕ) (ofs len : ℕ)
    → len ≤ fuel
    → 0 < ofs
    → ofs ≤ length r.out
    → take (min len ofs) buf ≡ take (min len ofs) (back ofs r.out)
    → Copied has_hash r (repeat_loop fuel has_hash r buf ofs len) ofs len
unfolding repeat_loop copy_back
repeat_loop-Copied zero has_hash r buf ofs zero f lo le e = record {
  bytes = ([], Wrote-nil has_hash r);
  copied = refl;
  same0 = refl;
  same1 = refl;
}
repeat_loop-Copied zero has_hash r buf ofs (suc len) f lo le e = absurd (omega arith)
repeat_loop-Copied (suc fuel) has_hash r buf ofs zero f lo le e = record {
  bytes = ([], Wrote-nil has_hash r);
  copied = refl;
  same0 = refl;
  same1 = refl;
}
repeat_loop-Copied (suc fuel) has_hash r buf ofs (suc len) f lo le e =
    let n = min (suc len) ofs in
    let r1 = write_out has_hash r (take n buf) in
    let w = write_out-Wrote has_hash r (take n buf) in
    let grown : ofs ≤ length r1.out =
      omega (arith, ap length w.out, length-append r.out (take n buf)) in
    let next : take (min (suc len - n) ofs) buf ≡ take (min (suc len - n) ofs) (back ofs r1.out) =
      round_next n (suc len) ofs buf r.out refl le e
      ∙ ap (λ k. take (min (suc len - n) ofs) (back ofs k)) (sym w.out) in
    let rec =
      repeat_loop-Copied fuel has_hash r1 buf ofs (suc len - n) (omega arith) lo grown next in
    let here : r1.out ≡ copy_back n ofs r.out =
      w.out ∙ ap (λ k. r.out ++ k) e ∙ sym (copy_back_short n ofs r.out (omega arith) le) in
    let (bs, wrote) = rec.bytes in
    record {
      bytes = (take n buf ++ bs, Wrote-trans has_hash r r1 _ (take n buf) bs w wrote);
      copied =
          rec.copied
          ∙ ap (copy_back (suc len - n) ofs) here
          ∙ sym (copy_back-add n (suc len - n) ofs r.out)
          ∙ ap (λ k. copy_back k ofs r.out)
              (let z : n + (suc len - n) ≡ suc len = omega arith in z);
      same0 = rec.same0 ∙ write_out-s0 has_hash r (take n buf);
      same1 = rec.same1 ∙ write_out-s1 has_hash r (take n buf);
    }
