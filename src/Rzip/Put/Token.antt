-- ===== src/Rzip/Put/Token.antt =====
-- What the two streams of a chunk mean: a list of tokens, each a run of literal bytes or a copy of
-- bytes from some distance back. This is the format itself, apart from how it is written and read.
use lrzip_next.Common.{ℕ, zero, suc, ◌+◌, ◌-◌, ◌^◌, ◌≤◌, ◌<◌, ◌≡◌, refl, sym, ap, ◌∙◌, arith}
use lrzip_next.Common.{List, [], ◌∷◌, ◌++◌, length, get_or, append_assoc}
use lrzip_next.Bytes.{le_bytes}

pub data Token : Type 0 where
  literal : List ℕ → Token
  copy : ℕ → ℕ → Token

-- The bytes of one token on stream 0 and on stream 1; `cb` is the chunk's byte width.
abbrev pub header : ℕ → Token → List ℕ
header cb (literal bs) = 0 ∷ le_bytes 2 (length bs)
header cb (copy ofs len) = (1 ∷ le_bytes 2 len) ++ le_bytes cb ofs

abbrev pub payload : Token → List ℕ
payload (literal bs) = bs
payload (copy ofs len) = []

abbrev pub headers : ℕ → List Token → List ℕ
headers cb [] = []
headers cb (k ∷ ks) = header cb k ++ headers cb ks

abbrev pub payloads : List Token → List ℕ
payloads [] = []
payloads (k ∷ ks) = payload k ++ payloads ks

-- A copy goes byte by byte, so it may read what it has just written.
unfoldable pub copy_back : ℕ → ℕ → List ℕ → List ℕ
copy_back zero ofs out = out
copy_back (suc n) ofs out = copy_back n ofs (out ++ (get_or out (length out - ofs) 0 ∷ []))

abbrev pub expand_one : Token → List ℕ → List ℕ
expand_one (literal bs) out = out ++ bs
expand_one (copy ofs len) out = copy_back len ofs out

abbrev pub expand : List Token → List ℕ → List ℕ
expand [] out = out
expand (k ∷ ks) out = expand ks (expand_one k out)

abbrev pub width : Token → ℕ
width (literal bs) = length bs
width (copy ofs len) = len

-- A token that may stand where `pos` bytes of the chunk are out: not empty, its length fits two
-- bytes, and a distance fits `cb` bytes and stays inside the chunk.
abbrev pub FitsOne : ℕ → ℕ → Token → Type 0
FitsOne cb pos (literal bs) = (0 < length bs) × (length bs ≤ 0xffff)
FitsOne cb pos (copy ofs len) =
    (0 < len) × (len ≤ 0xffff) × (0 < ofs) × (ofs ≤ pos) × (ofs < 256 ^ cb)

abbrev pub Fits : ℕ → ℕ → List Token → Type 0
Fits cb pos [] = Unit {0}
Fits cb pos (k ∷ ks) = FitsOne cb pos k × Fits cb (pos + width k) ks

abbrev pub total : List Token → ℕ
total [] = 0
total (k ∷ ks) = width k + total ks

pub headers-append :
    (cb : ℕ) (ks ls : List Token) → headers cb (ks ++ ls) ≡ headers cb ks ++ headers cb ls
headers-append cb [] ls = refl
headers-append cb (k ∷ ks) ls =
    ap (λ r. header cb k ++ r) (headers-append cb ks ls)
    ∙ sym (append_assoc (header cb k) (headers cb ks) (headers cb ls))

pub payloads-append : (ks ls : List Token) → payloads (ks ++ ls) ≡ payloads ks ++ payloads ls
payloads-append [] ls = refl
payloads-append (k ∷ ks) ls =
    ap (λ r. payload k ++ r) (payloads-append ks ls)
    ∙ sym (append_assoc (payload k) (payloads ks) (payloads ls))

pub expand-append :
    (ks ls : List Token) (out : List ℕ) → expand (ks ++ ls) out ≡ expand ls (expand ks out)
expand-append [] ls out = refl
expand-append (k ∷ ks) ls out = expand-append ks ls (expand_one k out)

pub total-snoc : (ks : List Token) (l : Token) → total (ks ++ (l ∷ [])) ≡ total ks + width l
total-snoc [] l = omega arith
total-snoc (k ∷ ks) l = omega (arith, total-snoc ks l)

pub Fits-snoc :
    (cb pos end : ℕ) (ks : List Token) (l : Token)
    → pos + total ks ≡ end
    → Fits cb pos ks
    → FitsOne cb end l
    → Fits cb pos (ks ++ (l ∷ []))
Fits-snoc cb pos end [] l e h f = let e' : end ≡ pos = omega arith in (rw e' at f, tt)
Fits-snoc cb pos end (k ∷ ks) l e h f =
    (h.0, Fits-snoc cb (pos + width k) end ks l (omega arith) h.1 f)
