-- ===== src/Stream/Disk/Cells.antt =====
-- What is known of the bytes of a file: cells with their contents, and what a write leaves of them.
use lrzip_next.Common.{ℕ, suc, ◌+◌, ◌-◌, ◌≤◌, ◌<◌, ◌≡◌, ◌⊎◌, refl, ap, ap₂, ◌∙◌, arith, inl, inr}
use lrzip_next.Common.{true, ◌&&◌, ltb, leb}
use lrzip_next.Common.{List, [], ◌∷◌, ◌++◌, length, get_or, All}
use lrzip_next.Rzip.Slice.{slice, slice-agree}
use lrzip_next.Stream.Disk.{patch}

pub record Cell : Type 0 where
  pub addr : ℕ
  pub bytes : List ℕ

abbrev pub IsAt : (ℕ → ℕ) → Cell → Type 0
IsAt byte c = slice byte c.addr (length c.bytes) ≡ c.bytes

-- The cell has no byte in common with the `n` bytes at `a`.
abbrev pub Apart : Cell → ℕ → ℕ → Type 0
Apart c a n = (c.addr + length c.bytes ≤ a) ⊎ (a + n ≤ c.addr)

-- A list of bytes, read off.
slice-get_or :
    (f : ℕ → ℕ) (a : ℕ) (bs : List ℕ)
    → ((i : ℕ) → i < length bs → f (a + i) ≡ get_or bs i 0)
    → slice f a (length bs) ≡ bs
slice-get_or f a [] h = refl
slice-get_or f a (b ∷ bs) h =
    ap₂ (λ x xs. x ∷ xs) (ap f (let z : a ≡ a + 0 = omega arith in z) ∙ h 0 (omega arith))
      (slice-get_or f (a + 1) bs
        (λ i lt. ap f (let z : a + 1 + i ≡ a + suc i = omega arith in z) ∙ h (suc i) (omega arith)))

patch-inside :
    (a : ℕ) (bs : List ℕ) (f : ℕ → ℕ) (i : ℕ) → i < length bs → patch a bs f (a + i) ≡ get_or bs i 0
unfolding patch
patch-inside a bs f i h =
    let t : leb a (a + i) && ltb (a + i) (a + length bs) ≡ true = ground arith in
    let e : a + i - a ≡ i = omega arith in rw t (ap (λ k. get_or bs k 0) e)

patch-outside :
    (a : ℕ) (bs : List ℕ) (f : ℕ → ℕ) (i : ℕ) → (i < a) ⊎ (a + length bs ≤ i) → patch a bs f i ≡ f i
unfolding patch
patch-outside a bs f i (inl h) = ground arith
patch-outside a bs f i (inr h) = ground arith

-- What has been written is there.
pub patch-IsAt : (c : Cell) (f : ℕ → ℕ) → IsAt (patch c.addr c.bytes f) c
patch-IsAt c f =
    slice-get_or (patch c.addr c.bytes f) c.addr c.bytes (λ i h. patch-inside c.addr c.bytes f i h)

-- What stands apart from it stays.
pub patch-Apart :
    (c w : Cell) (f : ℕ → ℕ)
    → Apart c w.addr (length w.bytes)
    → IsAt f c
    → IsAt (patch w.addr w.bytes f) c
patch-Apart c w f (inl h) e =
    slice-agree (patch w.addr w.bytes f) f c.addr c.addr (length c.bytes)
      (λ i lt. patch-outside w.addr w.bytes f (c.addr + i) (inl (omega arith)))
    ∙ e
patch-Apart c w f (inr h) e =
    slice-agree (patch w.addr w.bytes f) f c.addr c.addr (length c.bytes)
      (λ i lt. patch-outside w.addr w.bytes f (c.addr + i) (inr (omega arith)))
    ∙ e

-- Several writes, the first one first.
abbrev pub patches : List Cell → (ℕ → ℕ) → ℕ → ℕ
patches [] f = f
patches (w ∷ ws) f = patches ws (patch w.addr w.bytes f)

abbrev pub ApartAll : Cell → List Cell → Type 0
ApartAll c [] = Unit {0}
ApartAll c (w ∷ ws) = Apart c w.addr (length w.bytes) × ApartAll c ws

pub patches-Apart :
    (c : Cell) (ws : List Cell) (f : ℕ → ℕ) → ApartAll c ws → IsAt f c → IsAt (patches ws f) c
patches-Apart c [] f h e = e
patches-Apart c (w ∷ ws) f h e =
    patches-Apart c ws (patch w.addr w.bytes f) h.1 (patch-Apart c w f h.0 e)

pub All-append : (P : Cell → Type 0) (cs ds : List Cell) → All P cs → All P ds → All P (cs ++ ds)
All-append P [] ds h k = k
All-append P (c ∷ cs) ds h k = (h.0, All-append P cs ds h.1 k)

pub All-map :
    (P Q : Cell → Type 0) (cs : List Cell) → ((c : Cell) → P c → Q c) → All P cs → All Q cs
All-map P Q [] f h = tt
All-map P Q (c ∷ cs) f h = (f c h.0, All-map P Q cs f h.1)

pub All-both :
    (P Q : Cell → Type 0) (cs : List Cell) → All P cs → All Q cs → All (λ c. P c × Q c) cs
All-both P Q [] h k = tt
All-both P Q (c ∷ cs) h k = ((h.0, k.0), All-both P Q cs h.1 k.1)

-- Writes one behind another, from an offset on.
abbrev pub run : ℕ → List (List ℕ) → (ℕ → ℕ) → ℕ → ℕ
run a [] f = f
run a (bs ∷ bss) f = run (a + length bs) bss (patch a bs f)

abbrev pub run_cells : ℕ → List (List ℕ) → List Cell
run_cells a [] = []
run_cells a (bs ∷ bss) = record { addr = a; bytes = bs } ∷ run_cells (a + length bs) bss

pub run-IsAt :
    (c : Cell) (a : ℕ) (bss : List (List ℕ)) (f : ℕ → ℕ)
    → c.addr + length c.bytes ≤ a
    → IsAt f c
    → IsAt (run a bss f) c
run-IsAt c a [] f le h = h
run-IsAt c a (bs ∷ bss) f le h =
    run-IsAt c (a + length bs) bss (patch a bs f) (omega (arith, le))
      (patch-Apart c (record { addr = a; bytes = bs }) f (inl le) h)

-- All of them are there in the end.
pub run-run_cells :
    (a : ℕ) (bss : List (List ℕ)) (f : ℕ → ℕ) → All (IsAt (run a bss f)) (run_cells a bss)
run-run_cells a [] f = tt
run-run_cells a (bs ∷ bss) f = (
  run-IsAt (record { addr = a; bytes = bs }) (a + length bs) bss (patch a bs f) (omega arith)
      (patch-IsAt (record { addr = a; bytes = bs }) f),
  run-run_cells (a + length bs) bss (patch a bs f),
)
