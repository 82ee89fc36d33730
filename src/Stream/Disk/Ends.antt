-- ===== src/Stream/Disk/Ends.antt =====
-- Whatever is in the file, the opening of a chunk and the reading of a stream in src/stream.c come to
-- an end.
use lrzip_next.Common.{ℕ, zero, suc, ◌+◌, ◌≤◌, ◌<◌, ◌≡◌, ◌≢◌, ◌⊎◌, refl, arith, inl, inr, subst}
use lrzip_next.Common.{Bool, true, false, ◌&&◌, not, ltb, leb, ◌==◌, Bool-cases}
use lrzip_next.Common.{Option, ◌*◌}
use lrzip_next.Common.Results.{
  fatal, failed, no_end, unmodelled, Result, ok, err, ◌>>=◌, ◌>>◌, guard,
}
use lrzip_next.Stream.Out.{StreamNo}
use lrzip_next.Stream.Backend.{UncompThread, ctype_none}
use lrzip_next.Stream.Disk.{File, get, get_val}
use lrzip_next.Stream.Disk.Read.{ChunkIn, is_negative, open_header, open_stream_in}

-- A result, or an error of the code; never the end of the fuel.
abbrev pub Ends : {A : Type 0} → (A → Type 0) → Result A → Type 0
Ends P (ok a) = P a
Ends P (err fatal) = Unit {0}
Ends P (err failed) = Unit {0}
Ends P (err no_end) = ⊥
Ends P (err unmodelled) = ⊥

Ends-bind :
    {A B : Type 0} (P : A → Type 0) (Q : B → Type 0) (m : Result A) (next : A → Result B)
    → Ends P m
    → ((a : A) → P a → Ends Q (next a))
    → Ends Q (m >>= next)
Ends-bind P Q (ok a) next h k = k a h
Ends-bind P Q (err fatal) next h k = tt
Ends-bind P Q (err failed) next h k = tt
Ends-bind P Q (err no_end) next h k = absurd h
Ends-bind P Q (err unmodelled) next h k = absurd h

abbrev Any : {A : Type 0} → A → Type 0
Any a = Unit {0}

module _ (can_malloc : ℕ → Bool) (sinfo : ChunkIn) (sn : StreamNo) where
  -- There is no next block, or it is within the chunk, and behind this one unless this one is at a
  -- negative place.
  abbrev IsMove : ℕ → ℕ → Type 0
  IsMove here next =
      (next ≡ 0)
      ⊎ ((is_negative here ≡ true) ⊎ (here < next))
        × (next ≤ sinfo.size)
        × (is_negative next ≡ false)

  abbrev Moves : ℕ → Option UncompThread × ℕ × File → Type 0
  Moves here r = IsMove here r.1

-- What is read is in the file, and the offset is behind it then.
abbrev Forward : {A : Type 0} → ℕ → File → A × File → Type 0
Forward n f r = (r.1.ofs ≡ f.ofs + n) × (r.1.size ≡ f.size) × (f.ofs + n ≤ f.size)

get-Forward : (n : ℕ) (f : File) → Ends (Forward n f) (get n f)
unfolding get
get-Forward n f = elim (Bool-cases (ltb f.size (f.ofs + n))) [
  | inl e ↦ rw e tt
  | inr e ↦ rw e (refl, refl, ground (arith, e))
]

get_val-Forward : (n : ℕ) (f : File) → Ends (Forward n f) (get_val n f)
unfolding get_val
get_val-Forward n f = Ends-bind (Forward n f) (Forward n f) (get n f) _ (get-Forward n f) (λ r h. h)

guard_failed : (b : Bool) → Ends Any (guard b failed)
guard_failed true = tt
guard_failed false = tt

again_or :
    (b : Bool) (again rest : Result (ℕ × ℕ × File))
    → (b ≡ true → Ends Any again)
    → Ends Any rest
    → Ends Any (elim b [ true ↦ again | false ↦ rest ])
again_or true again rest h k = h refl
again_or false again rest h k = k

open_header-Any :
    (fuel : ℕ) (first : Bool) (wl initial_pos : ℕ) (f : File)
    → 0 < fuel
    → (first ≡ false) ⊎ (f.size < f.ofs + fuel)
    → Ends Any (open_header fuel first wl initial_pos f)
unfolding open_header
open_header-Any zero first wl initial_pos f lo lt = absurd (omega (arith, lo))
open_header-Any (suc fuel) first wl initial_pos f lo lt =
    Ends-bind (Forward 1 f) Any (get_val 1 f) _ (get_val-Forward 1 f) (λ r1 h1.
      Ends-bind (Forward wl r1.1) Any (get_val wl r1.1) _ (get_val-Forward wl r1.1) (λ r2 h2.
        Ends-bind (Forward wl r2.1) Any (get_val wl r2.1) _ (get_val-Forward wl r2.1) (λ r3 h3.
          Ends-bind (Forward wl r3.1) Any (get_val wl r3.1) _ (get_val-Forward wl r3.1) (λ r4 h4.
            again_or ((r1.0 == ctype_none) && (r2.0 == 0) && (r3.0 == 0) && (r4.0 == 0) && first) _
              _
              (λ e.
                open_header-Any fuel first wl (initial_pos + (1 + wl * 3)) r4.1
                  (elim lt [ inl z ↦ absurd (ground (arith, e, z)) | inr l ↦ omega (arith, l, h1) ])
                  (elim lt [ inl z ↦ inl z | inr l ↦ inr (omega (arith, l, h1, h2, h3, h4)) ]))
              (Ends-bind Any Any
                (guard (r1.0 == ctype_none) failed
                  >> guard (r2.0 == 0) failed
                  >> guard (r3.0 == 0) failed)
                _
                (Ends-bind Any Any (guard (r1.0 == ctype_none) failed >> guard (r2.0 == 0) failed) _
                  (Ends-bind Any Any (guard (r1.0 == ctype_none) failed) _
                    (guard_failed (r1.0 == ctype_none)) (λ u h. guard_failed (r2.0 == 0)))
                  (λ u h. guard_failed (r3.0 == 0)))
                (λ u h. tt))))))

-- Whatever is in the file, the opening of a chunk ends: the headers that are passed over are in the
-- file.
pub open_stream_in-ends : (wl : ℕ) (f : File) → open_stream_in wl f ≢ err no_end
unfolding open_stream_in
open_stream_in-ends wl f e = subst (Ends Any) e (
    Ends-bind (Forward 1 f) Any (get_val 1 f) _ (get_val-Forward 1 f) (λ r1 h1.
      Ends-bind (Forward wl r1.1) Any (get_val wl r1.1) _ (get_val-Forward wl r1.1) (λ r2 h2.
        Ends-bind Any Any (guard (leb 1 wl && leb wl 8 && not (is_negative r2.0)) failed) _
          (guard_failed (leb 1 wl && leb wl 8 && not (is_negative r2.0)))
          (λ u h3.
            Ends-bind Any Any (open_header (suc f.size) true wl r2.1.ofs r2.1) _
              (open_header-Any (suc f.size) true wl r2.1.ofs r2.1 (omega arith)
                (inr (omega (arith, h1, h2))))
              (λ r3 h4.
                Ends-bind Any Any (open_header 1 false wl r3.1 r3.2) _
                  (open_header-Any 1 false wl r3.1 r3.2 (omega arith) (inl refl)) (λ r4 h5. tt))))))
