-- ===== src/Stream/Disk/Chain.antt =====
-- The two chains of blocks in a chunk that src/stream.c writes: each header points to the next one of
-- its stream, and the last pointer is 0.
use lrzip_next.Common.{ℕ, ◌+◌, ◌*◌, ◌≤◌, ◌≡◌, ◌⊎◌, refl, sym, ap, ◌∙◌, arith, inl, inr, subst}
use lrzip_next.Common.{List, [], ◌∷◌, ◌++◌, length, All}
use lrzip_next.Bytes.{le_bytes, length-le_bytes}
use lrzip_next.Rzip.Slice.{slice}
use lrzip_next.Stream.Disk.Cells.{
  Cell, IsAt, Apart, patches, ApartAll, patches-Apart, patch-IsAt, All-append, All-map,
}

-- A block at a position within the chunk.
pub record Placed : Type 0 where
  pub pos : ℕ
  pub c_type : ℕ
  pub u_len : ℕ
  pub bytes : List ℕ

module _ (base wl : ℕ) where
  abbrev pub cell_at : ℕ → ℕ → Cell
  cell_at at v = record { addr = at + base; bytes = le_bytes wl v }

  -- The place of the pointer to the block that comes next.
  abbrev pub pointer_of : ℕ → ℕ
  pointer_of pos = pos + 1 + wl * 2

  abbrev pub type_cell : Placed → Cell
  type_cell p = record { addr = p.pos + base; bytes = p.c_type ∷ [] }

  abbrev pub c_len_cell : Placed → Cell
  c_len_cell p = record { addr = p.pos + base + 1; bytes = le_bytes wl (length p.bytes) }

  abbrev pub u_len_cell : Placed → Cell
  u_len_cell p = record { addr = p.pos + base + 1 + wl; bytes = le_bytes wl p.u_len }

  abbrev pub next_cell : Placed → Cell
  next_cell p = record { addr = p.pos + base + 1 + wl + wl; bytes = le_bytes wl 0 }

  abbrev pub data_cell : Placed → Cell
  data_cell p = record { addr = p.pos + base + 1 + wl + wl + wl; bytes = p.bytes }

  -- From the pointer at `h` through these blocks, without the last pointer.
  abbrev pub cells : ℕ → List Placed → List Cell
  cells h [] = []
  cells h (p ∷ ps) =
      cell_at h p.pos
      ∷ type_cell p
      ∷ c_len_cell p
      ∷ u_len_cell p
      ∷ data_cell p
      ∷ cells (pointer_of p.pos) ps

  -- The place of the last pointer.
  abbrev pub tail : ℕ → List Placed → ℕ
  tail h [] = h
  tail h (p ∷ ps) = tail (pointer_of p.pos) ps

  pub tail-snoc :
      (h : ℕ) (ps : List Placed) (p : Placed) → tail h (ps ++ (p ∷ [])) ≡ pointer_of p.pos
  tail-snoc h [] p = refl
  tail-snoc h (q ∷ ps) p = tail-snoc (pointer_of q.pos) ps p

  pub cells-snoc :
      (h : ℕ) (ps : List Placed) (p : Placed)
      → cells h (ps ++ (p ∷ [])) ≡ cells h ps ++ cells (tail h ps) (p ∷ [])
  cells-snoc h [] p = refl
  cells-snoc h (q ∷ ps) p =
      ap (λ cs. cell_at h q.pos ∷ type_cell q ∷ c_len_cell q ∷ u_len_cell q ∷ data_cell q ∷ cs)
        (cells-snoc (pointer_of q.pos) ps p)

  -- A cell below `cur` that is neither of the two last pointers.
  abbrev pub Settled : ℕ → ℕ → ℕ → Cell → Type 0
  Settled cur t t' c =
      (c.addr + length c.bytes ≤ cur + base) × Apart c (t + base) wl × Apart c (t' + base) wl

  -- One stream with the last pointer `t`, beside another with the last pointer `t'`.
  pub record Chain (byte : ℕ → ℕ) (cur t t' h : ℕ) (ps : List Placed) : Type 0 where
    pub ends : tail h ps ≡ t
    pub zero : IsAt byte (cell_at t 0)
    pub holds : All (IsAt byte) (cells h ps)
    pub settled : All (Settled cur t t') (cells h ps)
    pub inside : t + wl ≤ cur
    pub apart : (t + wl ≤ t') ⊎ (t' + wl ≤ t)

  -- What a thread writes for a block of the stream whose last pointer is at `t`.
  abbrev pub writes : ℕ → Placed → List Cell
  writes t p =
      cell_at t p.pos ∷ type_cell p ∷ c_len_cell p ∷ u_len_cell p ∷ next_cell p ∷ data_cell p ∷ []

  abbrev end_after : Placed → ℕ
  end_after p = p.pos + (1 + wl * 3) + length p.bytes

  -- What is settled is apart from all that is written.
  Settled-ApartAll :
      (t t' : ℕ) (p : Placed) (c : Cell)
      → (c.addr + length c.bytes ≤ p.pos + base) × Apart c (t + base) wl
      → ApartAll c (writes t p)
  Settled-ApartAll t t' p c (le, off) = (
    subst (Apart c (t + base)) (sym (length-le_bytes wl p.pos)) off,
    (
      inl (omega arith),
      (inl (omega arith), (inl (omega arith), (inl (omega arith), (inl (omega arith), tt)))),
    ),
  )

  holds_after :
      (byte : ℕ → ℕ) (t t' : ℕ) (p : Placed) (cs : List Cell)
      → All (λ c. (c.addr + length c.bytes ≤ p.pos + base) × Apart c (t + base) wl) cs
      → All (IsAt byte) cs
      → All (IsAt (patches (writes t p) byte)) cs
  holds_after byte t t' p [] s h = tt
  holds_after byte t t' p (c ∷ cs) s h = (
    patches-Apart c (writes t p) byte (Settled-ApartAll t t' p c s.0) h.0,
    holds_after byte t t' p cs s.1 h.1,
  )

  module _ (byte : ℕ → ℕ) (cur t t' : ℕ) (p : Placed) (here : p.pos ≡ cur) where
    abbrev after : ℕ → ℕ
    after = patches (writes t p) byte

    Settled-after :
        (cs : List Cell)
        → All (Settled cur t t') cs
        → All (Settled (end_after p) (pointer_of p.pos) t') cs
    Settled-after cs =
        All-map (Settled cur t t') (Settled (end_after p) (pointer_of p.pos) t') cs
          (λ c s. (omega (arith, s.0), inl (omega (arith, s.0)), s.2))

    only_below :
        (cs : List Cell)
        → All (Settled cur t t') cs
        → All (λ c. (c.addr + length c.bytes ≤ p.pos + base) × Apart c (t + base) wl) cs
    only_below cs =
        All-map (Settled cur t t')
          (λ c. (c.addr + length c.bytes ≤ p.pos + base) × Apart c (t + base) wl) cs
          (λ c s. (omega (arith, s.0), s.1))

    -- Cells that are settled keep their bytes, and stay settled.
    pub Settled-kept :
        (cs : List Cell)
        → All (Settled cur t t') cs
        → All (IsAt byte) cs
        → All (IsAt after) cs × All (Settled (end_after p) (pointer_of p.pos) t') cs
    Settled-kept cs s h = (holds_after byte t t' p cs (only_below cs s) h, Settled-after cs s)

    -- The stream that the block is not for keeps its chain.
    pub Chain-other :
        (h : ℕ) (ps : List Placed)
        → t + wl ≤ cur
        → Chain byte cur t' t h ps
        → Chain after (end_after p) t' (pointer_of p.pos) h ps
    Chain-other h ps le k = record {
      ends = k.ends;
      zero =
          patches-Apart (cell_at t' 0) (writes t p) byte
            (Settled-ApartAll t t' p (cell_at t' 0)
              (omega (arith, k.inside, length-le_bytes wl 0), last k.apart))
            k.zero;
      holds = holds_after byte t t' p (cells h ps) (only_below (cells h ps) swapped) k.holds;
      settled =
          All-map (Settled (end_after p) (pointer_of p.pos) t')
            (Settled (end_after p) t' (pointer_of p.pos)) (cells h ps) (λ c s. (s.0, s.2, s.1))
            (Settled-after (cells h ps) swapped);
      inside = omega (arith, k.inside);
      apart = inl (omega (arith, k.inside));
    }
      where
        swapped : All (Settled cur t t') (cells h ps)
        swapped =
            All-map (Settled cur t' t) (Settled cur t t') (cells h ps) (λ c s. (s.0, s.2, s.1))
              k.settled

        last : (t' + wl ≤ t) ⊎ (t + wl ≤ t') → Apart (cell_at t' 0) (t + base) wl
        last (inl a) = inl (omega (arith, length-le_bytes wl 0))
        last (inr a) = inr (omega arith)

    later_pointer : IsAt after (next_cell p)
    later_pointer =
        patches-Apart (next_cell p) (data_cell p ∷ []) _
          (inl (omega (arith, length-le_bytes wl 0)), tt) (patch-IsAt (next_cell p) _)

    new_pointer : t + wl ≤ cur → IsAt after (cell_at t p.pos)
    new_pointer le =
        let n = length-le_bytes wl p.pos in
        patches-Apart (cell_at t p.pos)
          (type_cell p ∷ c_len_cell p ∷ u_len_cell p ∷ next_cell p ∷ data_cell p ∷ []) _
          (
            inl (omega (arith, n)),
            (
              inl (omega (arith, n)),
              (inl (omega (arith, n)), (inl (omega (arith, n)), (inl (omega (arith, n)), tt))),
            ),
          )
          (patch-IsAt (cell_at t p.pos) byte)

    new_type : IsAt after (type_cell p)
    new_type =
        patches-Apart (type_cell p) (c_len_cell p ∷ u_len_cell p ∷ next_cell p ∷ data_cell p ∷ []) _
          (inl (omega arith), (inl (omega arith), (inl (omega arith), (inl (omega arith), tt))))
          (patch-IsAt (type_cell p) _)

    new_c_len : IsAt after (c_len_cell p)
    new_c_len =
        let n = length-le_bytes wl (length p.bytes) in
        patches-Apart (c_len_cell p) (u_len_cell p ∷ next_cell p ∷ data_cell p ∷ []) _
          (inl (omega (arith, n)), (inl (omega (arith, n)), (inl (omega (arith, n)), tt)))
          (patch-IsAt (c_len_cell p) _)

    new_u_len : IsAt after (u_len_cell p)
    new_u_len =
        let n = length-le_bytes wl p.u_len in
        patches-Apart (u_len_cell p) (next_cell p ∷ data_cell p ∷ []) _
          (inl (omega (arith, n)), (inl (omega (arith, n)), tt)) (patch-IsAt (u_len_cell p) _)

    new_data : IsAt after (data_cell p)
    new_data = patch-IsAt (data_cell p) _

    Settled-new :
        t + wl ≤ cur
        → t' + wl ≤ cur
        → (t + wl ≤ t') ⊎ (t' + wl ≤ t)
        → All (Settled (end_after p) (pointer_of p.pos) t') (cells t (p ∷ []))
    Settled-new le le' ap_ =
        let n = length-le_bytes wl p.pos in
        let c = length-le_bytes wl (length p.bytes) in
        let u = length-le_bytes wl p.u_len in
        (
          (omega (arith, n), inl (omega (arith, n)), last ap_),
          (
            (omega arith, inl (omega arith), inr (omega arith)),
            (
              (omega (arith, c), inl (omega (arith, c)), inr (omega arith)),
              (
                (omega (arith, u), inl (omega (arith, u)), inr (omega arith)),
                ((omega arith, inr (omega arith), inr (omega arith)), tt),
              ),
            ),
          ),
        )
      where
        last : (t + wl ≤ t') ⊎ (t' + wl ≤ t) → Apart (cell_at t p.pos) (t' + base) wl
        last (inl a) = inl (omega (arith, length-le_bytes wl p.pos))
        last (inr a) = inr (omega arith)

    -- The chain of the stream that the block is for has one block more.
    pub Chain-snoc :
        (h : ℕ) (ps : List Placed)
        → t' + wl ≤ cur
        → Chain byte cur t t' h ps
        → Chain after (end_after p) (pointer_of p.pos) t' h (ps ++ (p ∷ []))
    Chain-snoc h ps le' k = record {
      ends = tail-snoc h ps p;
      zero =
          ap (λ a. slice_at a)
            (let z : pointer_of p.pos + base ≡ p.pos + base + 1 + wl + wl = omega arith in z)
          ∙ later_pointer;
      holds = subst (All (IsAt after)) (sym split) (
          All-append (IsAt after) (cells h ps) (cells t (p ∷ []))
            (holds_after byte t t' p (cells h ps) (only_below (cells h ps) k.settled) k.holds)
            (new_pointer k.inside, (new_type, (new_c_len, (new_u_len, (new_data, tt))))));
      settled = subst (All (Settled (end_after p) (pointer_of p.pos) t')) (sym split) (
          All-append (Settled (end_after p) (pointer_of p.pos) t') (cells h ps) (cells t (p ∷ []))
            (Settled-after (cells h ps) k.settled) (Settled-new k.inside le' k.apart));
      inside = omega arith;
      apart = inr (omega arith);
    }
      where
        slice_at : ℕ → List ℕ
        slice_at a = slice after a (length (le_bytes wl 0))

        split : cells h (ps ++ (p ∷ [])) ≡ cells h ps ++ cells t (p ∷ [])
        split = cells-snoc h ps p ∙ ap (λ a. cells h ps ++ cells a (p ∷ [])) k.ends
