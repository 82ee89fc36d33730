-- ===== src/Stream/Disk/Blocks.antt =====
-- The blocks of a stream are read from the file as `compthread` of src/stream.c has written them.
use lrzip_next.Common.{
  ℕ, zero, suc, ◌+◌, ◌^◌, ◌≤◌, ◌<◌, ◌≡◌, ◌⊎◌, max, refl, sym, ap, ◌∙◌, arith, inl, inr, subst,
}
use lrzip_next.Common.{Bool, true, false, ltb, ◌==◌, if◌then◌else◌}
use lrzip_next.Common.{List, [], ◌∷◌, length, All, none, some}
use lrzip_next.Common.Results.{ok, ◌>>=◌}
use lrzip_next.Bytes.{le_bytes, of_le, length-le_bytes, of_le-le_bytes}
use lrzip_next.Rzip.Slice.{slice}
use lrzip_next.Stream.Out.{StreamNo, stream1}
use lrzip_next.Stream.Backend.{UncompThread}
use lrzip_next.Stream.Disk.{File, get, get_val}
use lrzip_next.Stream.Disk.Cells.{Cell, IsAt}
use lrzip_next.Stream.Disk.Chain.{
  Placed, cell_at, pointer_of, type_cell, c_len_cell, u_len_cell, data_cell, cells, tail,
}
use lrzip_next.Stream.Disk.Read.{
  ChunkIn, number_of, is_negative, seek_block, is_invalid, fill_another, fill_stream,
}

-- The file at another offset.
abbrev pub at : ℕ → File → File
at a f = record f { ofs = a }

pub get-IsAt :
    (f : File) (a n : ℕ) (bs : List ℕ)
    → length bs ≡ n
    → IsAt f.byte (record { addr = a; bytes = bs })
    → a + n ≤ f.size
    → get n (at a f) ≡ ok (bs, at (a + n) f)
unfolding get
get-IsAt f a n bs e h le =
    let t : ltb f.size (a + n) ≡ false = ground arith in
    rw t (ap (λ xs. ok (xs, at (a + n) f)) (ap (slice f.byte a) (sym e) ∙ h))

-- A value that fits its field comes back.
pub get_val-IsAt :
    (f : File) (a n v : ℕ)
    → v < 256 ^ n
    → IsAt f.byte (record { addr = a; bytes = le_bytes n v })
    → a + n ≤ f.size
    → get_val n (at a f) ≡ ok (v, at (a + n) f)
unfolding get_val
get_val-IsAt f a n v lt h le =
    rw (get-IsAt f a n (le_bytes n v) (length-le_bytes n v) h le)
      (ap (λ k. ok (k, at (a + n) f)) (of_le-le_bytes n v lt))

pub get_u8-IsAt :
    (f : File) (a v : ℕ)
    → v < 256
    → IsAt f.byte (record { addr = a; bytes = v ∷ [] })
    → a + 1 ≤ f.size
    → get_val 1 (at a f) ≡ ok (v, at (a + 1) f)
unfolding get_val of_le
get_u8-IsAt f a v lt h le =
    rw (get-IsAt f a 1 (v ∷ []) refl h le)
      (ap (λ k. ok (k, at (a + 1) f)) (let z : of_le (v ∷ []) ≡ v = omega arith in z))

pow-positive : (n : ℕ) → 0 < 256 ^ n
pow-positive zero = omega arith
pow-positive (suc n) = omega (arith, pow-positive n)

-- A value that is at least 1 and not negative.
abbrev pub IsLength : ℕ → ℕ → Type 0
IsLength wl v = (0 < v) × (v < 2 ^ 63) × (v < 256 ^ wl)

-- A pointer that `fill_buffer` takes for the next one behind `here`.
abbrev pub IsNext : ℕ → ℕ → ℕ → ℕ → Type 0
IsNext wl size here next = (here < next) × (next ≤ size) × (next < 2 ^ 63) × (next < 256 ^ wl)

-- A block with bytes in it.
abbrev pub IsFull : ℕ → Placed → Type 0
IsFull wl p = (p.c_type < 256) × IsLength wl (length p.bytes) × IsLength wl p.u_len

-- The "empty match block" that may end stream 1.
abbrev pub IsEmpty : StreamNo → Placed → Type 0
IsEmpty sn p = (p.c_type < 256) × (sn ≡ stream1) × (p.bytes ≡ []) × (p.u_len ≡ 0)

-- What `fill_buffer` accepts: full blocks, but for an empty one at the end of stream 1, each behind the
-- one before, and all but the first within `size`.
abbrev pub IsAccepted : ℕ → ℕ → StreamNo → List Placed → Type 0
IsAccepted wl size sn [] = Unit {0}
IsAccepted wl size sn (p ∷ []) = IsFull wl p ⊎ IsEmpty sn p
IsAccepted wl size sn (p ∷ q ∷ ps) =
    IsFull wl p × IsNext wl size p.pos q.pos × IsAccepted wl size sn (q ∷ ps)

-- The thread that is started for a block.
abbrev pub thread_of : StreamNo → Placed → UncompThread
thread_of sn p = record {
  streamno = number_of sn;
  c_type = p.c_type;
  u_len = p.u_len;
  c_len = length p.bytes;
  s_buf = p.bytes;
}

-- A block and the pointer behind it, in a file that is long enough.
record IsStored (f : File) (base wl : ℕ) (p : Placed) (next : ℕ) : Type 0 where
  type_at : IsAt f.byte (type_cell base wl p)
  c_len_at : IsAt f.byte (c_len_cell base wl p)
  u_len_at : IsAt f.byte (u_len_cell base wl p)
  next_at : IsAt f.byte (cell_at base wl (pointer_of base wl p.pos) next)
  data_at : IsAt f.byte (data_cell base wl p)
  long : p.pos + base + 1 + wl + wl + wl + length p.bytes ≤ f.size

module _ (can_malloc : ℕ → Bool) (granted : (n : ℕ) → can_malloc n ≡ true) (sinfo : ChunkIn)
    (f : File) where
  abbrev wl : ℕ
  wl = sinfo.chunk_bytes

  abbrev base : ℕ
  base = sinfo.initial_pos

  module _ (p : Placed) (next : ℕ) (s : IsStored f base wl p next) (typed : p.c_type < 256)
      (c_fits : length p.bytes < 256 ^ wl) (u_fits : p.u_len < 256 ^ wl) (fits : next < 256 ^ wl)
      (low : p.pos < 2 ^ 63) where
    abbrev a : ℕ
    a = p.pos + base

    seeks : seek_block p.pos base f ≡ ok (at a f)
    seeks = let t : is_negative p.pos ≡ false = ground (arith, low) in rw t refl

    gets_type : get_val 1 (at a f) ≡ ok (p.c_type, at (a + 1) f)
    gets_type = get_u8-IsAt f a p.c_type typed s.type_at (omega (arith, s.long))

    gets_c_len : get_val wl (at (a + 1) f) ≡ ok (length p.bytes, at (a + 1 + wl) f)
    gets_c_len =
        get_val-IsAt f (a + 1) wl (length p.bytes) c_fits s.c_len_at (omega (arith, s.long))

    gets_u_len : get_val wl (at (a + 1 + wl) f) ≡ ok (p.u_len, at (a + 1 + wl + wl) f)
    gets_u_len = get_val-IsAt f (a + 1 + wl) wl p.u_len u_fits s.u_len_at (omega (arith, s.long))

    gets_next : get_val wl (at (a + 1 + wl + wl) f) ≡ ok (next, at (a + 1 + wl + wl + wl) f)
    gets_next =
        get_val-IsAt f (a + 1 + wl + wl) wl next fits
          (subst (λ k. IsAt f.byte (record { addr = k; bytes = le_bytes wl next })) (omega arith)
            s.next_at)
          (omega (arith, s.long))

    gets_data :
        get (length p.bytes) (at (a + 1 + wl + wl + wl) f)
        ≡ ok (p.bytes, at (a + 1 + wl + wl + wl + length p.bytes) f)
    gets_data = get-IsAt f (a + 1 + wl + wl + wl) (length p.bytes) p.bytes refl s.data_at s.long

    fills_full :
        (sn : StreamNo)
        → 0 < length p.bytes
        → is_invalid can_malloc sinfo.size p.pos (length p.bytes) p.u_len next ≡ false
        → fill_another can_malloc sinfo sn p.pos f
          ≡ ok (some (thread_of sn p), next, at (a + 1 + wl + wl + wl + length p.bytes) f)
    unfolding fill_another
    fills_full sn lo v =
        let z : (length p.bytes == 0) ≡ false = ground arith in
        rw
          (
            seeks,
            gets_type,
            gets_c_len,
            gets_u_len,
            gets_next,
            z,
            v,
            granted (max p.u_len (length p.bytes)),
            gets_data,
          )
          refl

    fills_empty :
        p.bytes ≡ []
        → p.u_len ≡ 0
        → next ≡ 0
        → fill_another can_malloc sinfo stream1 p.pos f
          ≡ ok (none, next, at (a + 1 + wl + wl + wl) f)
    unfolding fill_another
    fills_empty b u e =
        let z : (length p.bytes == 0) ≡ true = rw b refl in
        let y : (p.u_len == 0) ≡ true = ground arith in
        let x : (next == 0) ≡ true = ground arith in
        rw (seeks, gets_type, gets_c_len, gets_u_len, gets_next, z, y) (rw (x, ◌>>=◌) refl)

  -- What is stored of a block that another one follows, and of the last one.
  stored :
      (h next : ℕ) (p : Placed)
      → All (IsAt f.byte) (cells base wl h (p ∷ []))
      → IsAt f.byte (cell_at base wl (pointer_of base wl p.pos) next)
      → p.pos + base + 1 + wl + wl + wl + length p.bytes ≤ f.size
      → IsStored f base wl p next
  stored h next p k n le = record {
    type_at = k.1.0;
    c_len_at = k.1.1.0;
    u_len_at = k.1.1.1.0;
    next_at = n;
    data_at = k.1.1.1.1.0;
    long = le;
  }

-- The threads of these blocks; an empty block has none.
abbrev pub threads_of : StreamNo → List Placed → List UncompThread
threads_of sn [] = []
threads_of sn (p ∷ ps) =
    if length p.bytes == 0 then threads_of sn ps else thread_of sn p ∷ threads_of sn ps

abbrev pub IsLong : ℕ → Cell → Type 0
IsLong size c = c.addr + length c.bytes ≤ size

module _ (can_malloc : ℕ → Bool) (granted : (n : ℕ) → can_malloc n ≡ true) (sinfo : ChunkIn)
    (sn : StreamNo) where
  -- The blocks of a chain in the file are handed to threads in their order.
  pub fill_stream-cells :
      (h fuel : ℕ) (p : Placed) (ps : List Placed) (f : File)
      → length ps < fuel
      → p.pos < 2 ^ 63
      → All (IsAt f.byte) (cells sinfo.initial_pos sinfo.chunk_bytes h (p ∷ ps))
      → IsAt f.byte (
          cell_at sinfo.initial_pos sinfo.chunk_bytes
            (tail sinfo.initial_pos sinfo.chunk_bytes h (p ∷ ps))
            0)
      → All (IsLong f.size) (cells sinfo.initial_pos sinfo.chunk_bytes h (p ∷ ps))
      → IsAccepted sinfo.chunk_bytes sinfo.size sn (p ∷ ps)
      → fill_stream can_malloc fuel sinfo sn p.pos f ≡ ok (threads_of sn (p ∷ ps))
  unfolding fill_stream
  fill_stream-cells h zero p ps f lt low k z l acc = absurd (omega (arith, lt))
  fill_stream-cells h (suc fuel) p [] f lt low k z l acc = elim acc [
    | inl full ↦
        let s = stored can_malloc granted sinfo f h 0 p k z l.1.1.1.1.0 in
        let v : is_invalid can_malloc sinfo.size p.pos (length p.bytes) p.u_len 0 ≡ false =
          ground (arith, full) in
        let y : (length p.bytes == 0) ≡ false = ground (arith, full) in
        rw
          (
            fills_full can_malloc granted sinfo f p 0 s full.0 full.1.2 full.2.2
                (omega (arith, full)) low sn full.1.0 v,
            y,
          )
          refl
    | inr empty ↦
        let s = stored can_malloc granted sinfo f h 0 p k z l.1.1.1.1.0 in
        let positive = pow-positive sinfo.chunk_bytes in
        let none_left : length p.bytes ≡ 0 = ap length empty.2 in
        let y : (length p.bytes == 0) ≡ true = ground (arith, none_left) in
        let e =
          fills_empty can_malloc granted sinfo f p 0 s empty.0 (omega (arith, none_left, positive))
            (omega (arith, empty.3, positive)) positive low empty.2 empty.3 refl in
        rw
          (
            subst
                (λ n.
                  fill_another can_malloc sinfo n p.pos f
                  ≡ ok (
                    none,
                    0,
                    at
                        (p.pos + sinfo.initial_pos + 1 + sinfo.chunk_bytes + sinfo.chunk_bytes
                          + sinfo.chunk_bytes)
                        f,
                  ))
                (sym empty.1) e,
            y,
          )
          refl
  ]
  fill_stream-cells h (suc fuel) p (q ∷ ps) f lt low k z l acc =
      let s =
        stored can_malloc granted sinfo f h q.pos p
          (k.0, (k.1.0, (k.1.1.0, (k.1.1.1.0, (k.1.1.1.1.0, tt))))) k.1.1.1.1.1.0 l.1.1.1.1.0 in
      let (full, next, rest) = acc in
      let v : is_invalid can_malloc sinfo.size p.pos (length p.bytes) p.u_len q.pos ≡ false =
        ground (arith, full, next) in
      let y : (length p.bytes == 0) ≡ false = ground (arith, full) in
      let x : (q.pos == 0) ≡ false = ground (arith, next) in
      let stop : ℕ =
        p.pos
        + sinfo.initial_pos
        + 1
        + sinfo.chunk_bytes
        + sinfo.chunk_bytes
        + sinfo.chunk_bytes
        + length p.bytes in
      rw
        (
          fills_full can_malloc granted sinfo f p q.pos s full.0 full.1.2 full.2.2 next.3 low sn
              full.1.0 v,
          y,
        )
        (rw (x, ◌>>=◌)
          (rw
            (fill_stream-cells (pointer_of sinfo.initial_pos sinfo.chunk_bytes p.pos) fuel q ps
              (at stop f) (omega (arith, lt)) next.2 k.1.1.1.1.1 z l.1.1.1.1.1 rest)
            refl))
