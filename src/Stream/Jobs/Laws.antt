-- ===== src/Stream/Jobs/Laws.antt =====
-- What the threads of src/stream.c write of a list of jobs gives the buffers of the jobs back.
use lrzip_next.Common.{
  ℕ, ◌+◌, ◌*◌, ◌^◌, ◌≤◌, ◌<◌, ◌≡◌, ◌≢◌, ◌⊎◌, refl, sym, ap, ap₂, ◌∙◌, arith, inl, inr, subst,
}
use lrzip_next.Common.{
  true, false, ltb, ◌==◌, if◌then◌else◌, Bool-cases, List, [], ◌∷◌, ◌++◌, length, take-all, flatten,
  All,
}
use lrzip_next.Common.Results.{fatal, Result, ok, err, ◌>>=◌}
use lrzip_next.Stream.Out.{StreamNo, stream0, stream1}
use lrzip_next.Stream.Backend.{Libraries, Levels, CompressThread, UncompThread}
use lrzip_next.Stream.Backend.Threads.{
  Codec, bzip3, Filters, FilterUse, compress_block, decompress_buf, decompress_block,
}
use lrzip_next.Stream.Backend.Laws.{Lossless, IsPlain, uncomp_of}
use lrzip_next.Stream.Backend.Block.{Invertible, IsFilterUse, Ready, ReadyIf, compress_block-Ready}
use lrzip_next.Stream.Disk.Write.{Packed}
use lrzip_next.Stream.Disk.Chain.{Placed}
use lrzip_next.Stream.Disk.Keeps.{placed_at}
use lrzip_next.Stream.Disk.Read.{number_of}
use lrzip_next.Stream.Disk.Blocks.{IsAccepted, IsFull, IsEmpty, thread_of, threads_of}
use lrzip_next.Stream.Disk.Layout.{layout}
use lrzip_next.Stream.Jobs.{packed_of, to_write, compress_jobs, decompress_threads}

-- A job that nothing has been done to, for its stream.
abbrev pub IsJob : StreamNo × CompressThread → Type 0
IsJob j = IsPlain j.1 × (j.1.streamno ≡ number_of j.0) × (j.1.s_len < 2 ^ 32)

-- The buffers of one stream.
abbrev pub buffers : StreamNo → List (StreamNo × CompressThread) → List (List ℕ)
buffers sn [] = []
buffers stream0 ((stream0, cti) ∷ js) = cti.s_buf ∷ buffers stream0 js
buffers stream0 ((stream1, cti) ∷ js) = buffers stream0 js
buffers stream1 ((stream0, cti) ∷ js) = buffers stream1 js
buffers stream1 ((stream1, cti) ∷ js) = cti.s_buf ∷ buffers stream1 js

abbrev HasEnded : {A : Type 0} → Result A → Type 0
HasEnded (ok a) = ⊥
HasEnded (err e) = Unit {0}

abbrev pub or_none : Result (List (StreamNo × Packed)) → List (StreamNo × Packed)
or_none (ok bs) = bs
or_none (err e) = []

-- What a list of jobs that has been compressed is made of.
pub compressed_parts :
    (sn : StreamNo) (r : Result CompressThread) (s : Result (List (StreamNo × Packed)))
    (bs : List (StreamNo × Packed))
    → (r >>= λ cti. to_write cti >>= λ p. s >>= λ rest. ok ((sn, p) ∷ rest)) ≡ ok bs
    → (cti : CompressThread) × (rest : List (StreamNo × Packed)) × (r ≡ ok cti)
      × (s ≡ ok rest)
      × ((sn, packed_of cti) ∷ rest ≡ bs)
compressed_parts sn (ok cti) s bs e = elim (Bool-cases (ltb (length cti.s_buf) cti.c_len)) [
  | inl longer ↦ absurd (
      subst HasEnded e (
        subst
          (λ b. HasEnded (
            (if b then err fatal else ok (packed_of cti)) >>= λ p.
            s >>= λ rest. ok ((sn, p) ∷ rest)))
          (sym longer) tt))
  | inr fits ↦ with_rest s (
      sym (
        ap
          (λ b. (if b then err fatal else ok (packed_of cti)) >>= λ p.
            s >>= λ rest. ok ((sn, p) ∷ rest))
          fits)
      ∙ e)
]
  where
    with_rest :
        (s : Result (List (StreamNo × Packed)))
        → (s >>= λ rest. ok ((sn, packed_of cti) ∷ rest)) ≡ ok bs
        → (cti' : CompressThread) × (rest : List (StreamNo × Packed)) × (ok cti ≡ ok cti')
          × (s ≡ ok rest)
          × ((sn, packed_of cti') ∷ rest ≡ bs)
    with_rest (ok rest) h = (cti, rest, refl, refl, ap or_none h)
    with_rest (err x) h = absurd (subst HasEnded h tt)
compressed_parts sn (err x) s bs e = absurd (subst HasEnded e tt)

-- A buffer of the length that is stored is written whole.
packed_of-whole :
    (cti : CompressThread)
    → length cti.s_buf ≡ cti.c_len
    → packed_of cti ≡ record { c_type = cti.c_type; s_len = cti.s_len; s_buf = cti.s_buf }
packed_of-whole cti e =
    ap (λ bs. record { c_type = cti.c_type; s_len = cti.s_len; s_buf = bs })
      (take-all cti.c_len cti.s_buf (omega (arith, e)))

-- The limit of bzip3 for the block of a job.
abbrev pub IsWithin : Levels → Codec → StreamNo × CompressThread → Type 0
IsWithin levels codec j = codec ≡ bzip3 → j.1.s_len ≤ levels.bzip3_block_size

module _ (libs later : Libraries) (levels : Levels) (codec : Codec) (sdk : Filters)
    (use_of : FilterUse) (law : Lossless libs levels) (law_later : Lossless later levels)
    (same : (uci : UncompThread) → decompress_buf later levels uci ≡ decompress_buf libs levels uci)
    (inv : Invertible sdk) (valid : IsFilterUse use_of) (no_riscv : use_of.flag ≢ 8)
    (granted : (n : ℕ) → libs.can_malloc n ≡ true)
    (granted_later : (n : ℕ) → later.can_malloc n ≡ true)
    (fresh_size : (n : ℕ) → length (libs.fresh n) ≡ n)
    (fresh_later : (n : ℕ) → length (later.fresh n) ≡ n) where
  -- The block of a job gives its buffer back.
  pub record GivesBack (j : StreamNo × CompressThread) (b : StreamNo × Packed) : Type 0 where
    pub stream : b.0 ≡ j.0
    pub len : b.1.s_len ≡ length j.1.s_buf
    pub back :
        decompress_block libs later levels sdk use_of (thread_of j.0 (placed_at 0 b.1))
        ≡ ok (record (thread_of j.0 (placed_at 0 b.1)) { s_buf = j.1.s_buf })

  abbrev pub GiveBack : List (StreamNo × CompressThread) → List (StreamNo × Packed) → Type 0
  GiveBack [] [] = Unit {0}
  GiveBack [] (b ∷ bs) = ⊥
  GiveBack (j ∷ js) [] = ⊥
  GiveBack (j ∷ js) (b ∷ bs) = GivesBack j b × GiveBack js bs

  gives_back :
      (j : StreamNo × CompressThread) (cti : CompressThread)
      → IsJob j
      → IsWithin levels codec j
      → compress_block libs later levels codec sdk use_of j.1 ≡ ok cti
      → GivesBack j (j.0, packed_of cti)
  gives_back j cti (plain, number, small) within e =
      let r : Ready libs later levels codec sdk use_of j.1 law law_later same inv valid no_riscv
          plain (granted _) (granted_later _) (fresh_size _) (fresh_later _) small cti =
        subst
          (ReadyIf libs later levels codec sdk use_of j.1 law law_later same inv valid no_riscv
            plain (granted _) (granted_later _) (fresh_size _) (fresh_later _) small)
          e
          (compress_block-Ready libs later levels codec sdk use_of j.1 law law_later same inv valid
            no_riscv plain (granted _) (granted_later _) (fresh_size _) (fresh_later _) small
            within) in
      let block : Packed = record { c_type = cti.c_type; s_len = cti.s_len; s_buf = cti.s_buf } in
      let t : uncomp_of cti ≡ thread_of j.0 (placed_at 0 block) =
        ap₂
          (λ n c. record {
            streamno = n;
            c_type = cti.c_type;
            u_len = cti.s_len;
            c_len = c;
            s_buf = cti.s_buf;
          })
          (r.stream ∙ number) (sym r.stored) in
      subst (λ p. GivesBack j (j.0, p)) (sym (packed_of-whole cti r.stored))
        (record {
          stream = refl;
          len = r.whole ∙ plain.len;
          back =
              subst
                (λ u.
                  decompress_block libs later levels sdk use_of u
                  ≡ ok (record u { s_buf = j.1.s_buf }))
                t r.comes_back;
        })

  pub compress_jobs-GiveBack :
      (js : List (StreamNo × CompressThread)) (bs : List (StreamNo × Packed))
      → All IsJob js
      → All (IsWithin levels codec) js
      → compress_jobs libs later levels codec sdk use_of js ≡ ok bs
      → GiveBack js bs
  unfolding compress_jobs
  compress_jobs-GiveBack [] bs h within e = subst (GiveBack []) (ap or_none e) tt
  compress_jobs-GiveBack (j ∷ js) bs h within e =
      let (cti, rest, r, s, b) =
        compressed_parts j.0 (compress_block libs later levels codec sdk use_of j.1)
          (compress_jobs libs later levels codec sdk use_of js) bs e in
      subst (GiveBack (j ∷ js)) b
        (gives_back j cti h.0 within.0 r, compress_jobs-GiveBack js rest h.1 within.1 s)

  -- Of the first block, and of the others.
  IsAccepted-parts :
      (wl size : ℕ) (sn : StreamNo) (p : Placed) (ps : List Placed)
      → IsAccepted wl size sn (p ∷ ps)
      → (IsFull wl p ⊎ IsEmpty sn p) × IsAccepted wl size sn ps
  IsAccepted-parts wl size sn p [] h = (h, tt)
  IsAccepted-parts wl size sn p (q ∷ ps) h = (inl h.0, h.2)

  nil_of : (bs : List ℕ) → length bs ≡ 0 → bs ≡ []
  nil_of [] e = refl
  nil_of (b ∷ bs) e = absurd (omega (arith, e))

  -- The buffers that the threads of these blocks leave, put together, are `whole`.
  abbrev pub Leaves : StreamNo → List Placed → List ℕ → Type 0
  Leaves sn ps whole =
      (bss : List (List ℕ)) × (decompress_threads libs later levels codec sdk use_of
          (threads_of sn ps)
        ≡ ok bss)
      × (flatten bss ≡ whole)

  Leaves-more :
      (wl : ℕ) (sn : StreamNo) (p : Placed) (ps : List Placed) (buf whole : List ℕ)
      → IsFull wl p ⊎ IsEmpty sn p
      → p.u_len ≡ length buf
      → decompress_block libs later levels sdk use_of (thread_of sn p)
        ≡ ok (record (thread_of sn p) { s_buf = buf })
      → Leaves sn ps whole
      → Leaves sn (p ∷ ps) (buf ++ whole)
  unfolding decompress_threads flatten
  Leaves-more wl sn p ps buf whole (inl full) len back (bss, e, f) =
      let y : (length p.bytes == 0) ≡ false = ground (arith, full) in
      (buf ∷ bss, rw (y, back, e) refl, ap (λ r. buf ++ r) f)
  Leaves-more wl sn p ps buf whole (inr empty) len back (bss, e, f) =
      let z : length p.bytes ≡ 0 = ap length empty.2 in
      let y : (length p.bytes == 0) ≡ true = ground (arith, z) in
      (bss, rw y e, f ∙ ap (λ r. r ++ whole) (sym (nil_of buf (sym len ∙ empty.3))))

  different : stream0 ≡ stream1 → ⊥
  different e = subst (λ sn. elim sn [ stream0 ↦ Unit {0} | stream1 ↦ ⊥ ]) e tt

  pub layout-Leaves :
      (wl size : ℕ) (sn : StreamNo) (pos : ℕ) (js : List (StreamNo × CompressThread))
      (bs : List (StreamNo × Packed))
      → GiveBack js bs
      → IsAccepted wl size sn (layout wl sn pos bs)
      → Leaves sn (layout wl sn pos bs) (flatten (buffers sn js))
  unfolding decompress_threads flatten
  layout-Leaves wl size sn pos [] [] g acc = ([], refl, refl)
  layout-Leaves wl size sn pos [] (b ∷ bs) g acc = absurd g
  layout-Leaves wl size sn pos (j ∷ js) [] g acc = absurd g
  layout-Leaves wl size stream0 pos ((stream0, cti) ∷ js) ((stream0, p) ∷ bs) g acc =
      let next = pos + (1 + wl * 3) + length p.s_buf in
      let (first, others) =
        IsAccepted-parts wl size stream0 (placed_at pos p) (layout wl stream0 next bs) acc in
      Leaves-more wl stream0 (placed_at pos p) (layout wl stream0 next bs) cti.s_buf _ first g.0.len
        g.0.back (layout-Leaves wl size stream0 next js bs g.1 others)
  layout-Leaves wl size stream1 pos ((stream1, cti) ∷ js) ((stream1, p) ∷ bs) g acc =
      let next = pos + (1 + wl * 3) + length p.s_buf in
      let (first, others) =
        IsAccepted-parts wl size stream1 (placed_at pos p) (layout wl stream1 next bs) acc in
      Leaves-more wl stream1 (placed_at pos p) (layout wl stream1 next bs) cti.s_buf _ first g.0.len
        g.0.back (layout-Leaves wl size stream1 next js bs g.1 others)
  layout-Leaves wl size stream0 pos ((stream1, cti) ∷ js) ((stream1, p) ∷ bs) g acc =
      layout-Leaves wl size stream0 (pos + (1 + wl * 3) + length p.s_buf) js bs g.1 acc
  layout-Leaves wl size stream1 pos ((stream0, cti) ∷ js) ((stream0, p) ∷ bs) g acc =
      layout-Leaves wl size stream1 (pos + (1 + wl * 3) + length p.s_buf) js bs g.1 acc
  layout-Leaves wl size sn pos ((stream0, cti) ∷ js) ((stream1, p) ∷ bs) g acc =
      absurd (different (sym g.0.stream))
  layout-Leaves wl size sn pos ((stream1, cti) ∷ js) ((stream0, p) ∷ bs) g acc =
      absurd (different g.0.stream)
