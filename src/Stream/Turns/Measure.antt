-- ===== src/Stream/Turns/Measure.antt =====
-- How many steps the threads of src/stream.c can still take.
use lrzip_next.Common.{ℕ, zero, suc, ◌+◌, ◌-◌, ◌*◌, ◌≤◌, ◌<◌, ◌≡◌, refl, sym, ap, arith, subst}
use lrzip_next.Common.{inl, inr, Option}
use lrzip_next.Stream.Turns.{
  Slot, free, passed, started, waiting, packed, written, Threads, update, Step, hand_job, prepare,
  wait_turn, retry, write_job, pass_turn, post, Reach, here, later, fresh,
}
use lrzip_next.Stream.Turns.Inv.{same_or, update-same, update-other, Reach-Inv}
use lrzip_next.Stream.Turns.Progress.{Reached}
use native.Mathlib.Nat.{mod-lt}

module _ {A : Type 0} (weight : A → ℕ) where
  abbrev pub total_weight : ℕ → (ℕ → A) → ℕ
  total_weight zero f = 0
  total_weight (suc m) f = total_weight m f + weight (f m)

  weight-outside :
      (m : ℕ) (f : ℕ → A) (i : ℕ) (a : A) → m ≤ i → total_weight m (update f i a) ≡ total_weight m f
  weight-outside zero f i a le = refl
  weight-outside (suc m) f i a le = omega (
    arith,
    weight-outside m f i a (omega arith),
    ap weight (update-other f i a m (λ e. omega (arith, e, le))),
  )

  pub weight-update :
      (m : ℕ) (f : ℕ → A) (i : ℕ) (a : A)
      → i < m
      → total_weight m (update f i a) + weight (f i) ≡ total_weight m f + weight a
  weight-update zero f i a lt = absurd (omega (arith, lt))
  weight-update (suc m) f i a lt = elim (same_or m i) [
    | inl e ↦ omega (
      arith,
      weight-outside m f i a (omega (arith, e)),
      ap weight (update-same f i a m e),
      ap (λ j. weight (f j)) e,
    )
    | inr e ↦
        omega
          (arith, weight-update m f i a (omega (arith, lt, e)), ap weight (update-other f i a m e))
  ]

abbrev pub rank : {J P : Type 0} → Slot J P → ℕ
rank free = 0
rank passed = 1
rank (written p) = 2
rank (packed p) = 3
rank (waiting j) = 4
rank (started j) = 5

module _ {J P S : Type 0} (n total : ℕ) (job : ℕ → J) (first second : J → Option P)
    (write : P → S → S) where
  abbrev pub steps_left : Threads J P S → ℕ
  steps_left s = 6 * (total - s.handed) + total_weight rank n s.slot

  moved :
      (s : Threads J P S) (i : ℕ) (x y : Slot J P)
      → i < n
      → s.slot i ≡ x
      → rank y < rank x
      → total_weight rank n (update s.slot i y) < total_weight rank n s.slot
  moved s i x y lt q less = omega (arith, weight-update rank n s.slot i y lt, ap rank q, less)

  -- Every step leaves fewer steps.
  Step-steps_left :
      {s t : Threads J P S}
      → s.current < n
      → Step n total job first second write s t
      → steps_left t < steps_left s
  Step-steps_left c (hand_job s more q) =
      omega
        (arith, more, ap rank q, weight-update rank n s.slot s.current (started (job s.handed)) c)
  Step-steps_left c (prepare s i j p lt q e) =
      omega (arith, moved s i (started j) (packed p) lt q (omega arith))
  Step-steps_left c (wait_turn s i j lt q e) =
      omega (arith, moved s i (started j) (waiting j) lt q (omega arith))
  Step-steps_left c (retry s i j p lt q o e) =
      omega (arith, moved s i (waiting j) (packed p) lt q (omega arith))
  Step-steps_left c (write_job s i p lt q o) =
      omega (arith, moved s i (packed p) (written p) lt q (omega arith))
  Step-steps_left c (pass_turn s i p lt q) =
      omega (arith, moved s i (written p) passed lt q (omega arith))
  Step-steps_left c (post s i lt q) = omega (arith, moved s i passed free lt q (omega arith))

  -- How many steps there have been.
  abbrev pub count : {s t : Threads J P S} → Reach n total job first second write s t → ℕ
  count here = 0
  count (later r st) = suc (count r)

  module _ (out : S) (some_threads : 0 < n) where
    resting : (m : ℕ) → total_weight rank m (fresh n total job first second write out).slot ≡ 0
    resting zero = refl
    resting (suc m) = omega (arith, resting m)

    -- In whatever order the steps come, there are at most six for each job, less those that are left.
    pub count-le :
        {s : Threads J P S} (r : Reached n total job first second write out some_threads s)
        → count r + steps_left s ≤ 6 * total
    count-le here = omega (arith, resting n)
    count-le (later {t} {u} r st) =
        let (done, inv) = Reach-Inv n total job first second write out some_threads r in
        omega (
          arith,
          count-le r,
          Step-steps_left (subst (λ c. c < n) (sym inv.current) (mod-lt t.handed some_threads)) st,
        )
