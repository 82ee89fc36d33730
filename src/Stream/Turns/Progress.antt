-- ===== src/Stream/Turns/Progress.antt =====
-- The threads of src/stream.c write all the blocks in their order: they never wait for each other for
-- ever, and every step brings them nearer to the end.
use lrzip_next.Common.{ℕ, ◌+◌, ◌%◌, ◌≤◌, ◌<◌, ◌≡◌, ◌⊎◌, refl, sym, ap, ◌∙◌, arith, subst}
use lrzip_next.Common.{inl, inr, Option, none, some}
use native.Mathlib.Nat.{mod-lt}
use lrzip_next.Stream.Turns.{
  Slot, free, passed, started, waiting, packed, written, Threads, Step, hand_job, prepare,
  wait_turn, retry, write_job, pass_turn, post, Reach, fresh,
}
use lrzip_next.Stream.Turns.Inv.{same_or, Written, Inv, Active, Resting, credit, Reach-Inv, begun}

module _ {J P S : Type 0} (n total : ℕ) (job : ℕ → J) (first second : J → Option P)
    (write : P → S → S) (out : S) (some_threads : 0 < n) where
  abbrev pub Reached : Threads J P S → Type 0
  Reached s = Reach n total job first second write (fresh n total job first second write out) s

  written_so_far :
      (done : ℕ) (s : Threads J P S)
      → Inv n total job first second write out done s
      → done + credit n total job first second write (s.slot (done % n)) ≤ total
  written_so_far done s inv = bound (s.slot (done % n)) refl
    where
      bound :
          (x : Slot J P)
          → s.slot (done % n) ≡ x
          → done + credit n total job first second write (s.slot (done % n)) ≤ total
      bound free q = omega (arith, inv.lo, inv.most, ap (credit n total job first second write) q)
      bound passed q = omega (arith, inv.lo, inv.most, ap (credit n total job first second write) q)
      bound (started j) q =
          omega (arith, inv.lo, inv.most, ap (credit n total job first second write) q)
      bound (waiting j) q =
          omega (arith, inv.lo, inv.most, ap (credit n total job first second write) q)
      bound (packed p) q =
          omega (arith, inv.lo, inv.most, ap (credit n total job first second write) q)
      bound (written p) q = omega (
        arith,
        inv.most,
        ap (credit n total job first second write) q,
        begun n total job first second write out some_threads done s inv
            (λ r. subst (Resting n total job first second write) q r),
      )

  -- In whatever order the steps of the threads come: what has been written is the blocks of the first
  -- jobs, as many as there are, one after another.
  pub Reach-Written :
      (s : Threads J P S)
      → Reached s
      → (k : ℕ) × (k ≤ total) × Written n total job first second write out k s.out
  Reach-Written s r =
      let (done, inv) = Reach-Inv n total job first second write out some_threads r in
      (
        done + credit n total job first second write (s.slot (done % n)),
        written_so_far done s inv,
        inv.wrote,
      )

  -- All is written, and no job is left.
  abbrev pub Finished : Threads J P S → Type 0
  Finished s = (s.handed ≡ total) × Written n total job first second write out total s.out

  abbrev pub Steps : Threads J P S → Type 0
  Steps s = (t : Threads J P S) × Step n total job first second write s t

  module _
      (lasts : (k : ℕ)
        → k < total
        → first (job k) ≡ none
        → (p : P) × (second (job k) ≡ some p)) where
    tries :
        (s : Threads J P S) (i : ℕ) (j : J)
        → i < n
        → s.slot i ≡ started j
        → (o : Option P) → first j ≡ o
        → Steps s
    tries s i j lt q none e = (_, wait_turn s i j lt q e)
    tries s i j lt q (some p) e = (_, prepare s i j p lt q e)

    turn_steps :
        (s : Threads J P S) (done : ℕ)
        → Inv n total job first second write out done s
        → (x : Slot J P) → s.slot (done % n) ≡ x
        → done < s.handed
        → Active n total job first second write done done x
        → Steps s
    turn_steps s done inv free q lt a = absurd a
    turn_steps s done inv passed q lt a = absurd a
    turn_steps s done inv (started j) q lt a =
        tries s (done % n) j (mod-lt done some_threads) q (first j) refl
    turn_steps s done inv (waiting j) q lt a =
        let (p, e) = lasts done (omega (arith, lt, inv.most)) (ap first (sym a.0) ∙ a.1) in
        (_, retry s (done % n) j p (mod-lt done some_threads) q inv.output (ap second a.0 ∙ e))
    turn_steps s done inv (packed p) q lt a =
        (_, write_job s (done % n) p (mod-lt done some_threads) q inv.output)
    turn_steps s done inv (written p) q lt a =
        (_, pass_turn s (done % n) p (mod-lt done some_threads) q)

    next_job :
        (s : Threads J P S) (done : ℕ)
        → Inv n total job first second write out done s
        → s.handed < total
        → (x : Slot J P) → s.slot (s.handed % n) ≡ x
        → Resting n total job first second write x
        → Steps s
    next_job s done inv more free q r = (_, hand_job s more (ap s.slot inv.current ∙ q))
    next_job s done inv more passed q r =
        (_, post s (s.handed % n) (mod-lt s.handed some_threads) q)
    next_job s done inv more (started j) q r = absurd r
    next_job s done inv more (waiting j) q r = absurd r
    next_job s done inv more (packed p) q r = absurd r
    next_job s done inv more (written p) q r = absurd r

    -- Where each job that fails at the first try succeeds at the second one: in whatever order the steps
    -- have come, there is a next step, or all jobs have been handed over and written.
    pub Reach-steps : (s : Threads J P S) → Reached s → Steps s ⊎ Finished s
    Reach-steps s r =
        let (done, inv) = Reach-Inv n total job first second write out some_threads r in
        elim (same_or done s.handed) [
          | inr busy ↦ inl (
              turn_steps s done inv (s.slot (done % n)) refl (omega (arith, busy, inv.lo))
                (inv.active done (omega arith) (omega (arith, busy, inv.lo))))
          | inl caught_up ↦ elim (same_or s.handed total) [
            | inr more ↦ inl (
                next_job s done inv (omega (arith, more, inv.most)) (s.slot (s.handed % n)) refl
                  (inv.rests s.handed (omega arith) (omega (arith, caught_up, some_threads))))
            | inl no_more ↦
                inr (no_more, all_written s done inv (s.slot (done % n)) refl caught_up no_more)
          ]
        ]
      where
        all_written :
            (s : Threads J P S) (done : ℕ)
            → Inv n total job first second write out done s
            → (x : Slot J P) → s.slot (done % n) ≡ x
            → done ≡ s.handed
            → s.handed ≡ total
            → Written n total job first second write out total s.out
        all_written s done inv x q e f =
            subst (λ c. Written n total job first second write out c s.out)
              (let z : done + credit n total job first second write (s.slot (done % n)) ≡ total =
                  omega (arith, e, f, written_so_far done s inv) in
                z)
              inv.wrote
