-- ===== src/Stream/Turns/Inv.antt =====
-- In any order of the steps of src/stream.c's threads, what has been written is the blocks of the first
-- jobs, one after another.
use native.Mathlib.Nat.{mod-eq_of_lt}
use lrzip_next.Common.{ℕ, suc, ◌+◌, ◌%◌, ◌≤◌, ◌<◌, ◌≡◌, ◌≢◌, ◌⊎◌, refl, sym, ap, ◌∙◌, arith, subst}
use lrzip_next.Common.{true, false, ◌==◌, ==→eq, Bool-cases, inl, inr, Option, none}
use lrzip_next.Stream.Turns.{
  Slot, free, passed, started, waiting, packed, written, Threads, update, next_thread, Step,
  hand_job, prepare, wait_turn, retry, write_job, pass_turn, post, Reach, here, later, fresh, Makes,
}
use lrzip_next.Stream.Turns.Slots.{threads_differ, mod-next, mod-around}

module _ {A : Type 0} (f : ℕ → A) (i : ℕ) (a : A) where
  pub update-same : (j : ℕ) → j ≡ i → update f i a j ≡ a
  update-same j e = let t : (j == i) ≡ true = ground (arith, e) in rw t refl

  pub update-other : (j : ℕ) → j ≢ i → update f i a j ≡ f j
  update-other j ne = let t : (j == i) ≡ false = ground (arith, ne) in rw t refl

pub same_or : (j i : ℕ) → (j ≡ i) ⊎ (j ≢ i)
same_or j i = elim (Bool-cases (j == i)) [
  | inl e ↦ inl (==→eq j i e)
  | inr e ↦ inr (λ t. ground (arith, e, t))
]

module _ {J P S : Type 0} (n total : ℕ) (job : ℕ → J) (first second : J → Option P)
    (write : P → S → S) where
  -- The blocks of the first `k` jobs, written one after another, from `out` on.
  pub data Written (out : S) : ℕ → S → Type 0 where
    begin : Written out 0 out
    write_next :
        {k : ℕ} {s : S} {p : P}
        → Written out k s
        → Makes n total job first second write (job k) p
        → Written out (suc k) (write p s)

  -- The thread of the job `k`, when `done` turns have been passed on.
  abbrev pub Active : ℕ → ℕ → Slot J P → Type 0
  Active done k free = ⊥
  Active done k passed = ⊥
  Active done k (started j) = j ≡ job k
  Active done k (waiting j) = (j ≡ job k) × (first j ≡ none)
  Active done k (packed p) = Makes n total job first second write (job k) p
  Active done k (written p) = k ≡ done

  abbrev pub Resting : Slot J P → Type 0
  Resting free = Unit {0}
  Resting passed = Unit {0}
  Resting (started j) = ⊥
  Resting (waiting j) = ⊥
  Resting (packed p) = ⊥
  Resting (written p) = ⊥

  -- The job that has been written but whose turn is not passed on.
  abbrev pub credit : Slot J P → ℕ
  credit free = 0
  credit passed = 0
  credit (started j) = 0
  credit (waiting j) = 0
  credit (packed p) = 0
  credit (written p) = 1

  -- `done` turns have been passed on.
  pub record Inv (out : S) (done : ℕ) (s : Threads J P S) : Type 0 where
    pub lo : done ≤ s.handed
    pub hi : s.handed ≤ done + n
    pub most : s.handed ≤ total
    pub current : s.current ≡ s.handed % n
    pub output : s.output_thread ≡ done % n
    pub active : (k : ℕ) → done ≤ k → k < s.handed → Active done k (s.slot (k % n))
    pub rests : (k : ℕ) → s.handed ≤ k → k < done + n → Resting (s.slot (k % n))
    pub turn : (i : ℕ) (p : P) → s.slot i ≡ written p → i ≡ s.output_thread
    pub wrote : Written out (done + credit (s.slot (done % n))) s.out

  module _ (out : S) (some_threads : 0 < n) where
    fresh-Inv : Inv out 0 (fresh n total job first second write out)
    fresh-Inv = record {
      lo = omega arith;
      hi = omega arith;
      most = omega arith;
      current = zero_mod;
      output = zero_mod;
      active = λ k a b. absurd (omega (arith, a, b));
      rests = λ k a b. tt;
      turn = λ i p e. cc;
      wrote = begin;
    }
      where
        zero_mod : 0 ≡ 0 % n
        zero_mod = sym (mod-eq_of_lt some_threads)

    credit-update :
        (f : ℕ → Slot J P) (i j : ℕ) (x : Slot J P)
        → credit (f i) ≡ credit x
        → credit (update f i x j) ≡ credit (f j)
    credit-update f i j x e = elim (same_or j i) [
      | inl t ↦ ap credit (update-same f i x j t) ∙ sym e ∙ ap (λ k. credit (f k)) (sym t)
      | inr t ↦ ap credit (update-other f i x j t)
    ]

    -- A thread goes on to another state, and nothing else changes.
    work :
        (done : ℕ) (s : Threads J P S) (i : ℕ) (x : Slot J P)
        → Inv out done s
        → ((k : ℕ) → Active done k (s.slot i) → Active done k x)
        → (Resting (s.slot i) → Resting x)
        → ((p : P) → x ≢ written p)
        → credit (s.slot i) ≡ credit x
        → Inv out done (record s { slot = update s.slot i x })
    work done s i x inv go rest unwritten same = record {
      lo = inv.lo;
      hi = inv.hi;
      most = inv.most;
      current = inv.current;
      output = inv.output;
      active = λ k a b. elim (same_or (k % n) i) [
        | inl e ↦
            subst (Active done k) (sym (update-same s.slot i x (k % n) e))
              (go k (subst (λ j. Active done k (s.slot j)) e (inv.active k a b)))
        | inr e ↦ subst (Active done k) (sym (update-other s.slot i x (k % n) e)) (inv.active k a b)
      ];
      rests = λ k a b. elim (same_or (k % n) i) [
        | inl e ↦
            subst Resting (sym (update-same s.slot i x (k % n) e))
              (rest (subst (λ j. Resting (s.slot j)) e (inv.rests k a b)))
        | inr e ↦ subst Resting (sym (update-other s.slot i x (k % n) e)) (inv.rests k a b)
      ];
      turn = λ j p e. elim (same_or j i) [
        | inl t ↦ absurd (unwritten p (sym (update-same s.slot i x j t) ∙ e))
        | inr t ↦ inv.turn j p (sym (update-other s.slot i x j t) ∙ e)
      ];
      wrote =
          subst (λ c. Written out (done + c) s.out) (sym (credit-update s.slot i (done % n) x same))
            inv.wrote;
    }

    -- A slot that is at work belongs to a job that has been handed over: that of the turn, if it is the
    -- slot of the turn.
    pub begun :
        (done : ℕ) (s : Threads J P S)
        → Inv out done s
        → ¬ Resting (s.slot (done % n))
        → done < s.handed
    begun done s inv busy = elim (same_or done s.handed) [
      | inl e ↦ absurd (busy (inv.rests done (omega (arith, e)) (omega (arith, some_threads))))
      | inr e ↦ omega (arith, e, inv.lo)
    ]

    -- The same from a state that is known.
    work_from :
        (done : ℕ) (s : Threads J P S) (i : ℕ) (y x : Slot J P)
        → s.slot i ≡ y
        → Inv out done s
        → ((k : ℕ) → Active done k y → Active done k x)
        → (Resting y → Resting x)
        → ((p : P) → x ≢ written p)
        → credit y ≡ credit x
        → Inv out done (record s { slot = update s.slot i x })
    work_from done s i y x q inv go rest unwritten same =
        work done s i x inv (λ k a. go k (subst (Active done k) q a))
          (λ r. rest (subst Resting q r)) unwritten (ap credit q ∙ same)

    Active-later :
        (done k : ℕ) (x : Slot J P) → suc done ≤ k → Active done k x → Active (suc done) k x
    Active-later done k free le h = h
    Active-later done k passed le h = h
    Active-later done k (started j) le h = h
    Active-later done k (waiting j) le h = h
    Active-later done k (packed p) le h = h
    Active-later done k (written p) le h = absurd (omega (arith, le, h))

    credit_none : (x : Slot J P) → ((p : P) → x ≢ written p) → credit x ≡ 0
    credit_none free h = refl
    credit_none passed h = refl
    credit_none (started j) h = refl
    credit_none (waiting j) h = refl
    credit_none (packed p) h = refl
    credit_none (written p) h = absurd (h p refl)

    hand_over :
        (done : ℕ) (s : Threads J P S)
        → Inv out done s
        → s.handed < total
        → s.slot s.current ≡ free
        → Inv out done (record s {
          handed = suc s.handed;
          current = next_thread n s.current;
          slot = update s.slot s.current (started (job s.handed));
        })
    hand_over done s inv more q = record {
      lo = omega (arith, inv.lo);
      hi = omega (arith, has_room);
      most = omega (arith, more);
      current = ap (next_thread n) inv.current ∙ mod-next n s.handed some_threads;
      output = inv.output;
      active = λ k a b. elim (same_or k s.handed) [
        | inl e ↦
            subst (Active done k)
              (sym (
                update-same s.slot s.current (started (job s.handed)) (k % n)
                  (ap (λ m. m % n) e ∙ sym inv.current)))
              (ap job (sym e))
        | inr e ↦
            subst (Active done k)
              (sym (
                update-other s.slot s.current (started (job s.handed)) (k % n) (λ t.
                  threads_differ n k s.handed (omega (arith, b, e)) (omega (arith, a, has_room))
                    (t ∙ inv.current))))
              (inv.active k a (omega (arith, b, e)))
      ];
      rests = λ k a b.
          subst Resting
            (sym (
              update-other s.slot s.current (started (job s.handed)) (k % n) (λ t.
                threads_differ n s.handed k (omega (arith, a)) (omega (arith, b, inv.lo))
                  (sym (t ∙ inv.current)))))
            (inv.rests k (omega (arith, a)) b);
      turn = λ j p e. elim (same_or j s.current) [
        | inl t ↦
            absurd (starts p (sym (update-same s.slot s.current (started (job s.handed)) j t) ∙ e))
        | inr t ↦
            inv.turn j p (sym (update-other s.slot s.current (started (job s.handed)) j t) ∙ e)
      ];
      wrote =
          subst (λ c. Written out (done + c) s.out)
            (sym (credit-update s.slot s.current (done % n) (started (job s.handed)) (ap credit q)))
            inv.wrote;
    }
      where
        starts : (p : P) → ◌≢◌ {A = Slot J P} (started (job s.handed)) (written p)
        starts p e = cc

        -- Were all threads at work, this one would be that of the turn.
        at_turn : s.handed ≡ done + n → ⊥
        at_turn e =
            subst (Active done done)
              (ap s.slot (sym (mod-around n done) ∙ ap (λ m. m % n) (sym e) ∙ sym inv.current) ∙ q)
              (inv.active done (omega arith) (omega (arith, e, some_threads)))

        has_room : s.handed < done + n
        has_room = elim (same_or s.handed (done + n)) [
          | inl e ↦ absurd (at_turn e)
          | inr e ↦ omega (arith, e, inv.hi)
        ]

    put_out :
        (done : ℕ) (s : Threads J P S) (i : ℕ) (p : P)
        → Inv out done s
        → s.slot i ≡ packed p
        → s.output_thread ≡ i
        → Inv out done (record s { slot = update s.slot i (written p); out = write p s.out })
    put_out done s i p inv q here_ = record {
      lo = inv.lo;
      hi = inv.hi;
      most = inv.most;
      current = inv.current;
      output = inv.output;
      active = λ k a b. elim (same_or (k % n) i) [
        | inl e ↦
            subst (Active done k) (sym (update-same s.slot i (written p) (k % n) e))
              (only k a b (e ∙ at))
        | inr e ↦
            subst (Active done k) (sym (update-other s.slot i (written p) (k % n) e))
              (inv.active k a b)
      ];
      rests = λ k a b. elim (same_or (k % n) i) [
        | inl e ↦ absurd (subst Resting (ap s.slot e ∙ q) (inv.rests k a b))
        | inr e ↦
            subst Resting (sym (update-other s.slot i (written p) (k % n) e)) (inv.rests k a b)
      ];
      turn = λ j p' e. elim (same_or j i) [
        | inl t ↦ t ∙ sym here_
        | inr t ↦ inv.turn j p' (sym (update-other s.slot i (written p) j t) ∙ e)
      ];
      wrote =
          subst (λ c. Written out c (write p s.out))
            (let z : suc done ≡ done + credit (update s.slot i (written p) (done % n)) =
                omega (arith, ap credit (update-same s.slot i (written p) (done % n) (sym at))) in
              z)
            (write_next (subst (λ c. Written out c s.out) none_yet inv.wrote) made);
    }
      where
        at : i ≡ done % n
        at = sym here_ ∙ inv.output

        q' : s.slot (done % n) ≡ packed p
        q' = ap s.slot (sym at) ∙ q

        under : done < s.handed
        under = begun done s inv (λ r. subst Resting q' r)

        only : (k : ℕ) → done ≤ k → k < s.handed → k % n ≡ done % n → k ≡ done
        only k a b e = elim (same_or k done) [
          | inl t ↦ t
          | inr t ↦
              absurd
                (threads_differ n done k (omega (arith, a, t)) (omega (arith, b, inv.hi)) (sym e))
        ]

        made : Makes n total job first second write (job done) p
        made = subst (Active done done) q' (inv.active done (omega arith) under)

        none_yet : done + credit (s.slot (done % n)) ≡ done
        none_yet = omega (arith, ap credit q')

    pass_on :
        (done : ℕ) (s : Threads J P S) (i : ℕ) (p : P)
        → Inv out done s
        → s.slot i ≡ written p
        → Inv out (suc done) (record s {
          slot = update s.slot i passed;
          output_thread = next_thread n s.output_thread;
        })
    pass_on done s i p inv q = record {
      lo = omega (arith, under);
      hi = omega (arith, inv.hi);
      most = inv.most;
      current = inv.current;
      output = ap (next_thread n) inv.output ∙ mod-next n done some_threads;
      active = λ k a b.
          subst (Active (suc done) k)
            (sym (
              update-other s.slot i passed (k % n) (λ t.
                threads_differ n done k (omega (arith, a)) (omega (arith, b, inv.hi))
                  (sym (t ∙ at)))))
            (Active-later done k (s.slot (k % n)) a (inv.active k (omega (arith, a)) b));
      rests = λ k a b. elim (same_or (k % n) i) [
        | inl e ↦ subst Resting (sym (update-same s.slot i passed (k % n) e)) tt
        | inr e ↦ subst Resting (sym (update-other s.slot i passed (k % n) e)) (
            inv.rests k a (elim (same_or k (done + n)) [
              | inl t ↦ absurd (e (ap (λ m. m % n) t ∙ mod-around n done ∙ sym at))
              | inr t ↦ omega (arith, t, b)
            ]))
      ];
      turn = λ j p' e. elim (same_or j i) [
        | inl t ↦ absurd (has_passed p' (sym (update-same s.slot i passed j t) ∙ e))
        | inr t ↦
            absurd (
              t (inv.turn j p' (sym (update-other s.slot i passed j t) ∙ e) ∙ sym (inv.turn i p q)))
      ];
      wrote =
          subst (λ c. Written out c s.out)
            (let z : done + credit (s.slot (done % n))
                  ≡ suc done + credit (update s.slot i passed (suc done % n)) =
                omega (arith, ap credit q', none_yet) in
              z)
            inv.wrote;
    }
      where
        at : i ≡ done % n
        at = inv.turn i p q ∙ inv.output

        q' : s.slot (done % n) ≡ written p
        q' = ap s.slot (sym at) ∙ q

        under : done < s.handed
        under = begun done s inv (λ r. subst Resting q' r)

        has_passed : (p' : P) → ◌≢◌ {A = Slot J P} passed (written p')
        has_passed p' e = cc

        none_yet : credit (update s.slot i passed (suc done % n)) ≡ 0
        none_yet = elim (same_or (suc done % n) i) [
          | inl t ↦ ap credit (update-same s.slot i passed (suc done % n) t)
          | inr t ↦
              ap credit (update-other s.slot i passed (suc done % n) t)
              ∙ credit_none (s.slot (suc done % n))
                  (λ p' e. t (inv.turn (suc done % n) p' e ∙ sym (inv.turn i p q)))
        ]

    -- Every step keeps the invariant, and passes one turn on at most.
    pub Step-Inv :
        {s t : Threads J P S}
        → Step n total job first second write s t
        → (done : ℕ) → Inv out done s
        → (done' : ℕ) × Inv out done' t
    Step-Inv (hand_job s more q) done inv = (done, hand_over done s inv more q)
    Step-Inv (prepare s i j p lt q e) done inv = (
      done,
      work_from done s i (started j) (packed p) q inv (λ k a. inl (ap first (sym a) ∙ e))
          (λ r. absurd r) (λ p' x. cc) refl,
    )
    Step-Inv (wait_turn s i j lt q e) done inv = (
      done,
      work_from done s i (started j) (waiting j) q inv (λ k a. (a, e)) (λ r. absurd r) (λ p' x. cc)
          refl,
    )
    Step-Inv (retry s i j p lt q o e) done inv = (
      done,
      work_from done s i (waiting j) (packed p) q inv
          (λ k a. inr (ap first (sym a.0) ∙ a.1, ap second (sym a.0) ∙ e)) (λ r. absurd r)
          (λ p' x. cc) refl,
    )
    Step-Inv (write_job s i p lt q o) done inv = (done, put_out done s i p inv q o)
    Step-Inv (pass_turn s i p lt q) done inv = (suc done, pass_on done s i p inv q)
    Step-Inv (post s i lt q) done inv =
        (done, work_from done s i passed free q inv (λ k a. absurd a) (λ r. tt) (λ p' x. cc) refl)

    pub Reach-Inv :
        {s : Threads J P S}
        → Reach n total job first second write (fresh n total job first second write out) s
        → (done : ℕ) × Inv out done s
    Reach-Inv here = (0, fresh-Inv)
    Reach-Inv (later r st) = let (done, inv) = Reach-Inv r in Step-Inv st done inv
