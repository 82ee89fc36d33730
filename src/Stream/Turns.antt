-- ===== src/Stream/Turns.antt =====
-- The threads that write the blocks of src/stream.c: `clear_buffer` hands a job to each thread in turn,
-- `compthread` prepares it and waits until `output_thread` is its own number. Here each of these is a
-- step, and the steps of the threads come in any order.
pub mod Slots
pub mod Inv
pub mod Progress
pub mod Measure
pub mod Blocks
use lrzip_next.Common.{
  ℕ, zero, suc, ◌+◌, ◌≤◌, ◌<◌, ◌≡◌, ◌⊎◌, Bool, ◌==◌, if◌then◌else◌, Option, none, some,
}

-- What a thread is at. `free` has its semaphore posted; `waiting` has failed at its first try and
-- needs its turn for a second one; `written` has written but not yet passed the turn on.
pub data Slot (J P : Type 0) : Type 0 where
  free passed : Slot J P
  started waiting : J → Slot J P
  packed written : P → Slot J P

-- `current` is the static `current_thread` of `clear_buffer`, and `handed` counts its calls. `out` is
-- what the threads write to.
pub record Threads (J P S : Type 0) : Type 0 where
  pub handed : ℕ
  pub current : ℕ
  pub slot : ℕ → Slot J P
  pub output_thread : ℕ
  pub out : S

abbrev pub update : {A : Type 0} → (ℕ → A) → ℕ → A → ℕ → A
update f i a j = if j == i then a else f j

-- `if (++i == control->threads) i = 0;`
abbrev pub next_thread : ℕ → ℕ → ℕ
next_thread n i = if i + 1 == n then 0 else i + 1

-- There are `n` threads and `total` jobs. `first` is the try of a thread before its turn, `second` that
-- in its turn, and `write` what it does with the file.
module _ {J P S : Type 0} (n total : ℕ) (job : ℕ → J) (first second : J → Option P)
    (write : P → S → S) where
  pub data Step : Threads J P S → Threads J P S → Type 0 where
    hand_job :
        (s : Threads J P S)
        → s.handed < total
        → s.slot s.current ≡ free
        → Step s (record s {
          handed = suc s.handed;
          current = next_thread n s.current;
          slot = update s.slot s.current (started (job s.handed));
        })
    prepare :
        (s : Threads J P S) (i : ℕ) (j : J) (p : P)
        → i < n
        → s.slot i ≡ started j
        → first j ≡ some p
        → Step s (record s { slot = update s.slot i (packed p) })
    wait_turn :
        (s : Threads J P S) (i : ℕ) (j : J)
        → i < n
        → s.slot i ≡ started j
        → first j ≡ none
        → Step s (record s { slot = update s.slot i (waiting j) })
    retry :
        (s : Threads J P S) (i : ℕ) (j : J) (p : P)
        → i < n
        → s.slot i ≡ waiting j
        → s.output_thread ≡ i
        → second j ≡ some p
        → Step s (record s { slot = update s.slot i (packed p) })
    write_job :
        (s : Threads J P S) (i : ℕ) (p : P)
        → i < n
        → s.slot i ≡ packed p
        → s.output_thread ≡ i
        → Step s (record s { slot = update s.slot i (written p); out = write p s.out })
    pass_turn :
        (s : Threads J P S) (i : ℕ) (p : P)
        → i < n
        → s.slot i ≡ written p
        → Step s (record s {
          slot = update s.slot i passed;
          output_thread = next_thread n s.output_thread;
        })
    post :
        (s : Threads J P S) (i : ℕ)
        → i < n
        → s.slot i ≡ passed
        → Step s (record s { slot = update s.slot i free })

  pub data Reach (s : Threads J P S) : Threads J P S → Type 0 where
    here : Reach s s
    later : {t u : Threads J P S} → Reach s t → Step t u → Reach s u

  -- After `prepare_streamout_threads`.
  abbrev pub fresh : S → Threads J P S
  fresh out = record { handed = 0; current = 0; slot = λ i. free; output_thread = 0; out = out }

  -- What a job leads to: the result of the first try that succeeds.
  abbrev pub Makes : J → P → Type 0
  Makes j p = (first j ≡ some p) ⊎ (first j ≡ none) × (second j ≡ some p)
