-- ===== src/Util/Ram.antt =====
-- `setup_ram` of src/util.c, and how far rounding to pages goes.
use native.Mathlib.Nat.{mod-lt, div-add-mod', mul-mod_left}
use lrzip_next.Common.{
  ℕ, zero, suc, ◌+◌, ◌-◌, ◌*◌, ◌/◌, ◌%◌, ◌≤◌, ◌<◌, ◌≡◌, ◌⊎◌, refl, sym, ap, ◌∙◌, arith, inl, inr,
  subst,
}
use lrzip_next.Common.{Bool, true, false, ◌&&◌, ◌||◌, not, ◌==◌, if◌then◌else◌, Bool-cases}
use lrzip_next.Util.Page.{round_to_page, round_up_page}

-- The flags and the sizes of `control` that it uses.
pub record Ram : Type 0 where
  pub stdout : Bool
  pub stdin : Bool
  pub decompress : Bool
  pub test_only : Bool
  pub ramsize : ℕ
  pub maxram : ℕ
  pub usable_ram : ℕ

unfoldable pub setup_ram : ℕ → Ram → Ram
unfolding round_to_page
setup_ram page control =
    let small =
      control.stdout
      && (control.stdin && control.decompress || not (control.decompress || control.test_only)) in
    let maxram = if small then control.ramsize / 6 else control.ramsize / 3 in
    record control { maxram = round_to_page page maxram; usable_ram = maxram }

whole_pages : (page size : ℕ) → size - size % page ≡ size / page * page
whole_pages page size = omega (arith, div-add-mod' size page)

at_least : (q page : ℕ) → 0 < q * page → page ≤ q * page
at_least zero page lo = absurd (omega (arith, lo))
at_least (suc q) page lo = omega arith

mod_self : (page : ℕ) → page % page ≡ 0
mod_self page =
    ap (λ k. k % page) (let z : page ≡ 1 * page = omega arith in z) ∙ mul-mod_left 1 page

-- A size that is rounded is a number of whole pages, one at least, and it is not larger than it was
-- unless it was less than a page.
pub round_to_page-bounds :
    (page size : ℕ)
    → 0 < page
    → (round_to_page page size % page ≡ 0)
      × (page ≤ round_to_page page size)
      × ((round_to_page page size ≤ size) ⊎ (size < page) × (round_to_page page size ≡ page))
unfolding round_to_page
round_to_page-bounds page size lo = elim (Bool-cases (size - size % page == 0)) [
  | inl e ↦ rw e (mod_self page, omega arith, inr (ground (arith, e, mod-lt size lo), refl))
  | inr e ↦ rw e (
    ap (λ k. k % page) (whole_pages page size) ∙ mul-mod_left (size / page) page,
    subst (λ k. page ≤ k) (sym (whole_pages page size))
        (at_least (size / page) page (ground (arith, e, whole_pages page size))),
    inl (omega arith),
  )
]

-- Rounding up reaches the next whole page, and no more than that.
pub round_up_page-bounds :
    (page len : ℕ)
    → 0 < page
    → (round_up_page page len % page ≡ 0)
      × (len ≤ round_up_page page len)
      × (round_up_page page len < len + page)
unfolding round_up_page
round_up_page-bounds page len lo = elim (Bool-cases (len % page == 0)) [
  | inl e ↦ rw e (ground (arith, e), omega arith, omega (arith, lo))
  | inr e ↦ rw e (
    ap (λ k. k % page) (next_page page len lo) ∙ mul-mod_left (suc (len / page)) page,
    omega arith,
    ground (arith, e, lo),
  )
]
  where
    next_page : (page len : ℕ) → 0 < page → len + (page - len % page) ≡ suc (len / page) * page
    next_page page len lo = omega (arith, div-add-mod' len page, mod-lt len lo)

-- Standard output takes a compressed stream, or one that is decompressed from standard input.
abbrev pub TakesSixth : Ram → Type 0
TakesSixth control =
    (control.stdout ≡ true)
    × ((control.stdin ≡ true) × (control.decompress ≡ true)
        ⊎ (control.decompress ≡ false) × (control.test_only ≡ false))

-- No standard output, or a test, or a file that is decompressed.
abbrev pub TakesThird : Ram → Type 0
TakesThird control =
    (control.stdout ≡ false)
    ⊎ (control.decompress ≡ false) × (control.test_only ≡ true)
    ⊎ (control.stdin ≡ false) × (control.decompress ≡ true)

-- The memory that is used is a sixth of what there is when standard output takes a compressed stream, or
-- one that is decompressed from standard input, and a third in every other case: without standard output,
-- for a test, and for a file that is decompressed. What is used at most is a number of whole pages, one at
-- least, and not more than that unless that is less than a page.
pub setup_ram-bounds :
    (page : ℕ) (control : Ram)
    → 0 < page
    → ((setup_ram page control).maxram % page ≡ 0)
      × (page ≤ (setup_ram page control).maxram)
      × (((setup_ram page control).maxram ≤ control.ramsize / 3)
          ⊎ ((setup_ram page control).maxram ≡ page))
      × ((setup_ram page control).usable_ram ≤ control.ramsize / 3)
      × (((setup_ram page control).maxram ≤ (setup_ram page control).usable_ram)
          ⊎ ((setup_ram page control).usable_ram < page) × ((setup_ram page control).maxram ≡ page))
      × (TakesSixth control × ((setup_ram page control).usable_ram ≡ control.ramsize / 6)
          ⊎ TakesThird control × ((setup_ram page control).usable_ram ≡ control.ramsize / 3))
unfolding setup_ram
setup_ram-bounds page control lo =
    let small =
      control.stdout
      && (control.stdin && control.decompress || not (control.decompress || control.test_only)) in
    let third = limited control.ramsize small in
    let (whole, one, end) =
      round_to_page-bounds page (if small then control.ramsize / 6 else control.ramsize / 3) lo in
    (
      whole,
      one,
      elim end [ inl le ↦ inl (omega (arith, le, third)) | inr (lt, e) ↦ inr e ],
      third,
      end,
      elim (Bool-cases control.stdout) [
        | inr own ↦ inr (inl own, rw own refl)
        | inl out ↦ elim (Bool-cases control.decompress) [
          | inl unpack ↦ elim (Bool-cases control.stdin) [
            | inl from ↦ inl ((out, inl (from, unpack)), rw (out, from, unpack) refl)
            | inr file ↦ inr (inr (inr (file, unpack)), rw (out, file, unpack) refl)
          ]
          | inr pack ↦ elim (Bool-cases control.stdin) [
            | inl from ↦ elim (Bool-cases control.test_only) [
              | inl test ↦ inr (inr (inl (pack, test)), rw (out, from, pack, test) refl)
              | inr full ↦ inl ((out, inr (pack, full)), rw (out, from, pack, full) refl)
            ]
            | inr file ↦ elim (Bool-cases control.test_only) [
              | inl test ↦ inr (inr (inl (pack, test)), rw (out, file, pack, test) refl)
              | inr full ↦ inl ((out, inr (pack, full)), rw (out, file, pack, full) refl)
            ]
          ]
        ]
      ],
    )
  where
    limited : (n : ℕ) (b : Bool) → (if b then n / 6 else n / 3) ≤ n / 3
    limited n true = omega arith
    limited n false = omega arith
