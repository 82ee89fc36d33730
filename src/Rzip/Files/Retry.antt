-- ===== src/Rzip/Files/Retry.antt =====
-- The maps of src/rzip.c: `rzip_fd` tries smaller and smaller sizes until the system has the memory.
use lrzip_next.Common.{
  ℕ, zero, suc, ◌+◌, ◌-◌, ◌*◌, ◌/◌, ◌%◌, ◌≤◌, ◌<◌, ◌≡◌, ◌≢◌, ◌⊎◌, refl, ap, ◌∙◌, arith,
}
use lrzip_next.Common.{false, ◌==◌, Bool-cases, inl, inr}
use lrzip_next.Common.Results.{ok}
use lrzip_next.Util.Page.{round_to_page}
use lrzip_next.Rzip.Files.{Mapping, mapped, no_memory, refused, FileControl, map_loop}

-- A page can be mapped, and memory is all that a map is refused for.
pub record MapsPage (c : FileControl) : Type 0 where
  pub some_page : 0 < c.env.page_size
  pub page : c.can_map (c.env.page_size) ≡ mapped
  pub memory_only : (n : ℕ) → c.can_map n ≢ refused

pub round_to_page-pos : (page size : ℕ) → 0 < page → 0 < round_to_page page size
unfolding round_to_page
round_to_page-pos page size lo = ground arith

round_to_page-le :
    (page size : ℕ) → (round_to_page page size ≡ page) ⊎ (round_to_page page size ≤ size)
unfolding round_to_page
round_to_page-le page size = elim (Bool-cases (size - size % page == 0)) [
  | inl e ↦ rw e (inl refl)
  | inr e ↦ rw e (inr (omega arith))
]

module _ (c : FileControl) (maps : MapsPage c) where
  abbrev Maps : ℕ → ℕ → Type 0
  Maps fuel n = (m : ℕ) × (map_loop fuel c n ≡ ok m) × (c.can_map m ≡ mapped)

  Maps-now : (fuel n : ℕ) → 0 < fuel → c.can_map n ≡ mapped → Maps fuel n
  unfolding map_loop
  Maps-now zero n lo e = absurd (omega (arith, lo))
  Maps-now (suc fuel) n lo e = (n, rw (e, map_loop) refl, e)

  Maps-later :
      (fuel n : ℕ)
      → c.can_map n ≡ no_memory
      → Maps fuel (round_to_page (c.env.page_size) (n / 10 * 9))
      → Maps (suc fuel) n
  unfolding map_loop
  Maps-later fuel n e (m, run, ok_m) = (m, rw (e, map_loop) (rw (positive, map_loop) run), ok_m)
    where
      positive : (round_to_page (c.env.page_size) (n / 10 * 9) == 0) ≡ false
      positive = ground (arith, round_to_page-pos (c.env.page_size) (n / 10 * 9) maps.some_page)

  answers : (a : Mapping) → (n : ℕ) → c.can_map n ≡ a → (a ≡ mapped) ⊎ (a ≡ no_memory)
  answers mapped n e = inl refl
  answers no_memory n e = inr refl
  answers refused n e = absurd (maps.memory_only n e)

  -- Where the system can map a page and refuses a map for want of memory only, the search for a size
  -- that it can map ends, and finds one.
  pub map_loop-returns : (fuel n : ℕ) → n + 1 < fuel → Maps fuel n
  map_loop-returns zero n lt = absurd (omega (arith, lt))
  map_loop-returns (suc fuel) n lt = elim (answers (c.can_map n) n refl) [
    | inl e ↦ Maps-now (suc fuel) n (omega arith) e
    | inr e ↦ Maps-later fuel n e (elim (round_to_page-le (c.env.page_size) (n / 10 * 9)) [
      | inl page ↦
          Maps-now fuel (round_to_page (c.env.page_size) (n / 10 * 9)) (omega (arith, lt))
            (ap c.can_map page ∙ maps.page)
      | inr le ↦
          map_loop-returns fuel (round_to_page (c.env.page_size) (n / 10 * 9))
            (omega (arith, lt, le, round_to_page-pos (c.env.page_size) (n / 10 * 9) maps.some_page))
    ])
  ]
