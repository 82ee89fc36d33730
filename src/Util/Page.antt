-- ===== src/Util/Page.antt =====
-- Rounding to pages, from src/util.c.
use lrzip_next.Common.{ℕ, ◌+◌, ◌-◌, ◌%◌, ◌==◌, if◌then◌else◌}

-- `PAGE_SIZE` comes from the system.
unfoldable pub round_to_page : ℕ → ℕ → ℕ
round_to_page page size = let size' = size - size % page in if size' == 0 then page else size'

unfoldable pub round_up_page : ℕ → ℕ → ℕ
round_up_page page len = let rem = len % page in if rem == 0 then len else len + (page - rem)
