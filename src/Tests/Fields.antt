-- ===== src/Tests/Fields.antt =====
-- The fields of a block header, src/stream.c, at concrete inputs.
use lrzip_next.Common.{ℕ, ◌≡◌, refl, arith, List, [], ◌∷◌, ◌++◌, length, Option, some}
use lrzip_next.Stream.Fields.{write_val, read_val, read_val-write_val}

abbrev all_of : List ℕ → Option ℕ
all_of p = some (length p)

read_val-write_val_example :
    (bs : List ℕ) × (write_val all_of (7 ∷ []) 258 3 ≡ some ((7 ∷ []) ++ bs))
    × (read_val (bs ++ (9 ∷ [])) 3 ≡ some (258, 9 ∷ []))
read_val-write_val_example =
    read_val-write_val all_of (7 ∷ []) (9 ∷ []) 258 3 (λ p. refl) (omega arith)
