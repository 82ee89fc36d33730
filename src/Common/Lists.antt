-- ===== src/Common/Lists.antt =====
-- Lists measured and cut by native numbers, under the library's names.
use Prim.Native.Nat.{ℕ, zero, suc, ◌+◌, ◌-◌, ◌≤◌, min}
use mathlib.Core.Path.{◌≡◌, refl, ap, sym, ◌∙◌}
use mathlib.Core.List.{List, [], ◌∷◌, ◌++◌, flatten, append_assoc}
use native.Mathlib.Omega.{arith}

module _ {ℓ} {A : Type ℓ} where
  abbrev pub length : List A → ℕ
  length [] = 0
  length (x ∷ xs) = suc (length xs)

  abbrev pub get_or : List A → ℕ → A → A
  get_or [] i d = d
  get_or (x ∷ xs) zero d = x
  get_or (x ∷ xs) (suc i) d = get_or xs i d

  abbrev pub set : List A → ℕ → A → List A
  set [] i v = []
  set (x ∷ xs) zero v = v ∷ xs
  set (x ∷ xs) (suc i) v = x ∷ set xs i v

  abbrev pub take : ℕ → List A → List A
  take zero xs = []
  take (suc n) [] = []
  take (suc n) (x ∷ xs) = x ∷ take n xs

  abbrev pub drop : ℕ → List A → List A
  drop zero xs = xs
  drop (suc n) [] = []
  drop (suc n) (x ∷ xs) = drop n xs

  abbrev pub replicate : ℕ → A → List A
  replicate zero a = []
  replicate (suc n) a = a ∷ replicate n a

  -- A predicate on every element.
  abbrev pub All {κ} : (A → Type κ) → List A → Type κ
  All P [] = Unit {κ}
  All P (x ∷ xs) = P x × All P xs

  pub length-append : (xs ys : List A) → length (xs ++ ys) ≡ length xs + length ys
  length-append [] ys = omega arith
  length-append (x ∷ xs) ys = omega (arith, length-append xs ys)

  pub length-take : (n : ℕ) (xs : List A) → length (take n xs) ≡ min n (length xs)
  length-take zero xs = omega arith
  length-take (suc n) [] = omega arith
  length-take (suc n) (x ∷ xs) = omega (arith, length-take n xs)

  pub length-drop : (n : ℕ) (xs : List A) → length (drop n xs) ≡ length xs - n
  length-drop zero xs = omega arith
  length-drop (suc n) [] = omega arith
  length-drop (suc n) (x ∷ xs) = omega (arith, length-drop n xs)

  pub take-append-drop : (n : ℕ) (xs : List A) → take n xs ++ drop n xs ≡ xs
  take-append-drop zero xs = refl
  take-append-drop (suc n) [] = refl
  take-append-drop (suc n) (x ∷ xs) = rw (take-append-drop n xs)

  pub take-all : (n : ℕ) (xs : List A) → length xs ≤ n → take n xs ≡ xs
  take-all zero [] h = refl
  take-all zero (x ∷ xs) h = absurd (omega arith)
  take-all (suc n) [] h = refl
  take-all (suc n) (x ∷ xs) h = ap (λ r. x ∷ r) (take-all n xs (omega arith))

  pub drop-all : (n : ℕ) (xs : List A) → length xs ≤ n → drop n xs ≡ []
  drop-all zero [] h = refl
  drop-all zero (x ∷ xs) h = absurd (omega arith)
  drop-all (suc n) [] h = refl
  drop-all (suc n) (x ∷ xs) h = drop-all n xs (omega arith)

  pub take-append_le : (n : ℕ) (xs ys : List A) → n ≤ length xs → take n (xs ++ ys) ≡ take n xs
  take-append_le zero xs ys h = refl
  take-append_le (suc n) [] ys h = absurd (omega arith)
  take-append_le (suc n) (x ∷ xs) ys h = ap (λ r. x ∷ r) (take-append_le n xs ys (omega arith))

  pub drop-append_le :
      (n : ℕ) (xs ys : List A) → n ≤ length xs → drop n (xs ++ ys) ≡ drop n xs ++ ys
  drop-append_le zero xs ys h = refl
  drop-append_le (suc n) [] ys h = absurd (omega arith)
  drop-append_le (suc n) (x ∷ xs) ys h = drop-append_le n xs ys (omega arith)

  pub take-append_length : (xs ys : List A) → take (length xs) (xs ++ ys) ≡ xs
  take-append_length [] ys = refl
  take-append_length (x ∷ xs) ys = ap (λ r. x ∷ r) (take-append_length xs ys)

  pub drop-append_length : (xs ys : List A) → drop (length xs) (xs ++ ys) ≡ ys
  drop-append_length [] ys = refl
  drop-append_length (x ∷ xs) ys = drop-append_length xs ys

  pub drop-drop : (a n : ℕ) (xs : List A) → drop (a + n) xs ≡ drop n (drop a xs)
  drop-drop zero n xs = ap (λ k. drop k xs) (let e : zero + n ≡ n = omega arith in e)
  drop-drop (suc a) n [] =
      ap (λ k. drop k []) (let e : suc a + n ≡ suc (a + n) = omega arith in e) ∙ sym (drop-nil n)
    where
      drop-nil : (k : ℕ) → drop k [] ≡ []
      drop-nil zero = refl
      drop-nil (suc k) = refl
  drop-drop (suc a) n (x ∷ xs) =
      ap (λ k. drop k (x ∷ xs)) (let e : suc a + n ≡ suc (a + n) = omega arith in e)
      ∙ drop-drop a n xs

  -- Two ways to cut one list in two: the shorter first part begins the longer one.
  pub append_front :
      (fs bs xs ys : List A)
      → fs ++ bs ≡ xs ++ ys
      → length fs ≤ length xs
      → (fs ++ drop (length fs) xs ≡ xs) × (bs ≡ drop (length fs) xs ++ ys)
  append_front fs bs xs ys e h = (
    ap (λ r. r ++ drop (length fs) xs) front ∙ take-append-drop (length fs) xs,
    sym (drop-append_length fs bs) ∙ ap (drop (length fs)) e ∙ drop-append_le (length fs) xs ys h,
  )
    where
      front : fs ≡ take (length fs) xs
      front =
          sym (take-append_length fs bs)
          ∙ ap (take (length fs)) e
          ∙ take-append_le (length fs) xs ys h

  pub get_or-append_right :
      (xs ys : List A) (i : ℕ) (d : A) → get_or (xs ++ ys) (length xs + i) d ≡ get_or ys i d
  get_or-append_right [] ys i d = ap (λ k. get_or ys k d) (let e : 0 + i ≡ i = omega arith in e)
  get_or-append_right (x ∷ xs) ys i d =
      ap (λ k. get_or (x ∷ (xs ++ ys)) k d)
        (let e : suc (length xs) + i ≡ suc (length xs + i) = omega arith in e)
      ∙ get_or-append_right xs ys i d

  pub length-replicate : (n : ℕ) (a : A) → length (replicate n a) ≡ n
  length-replicate zero a = refl
  length-replicate (suc n) a = ap suc (length-replicate n a)

  pub flatten-append : (xss yss : List (List A)) → flatten (xss ++ yss) ≡ flatten xss ++ flatten yss
  unfolding flatten
  flatten-append [] yss = refl
  flatten-append (xs ∷ xss) yss =
      ap (λ r. xs ++ r) (flatten-append xss yss) ∙ sym (append_assoc xs (flatten xss) (flatten yss))
