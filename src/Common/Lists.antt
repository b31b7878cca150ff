-- ===== src/Common/Lists.antt =====
-- Lists measured by native numbers, under the library's names.
use Prim.Native.Nat.{ℕ, zero, suc, ◌+◌, ◌-◌, ◌≤◌, min}
use mathlib.Core.Path.{◌≡◌, refl, sym, ap, ◌∙◌}
use mathlib.Core.List.{List, [], ◌∷◌, ◌++◌}
use native.Mathlib.Omega.{arith}

module _ {ℓ} {A : Type ℓ} where
  abbrev pub length : List A → ℕ
  length [] = 0
  length (x ∷ xs) = suc (length xs)

  abbrev pub take : ℕ → List A → List A
  take zero xs = []
  take (suc n) [] = []
  take (suc n) (x ∷ xs) = x ∷ take n xs

  abbrev pub drop : ℕ → List A → List A
  drop zero xs = xs
  drop (suc n) [] = []
  drop (suc n) (x ∷ xs) = drop n xs

  take-nil : (n : ℕ) → ◌≡◌ {A = List A} (take n []) []
  take-nil zero = refl
  take-nil (suc n) = refl

  pub length-append : (xs ys : List A) → length (xs ++ ys) ≡ length xs + length ys
  length-append [] ys = omega arith
  length-append (x ∷ xs) ys = omega (arith, length-append xs ys)

  pub take-append-drop : (n : ℕ) (xs : List A) → take n xs ++ drop n xs ≡ xs
  take-append-drop zero xs = refl
  take-append-drop (suc n) [] = refl
  take-append-drop (suc n) (x ∷ xs) = ap (λ l. x ∷ l) (take-append-drop n xs)

  pub length-take : (n : ℕ) (xs : List A) → length (take n xs) ≡ min n (length xs)
  length-take zero xs = omega arith
  length-take (suc n) [] = omega arith
  length-take (suc n) (x ∷ xs) = omega (arith, length-take n xs)

  pub length-drop : (n : ℕ) (xs : List A) → length (drop n xs) ≡ length xs - n
  length-drop zero xs = omega arith
  length-drop (suc n) [] = omega arith
  length-drop (suc n) (x ∷ xs) = omega (arith, length-drop n xs)

  pub take-all : (n : ℕ) (xs : List A) → length xs ≤ n → take n xs ≡ xs
  take-all zero [] h = refl
  take-all zero (x ∷ xs) h = absurd (omega arith)
  take-all (suc n) [] h = refl
  take-all (suc n) (x ∷ xs) h = ap (λ l. x ∷ l) (take-all n xs (omega arith))

  pub take-append-left : (n : ℕ) (xs ys : List A) → n ≡ length xs → take n (xs ++ ys) ≡ xs
  take-append-left zero [] ys h = refl
  take-append-left zero (x ∷ xs) ys h = absurd (omega arith)
  take-append-left (suc n) [] ys h = absurd (omega arith)
  take-append-left (suc n) (x ∷ xs) ys h = ap (λ l. x ∷ l) (take-append-left n xs ys (omega arith))

  pub drop-append-left : (n : ℕ) (xs ys : List A) → n ≡ length xs → drop n (xs ++ ys) ≡ ys
  drop-append-left zero [] ys h = refl
  drop-append-left zero (x ∷ xs) ys h = absurd (omega arith)
  drop-append-left (suc n) [] ys h = absurd (omega arith)
  drop-append-left (suc n) (x ∷ xs) ys h = drop-append-left n xs ys (omega arith)

  pub take-add : (a n : ℕ) (xs : List A) → a ≤ n → take a xs ++ take (n - a) (drop a xs) ≡ take n xs
  take-add zero n xs h = let e : n - zero ≡ n = omega arith in rw e
  take-add (suc a) zero xs h = absurd (omega arith)
  take-add (suc a) (suc n) [] h = ground (arith, take-nil (suc n - suc a))
  take-add (suc a) (suc n) (x ∷ xs) h =
      let e : suc n - suc a ≡ n - a = omega arith in
      rw e (ap (λ l. x ∷ l) (take-add a n xs (omega arith)))

  pub nil_of_length : (xs : List A) → length xs ≡ 0 → xs ≡ []
  nil_of_length [] h = refl
  nil_of_length (x ∷ xs) h = absurd (omega arith)

  -- Two ways to cut one list at the same place are one.
  pub append-cut :
      (cs bs xs ys : List A) → length cs ≡ length bs → cs ++ xs ≡ bs ++ ys → (cs ≡ bs) × (xs ≡ ys)
  append-cut cs bs xs ys size e = (
    sym (take-append-left (length bs) cs xs (omega arith))
        ∙ ap (take (length bs)) e
        ∙ take-append-left (length bs) bs ys refl,
    sym (drop-append-left (length bs) cs xs (omega arith))
        ∙ ap (drop (length bs)) e
        ∙ drop-append-left (length bs) bs ys refl,
  )
