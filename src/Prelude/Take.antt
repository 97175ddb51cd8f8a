-- ===== src/Prelude/Take.antt =====
-- The first elements of a list, and the others.
use Prim.Native.Nat.{ℕ, zero, suc, ◌+◌, ◌-◌, ◌<◌, ◌≤◌}
use mathlib.Core.Path.{◌≡◌, refl, ap}
use mathlib.Core.List.{List, [], ◌∷◌, ◌++◌, reverse, reverse-cons}
use native.Mathlib.Omega.{arith}
use ffprinter.Prelude.Lists.{length, drop, set, length-append}

module _ {ℓ} {A : Type ℓ} where
  abbrev pub take : ℕ → List A → List A
  take zero xs = []
  take (suc n) [] = []
  take (suc n) (x ∷ xs) = x ∷ take n xs

module _ {ℓ} {A : Type ℓ} where
  pub take-nil : (n : ℕ) → take n (let e : List A = [] in e) ≡ []
  take-nil zero = refl
  take-nil (suc n) = refl

  pub drop-nil : (n : ℕ) → drop n (let e : List A = [] in e) ≡ []
  drop-nil zero = refl
  drop-nil (suc n) = refl

  pub take-append_drop : (n : ℕ) (xs : List A) → take n xs ++ drop n xs ≡ xs
  take-append_drop zero xs = refl
  take-append_drop (suc n) [] = refl
  take-append_drop (suc n) (x ∷ xs) = ap (λ zs. x ∷ zs) (take-append_drop n xs)

  pub take-of_ge : (n : ℕ) (xs : List A) → length xs ≤ n → take n xs ≡ xs
  take-of_ge zero [] h = refl
  take-of_ge zero (x ∷ xs) h = absurd (omega arith)
  take-of_ge (suc n) [] h = refl
  take-of_ge (suc n) (x ∷ xs) h = ap (λ zs. x ∷ zs) (take-of_ge n xs (omega arith))

  pub drop-of_ge : (n : ℕ) (xs : List A) → length xs ≤ n → drop n xs ≡ []
  drop-of_ge zero [] h = refl
  drop-of_ge zero (x ∷ xs) h = absurd (omega arith)
  drop-of_ge (suc n) [] h = refl
  drop-of_ge (suc n) (x ∷ xs) h = drop-of_ge n xs (omega arith)

  pub length-take : (n : ℕ) (xs : List A) → n ≤ length xs → length (take n xs) ≡ n
  length-take zero xs h = refl
  length-take (suc n) [] h = absurd (omega arith)
  length-take (suc n) (x ∷ xs) h = ap suc (length-take n xs (omega arith))

  pub length-drop : (n : ℕ) (xs : List A) → length (drop n xs) ≡ length xs - n
  length-drop zero xs = omega arith
  length-drop (suc n) [] = omega arith
  length-drop (suc n) (x ∷ xs) = omega (arith, length-drop n xs)

  pub take-take : (m n : ℕ) (xs : List A) → m ≤ n → take m (take n xs) ≡ take m xs
  take-take zero n xs h = refl
  take-take (suc m) zero xs h = absurd (omega arith)
  take-take (suc m) (suc n) [] h = refl
  take-take (suc m) (suc n) (x ∷ xs) h = ap (λ zs. x ∷ zs) (take-take m n xs (omega arith))

  pub drop-drop : (m n : ℕ) (xs : List A) → drop m (drop n xs) ≡ drop (n + m) xs
  drop-drop m zero xs = let e : 0 + m ≡ m = omega arith in rw e
  drop-drop zero (suc n) [] = let e : suc n + 0 ≡ suc n = omega arith in rw e
  drop-drop (suc m) (suc n) [] = let e : suc n + suc m ≡ suc (n + suc m) = omega arith in rw e
  drop-drop m (suc n) (x ∷ xs) =
      let e : suc n + m ≡ suc (n + m) = omega arith in rw e (drop-drop m n xs)

  pub drop-take : (m k : ℕ) (xs : List A) → drop m (take (m + k) xs) ≡ take k (drop m xs)
  drop-take zero k xs = let e : 0 + k ≡ k = omega arith in rw e
  drop-take (suc m) k [] = let e : suc m + k ≡ suc (m + k) = omega arith in rw (e, take-nil k)
  drop-take (suc m) k (x ∷ xs) =
      let e : suc m + k ≡ suc (m + k) = omega arith in rw e (drop-take m k xs)

  pub take-append : (n : ℕ) (xs ys : List A) → n ≤ length xs → take n (xs ++ ys) ≡ take n xs
  take-append zero xs ys h = refl
  take-append (suc n) [] ys h = absurd (omega arith)
  take-append (suc n) (x ∷ xs) ys h = ap (λ zs. x ∷ zs) (take-append n xs ys (omega arith))

  pub take-append_ge : (k : ℕ) (xs ys : List A) → take (length xs + k) (xs ++ ys) ≡ xs ++ take k ys
  take-append_ge k [] ys = let e : 0 + k ≡ k = omega arith in rw e
  take-append_ge k (x ∷ xs) ys =
      let e : suc (length xs) + k ≡ suc (length xs + k) = omega arith in
      rw e (ap (λ zs. x ∷ zs) (take-append_ge k xs ys))

  pub drop-append : (n : ℕ) (xs ys : List A) → n ≤ length xs → drop n (xs ++ ys) ≡ drop n xs ++ ys
  drop-append zero xs ys h = refl
  drop-append (suc n) [] ys h = absurd (omega arith)
  drop-append (suc n) (x ∷ xs) ys h = drop-append n xs ys (omega arith)

  pub drop-append_ge : (k : ℕ) (xs ys : List A) → drop (length xs + k) (xs ++ ys) ≡ drop k ys
  drop-append_ge k [] ys = let e : 0 + k ≡ k = omega arith in rw e
  drop-append_ge k (x ∷ xs) ys =
      let e : suc (length xs) + k ≡ suc (length xs + k) = omega arith in
      rw e (drop-append_ge k xs ys)

  pub take-set_ge : (n k : ℕ) (xs : List A) (x : A) → n ≤ k → take n (set xs k x) ≡ take n xs
  take-set_ge zero k xs x h = refl
  take-set_ge (suc n) k [] x h = refl
  take-set_ge (suc n) zero (y ∷ xs) x h = absurd (omega arith)
  take-set_ge (suc n) (suc k) (y ∷ xs) x h = ap (λ zs. y ∷ zs) (take-set_ge n k xs x (omega arith))

  pub take-set_self :
      (n : ℕ) (xs : List A) (x : A)
      → n < length xs
      → take (suc n) (set xs n x) ≡ take n xs ++ (x ∷ [])
  take-set_self n [] x h = absurd (omega arith)
  take-set_self zero (y ∷ xs) x h = refl
  take-set_self (suc n) (y ∷ xs) x h = ap (λ zs. y ∷ zs) (take-set_self n xs x (omega arith))

  pub drop-set_lt : (n k : ℕ) (xs : List A) (x : A) → k < n → drop n (set xs k x) ≡ drop n xs
  drop-set_lt zero k xs x h = absurd (omega arith)
  drop-set_lt (suc n) k [] x h = refl
  drop-set_lt (suc n) zero (y ∷ xs) x h = refl
  drop-set_lt (suc n) (suc k) (y ∷ xs) x h = drop-set_lt n k xs x (omega arith)

  pub drop-set_self :
      (n : ℕ) (xs : List A) (x : A) → n < length xs → drop n (set xs n x) ≡ x ∷ drop (suc n) xs
  drop-set_self n [] x h = absurd (omega arith)
  drop-set_self zero (y ∷ xs) x h = refl
  drop-set_self (suc n) (y ∷ xs) x h = drop-set_self n xs x (omega arith)

  pub length-reverse : (xs : List A) → length (reverse xs) ≡ length xs
  length-reverse [] = refl
  length-reverse (x ∷ xs) =
      rw reverse-cons (omega (arith, length-append (reverse xs) (x ∷ []), length-reverse xs))
