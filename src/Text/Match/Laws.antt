-- ===== src/Text/Match/Laws.antt =====
-- match_sub and match_sub_min_max of ffprinter.c against occurrences of the needle.
use ffprinter.Prelude.{
  ℕ, zero, suc, ◌+◌, ◌-◌, ◌≤◌, ◌<◌, ◌≡◌, ◌≢◌, ◌↔◌, ◌⊎◌, inl, inr, refl, ap, true, false, List, [],
  ◌∷◌, ◌++◌, arith, ltb, ◌==◌, ==_refl, length, drop, ℤ, pos, negsuc, Bool-cases, length-append,
}
use ffprinter.Text.Match.{
  agree, match_sub, matched, scan, first_start, past_start, match_sub_min_max,
}

-- The needle stands in the haystack from position `i`.
abbrev pub OccursAt : List ℕ → List ℕ → ℕ → Type 0
OccursAt haystack needle i =
    (i ≤ length haystack) × ((rest : List ℕ) × (drop i haystack ≡ needle ++ rest))

length-drop_add : (i : ℕ) (xs : List ℕ) → i ≤ length xs → length (drop i xs) + i ≡ length xs
length-drop_add zero xs h = omega arith
length-drop_add (suc i) [] h = absurd (omega arith)
length-drop_add (suc i) (x ∷ xs) h = omega (arith, length-drop_add i xs)

pub OccursAt-fits : (h n : List ℕ) (i : ℕ) → OccursAt h n i → length n + i ≤ length h
OccursAt-fits h n i (le, (rest, e)) =
    omega (arith, length-drop_add i h le, length-append n rest, ap length e)

agree_prefix :
    (h n : List ℕ) → length n ≤ length h → (agree h n ≡ true) ↔ ((rest : List ℕ) × (h ≡ n ++ rest))
unfolding agree
agree_prefix [] [] fits = (λ e. ([], refl), λ p. refl)
agree_prefix [] (y ∷ n) fits = absurd (omega arith)
agree_prefix (x ∷ h) [] fits = (λ e. (x ∷ h, refl), λ p. refl)
agree_prefix (x ∷ h) (y ∷ n) fits =
    let ih = agree_prefix h n (omega arith) in
    (
      λ e. let (rest, p) = ih.0 (ground arith) in let q : x ≡ y = ground arith in (rest, cc),
      λ (rest, p).
          let q : x ≡ y = cc in let r : h ≡ n ++ rest = cc in rw (q, ==_refl) (ih.1 (rest, r)),
    )

-- match_sub answers 1 exactly when the needle occurs at the position asked for.
pub match_sub_iff :
    (haystack needle : List ℕ) (start_pos : ℕ)
    → (match_sub haystack needle start_pos ≡ 1) ↔ OccursAt haystack needle start_pos
unfolding match_sub
match_sub_iff h n i = elim (Bool-cases (ltb (length h) (length n + i))) [
  | inl short ↦
      rw short (λ e. absurd (omega arith), λ o. absurd (ground (arith, OccursAt-fits h n i o)))
  | inr long ↦
      let fits : length n + i ≤ length h = ground arith in
      let p = agree_prefix (drop i h) n (omega (arith, length-drop_add i h)) in
      rw long (λ e. (omega arith, p.0 (ground arith)), λ o. rw (p.1 o.1))
]

matched_prefix :
    (h n : List ℕ) → ((matched h n == length n) ≡ true) ↔ ((rest : List ℕ) × (h ≡ n ++ rest))
unfolding matched
matched_prefix [] [] = (λ e. ([], refl), λ p. refl)
matched_prefix [] (y ∷ n) = (λ e. absurd (ground arith), λ (rest, p). absurd (cc))
matched_prefix (x ∷ h) [] = (λ e. (x ∷ h, refl), λ p. refl)
matched_prefix (x ∷ h) (y ∷ n) =
    let ih = matched_prefix h n in
    (
      λ e. let q : x ≡ y = ground arith in let (rest, p) = ih.0 (ground arith) in (rest, cc),
      λ (rest, p).
          let q : x ≡ y = cc in
          let r : h ≡ n ++ rest = cc in rw (q, ==_refl) (ground (arith, ih.1 (rest, r))),
    )

-- A hit among `rounds` positions from `i` on.
abbrev Hit : List ℕ → List ℕ → ℕ → ℕ → Type 0
Hit h n i end = (k : ℕ) × (i ≤ k) × (k < end) × ((rest : List ℕ) × (drop k h ≡ n ++ rest))

ne_of_miss :
    (h n : List ℕ) (i k : ℕ)
    → (matched (drop i h) n == length n) ≡ false
    → ((rest : List ℕ) × (drop k h ≡ n ++ rest))
    → i ≢ k
ne_of_miss h n i k miss r e =
    let hit : (matched (drop i h) n == length n) ≡ true =
      rw e ((matched_prefix (drop k h) n).1 r) in
    cc

scan-Hit : (h n : List ℕ) (i rounds : ℕ) → (scan h n i rounds ≡ 1) ↔ Hit h n i (i + rounds)
unfolding scan
scan-Hit h n i zero = (λ e. absurd (omega arith), λ (k, p, q, r). absurd (omega arith))
scan-Hit h n i (suc rounds) = elim (Bool-cases (matched (drop i h) n == length n)) [
  | inl hit ↦
      rw hit (λ e. (i, omega arith, omega arith, (matched_prefix (drop i h) n).0 hit), λ p. refl)
  | inr miss ↦
      let ih = scan-Hit h n (i + 1) rounds in
      rw miss (
        λ e. let (k, p, q, r) = ih.0 e in (k, omega arith, omega arith, r),
        λ (k, p, q, r). ih.1 (k, omega (arith, ne_of_miss h n i k miss r), omega arith, r),
      )
]

past_start-le : (h : List ℕ) (hi : ℤ) → past_start h hi ≤ length h + 1
unfolding past_start
past_start-le h (pos m) = ground arith
past_start-le h (negsuc m) = omega arith

-- No start before the first bound, if that is not negative.
abbrev pub AtLeast : ℤ → ℕ → Type 0
AtLeast (pos n) k = n ≤ k
AtLeast (negsuc n) k = Unit

-- No start behind the second bound; none behind the last index where that is negative or behind
-- the end.
abbrev pub AtMost : ℕ → ℤ → ℕ → Type 0
AtMost len (pos m) k = ((m ≤ len) × (k ≤ m)) ⊎ ((len < m) × (k < len))
AtMost len (negsuc m) k = k < len

first_start_iff : (lo : ℤ) (k : ℕ) → (first_start lo ≤ k) ↔ AtLeast lo k
unfolding first_start
first_start_iff (pos n) k = (λ p. p, λ p. p)
first_start_iff (negsuc n) k = (λ p. tt, λ p. omega arith)

past_start_iff : (h : List ℕ) (hi : ℤ) (k : ℕ) → (k < past_start h hi) ↔ AtMost (length h) hi k
unfolding past_start
past_start_iff h (negsuc m) k = (λ p. p, λ p. p)
past_start_iff h (pos m) k = elim (Bool-cases (ltb (length h) m)) [
  | inl far ↦
      let lt : length h < m = ground arith in
      rw far (λ p. inr (lt, p), λ c. elim c [ inl (a, b) ↦ absurd (omega arith) | inr (a, b) ↦ b ])
  | inr near ↦
      let le : m ≤ length h = ground arith in
      rw near (
        λ p. inl (le, omega arith),
        λ c. elim c [ inl (a, b) ↦ omega arith | inr (a, b) ↦ absurd (omega arith) ],
      )
]

-- match_sub_min_max answers 1 exactly when the needle occurs at a position from the first bound
-- (0 if that is negative) to the second, itself included (the last index if that is negative or
-- behind the end).
pub match_sub_min_max_iff :
    (haystack needle : List ℕ) (lo hi : ℤ)
    → (match_sub_min_max haystack needle lo hi ≡ 1)
      ↔ ((k : ℕ) × AtLeast lo k × AtMost (length haystack) hi k × OccursAt haystack needle k)
unfolding match_sub_min_max
match_sub_min_max_iff h n lo hi = elim (Bool-cases (ltb (length h) (length n + a))) [
  | inl short ↦ rw short (
    λ e. absurd (omega arith),
    λ (k, p', q', o).
        let p = (first_start_iff lo k).1 p' in absurd (ground (arith, OccursAt-fits h n k o)),
  )
  | inr long ↦ elim (Bool-cases (ltb b (a + 1))) [
    | inl none_left ↦
        rw (long, none_left)
          (
            λ e. absurd (omega arith),
            λ (k, p', q', o).
                let p = (first_start_iff lo k).1 p' in
                let q = (past_start_iff h hi k).1 q' in absurd (ground arith),
          )
    | inr left ↦
        let t = scan-Hit h n a (b - a) in
        let le : a ≤ b = ground arith in
        rw (long, left)
          (
            λ e.
                let (k, p, q, r) = t.0 e in
                (
                  k,
                  (first_start_iff lo k).0 p,
                  (past_start_iff h hi k).0 (omega arith),
                  (omega (arith, past_start-le h hi), r),
                ),
            λ (k, p', q', o).
                let p = (first_start_iff lo k).1 p' in
                let q = (past_start_iff h hi k).1 q' in t.1 (k, p, omega arith, o.1),
          )
  ]
]
  where
    a : ℕ
    a = first_start lo

    b : ℕ
    b = past_start h hi

-- Over all positions from `i` to the end match_sub_min_max finds what match_sub finds at one of them.
pub match_sub_min_max-match_sub :
    (haystack needle : List ℕ) (i m : ℕ)
    → (match_sub_min_max haystack needle (pos i) (negsuc m) ≡ 1)
      ↔ ((k : ℕ) × (i ≤ k) × (k < length haystack) × (match_sub haystack needle k ≡ 1))
match_sub_min_max-match_sub h n i m =
    let t = match_sub_min_max_iff h n (pos i) (negsuc m) in
    (
      λ e. let (k, p, q, o) = t.0 e in (k, p, q, (match_sub_iff h n k).1 o),
      λ (k, p, q, o). t.1 (k, p, q, (match_sub_iff h n k).0 o),
    )
