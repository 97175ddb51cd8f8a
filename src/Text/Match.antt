-- ===== src/Text/Match.antt =====
-- Substring tests of ffprinter.c: match_sub and match_sub_min_max, on the bytes before the NUL.
-- The lengths are below 2 ^ 31, so the `int` differences do not overflow.
pub mod Laws
use ffprinter.Prelude.{
  ℕ, zero, suc, ◌+◌, ◌-◌, Bool, true, false, List, [], ◌∷◌, ltb, leb, ◌==◌, if◌then◌else◌, length,
  drop, ℤ, pos, negsuc,
}

-- The loop of match_sub from `haystack + i` and `needle + j`: no difference before an end.
unfoldable pub agree : List ℕ → List ℕ → Bool
agree [] needle = true
agree (x ∷ haystack) [] = true
agree (x ∷ haystack) (y ∷ needle) = if x == y then agree haystack needle else false

unfoldable pub match_sub : List ℕ → List ℕ → ℕ → ℕ
unfolding agree
match_sub haystack needle start_pos =
    if ltb (length haystack) (length needle + start_pos)
    then 0
    else if agree (drop start_pos haystack) needle
    then 1
    else 0

-- The inner loop of match_sub_min_max: the value of `k` behind it.
unfoldable pub matched : List ℕ → List ℕ → ℕ
matched [] needle = 0
matched (x ∷ haystack) [] = 0
matched (x ∷ haystack) (y ∷ needle) = if x == y then suc (matched haystack needle) else 0

-- The outer loop, with the rounds that are left.
unfoldable pub scan : List ℕ → List ℕ → ℕ → ℕ → ℕ
unfolding matched
scan haystack needle i zero = 0
scan haystack needle i (suc rounds) =
    let rest = scan haystack needle (i + 1) rounds in
    if matched (drop i haystack) needle == length needle then 1 else rest

-- `start_pos_min` behind its test.
unfoldable pub first_start : ℤ → ℕ
first_start (pos n) = n
first_start (negsuc n) = 0

-- `start_pos_max + 1` behind its two tests.
unfoldable pub past_start : List ℕ → ℤ → ℕ
past_start haystack (pos m) = if ltb (length haystack) m then length haystack else m + 1
past_start haystack (negsuc n) = length haystack

unfoldable pub match_sub_min_max : List ℕ → List ℕ → ℤ → ℤ → ℕ
unfolding scan first_start past_start
match_sub_min_max haystack needle start_pos_min start_pos_max =
    let lo = first_start start_pos_min in
    let end = past_start haystack start_pos_max in
    if ltb (length haystack) (length needle + lo)
    then 0
    else if ltb end (lo + 1)
    then 0
    else scan haystack needle lo (end - lo)
