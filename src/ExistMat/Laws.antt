-- ===== src/ExistMat/Laws.antt =====
-- What an addition to an existence matrix of ffprinter_function_template.h marks.
use ffprinter.Prelude.{
  ℕ, zero, suc, ◌+◌, ◌/◌, ◌%◌, ◌^◌, ◌<◌, ◌≤◌, ◌≡◌, refl, sym, ap, ◌∙◌, Bool, true, false, ◌&&◌,
  ◌||◌, some, List, [], ◌∷◌, ◌++◌, arith, ltb, ◌==◌, if◌then◌else◌, length, take, success,
  Bool-cases, inl, inr, leb,
}
use mathlib.Core.Path.{subst}
use Prim.Native.Nat.{min, max}
use ffprinter.Links.{upd}
use ffprinter.Pool.Bits.{Bitmap}
use ffprinter.Text.Str.{verify_str_terminated}
use ffprinter.Text.Str.Laws.{IsText, verify_str_terminated_lem}
use ffprinter.ExistMat.{
  UniqCharMap, ExistMat, Memory, new_char, mark_char, mark_chars, add_to_exist_mat, raise,
}
use ffprinter.ExistMat.Bits.{bit, write-init, write-grow}

abbrev pub enough : Memory
enough = record { for_char = true; for_map = true; for_growth = true }

-- Has the text the character `c` at the position `p`?
abbrev pub has_char : List ℕ → ℕ → ℕ → Bool
has_char [] p c = false
has_char (d ∷ s) zero c = d == c
has_char (d ∷ s) (suc p) c = has_char s p c

take-append_all : (xs ys : List ℕ) → take (length xs) (xs ++ ys) ≡ xs
take-append_all [] ys = refl
take-append_all (x ∷ xs) ys = ap (λ zs. x ∷ zs) (take-append_all xs ys)

or_none : (x : Bool) → x ≡ (x || false)
or_none true = refl
or_none false = refl

if_none : (p q : Bool) → (if p then q else false) ≡ (p && q)
if_none true q = refl
if_none false q = refl

if_added : (p q x y : Bool) → (if p then x || q else y) ≡ ((if p then x else y) || (p && q))
if_added true q x y = refl
if_added false q x y = or_none y

if_behind :
    (p r q x y : Bool)
    → (p ≡ true → r ≡ false)
    → (if p then x else (y || (r && q))) ≡ ((if p then x else y) || (r && q))
if_behind false r q x y h = refl
if_behind true r q x y h = rw (h refl) (or_none x)

module _ (B : Bitmap) (wiped : B.Map) where
  open B use {Map}

  -- The bit of the layer 1 array `j` in the map of the character `c`.
  abbrev pub char_bit : List (UniqCharMap Map) → ℕ → ℕ → Bool
  char_bit [] c j = false
  char_bit (u ∷ us) c j = if u.character == c then bit (B.bits u.l1_arr_map) j else char_bit us c j

  mark_char-marks :
      (us : List (UniqCharMap Map)) (k d c j : ℕ)
      → k + 1 < 2 ^ 32
      → ((mark_char B wiped enough k d us).0 ≡ success)
        × (char_bit (mark_char B wiped enough k d us).1 c j
            ≡ (char_bit us c j || ((d == c) && (j == k))))
  unfolding mark_char new_char
  mark_char-marks [] k d c j lt =
      let e : (k + 1) % 2 ^ 32 ≡ k + 1 = omega arith in
      rw (e, write-init B k j) (refl, if_none (d == c) (j == k))
  mark_char-marks (u ∷ us) k d c j lt =
      let e : (k + 1) % 2 ^ 32 ≡ k + 1 = omega arith in
      elim (Bool-cases (u.character == d)) [
        | inl same ↦
            let it : u.character ≡ d = ground arith in
            let p : (u.character == c) ≡ (d == c) = ap (λ x. x == c) it in
            rw (e, same, write-grow B u.l1_arr_map k j, p)
              (refl, if_added (d == c) (j == k) (bit (B.bits u.l1_arr_map) j) (char_bit us c j))
        | inr other ↦
            let rest = mark_char-marks us k d c j lt in
            rw (other, rest.1)
              (
                rest.0,
                if_behind (u.character == c) (d == c) (j == k) (bit (B.bits u.l1_arr_map) j)
                    (char_bit us c j) (λ p. ground arith),
              )
      ]

  mark_chars-before :
      (mem : ℕ → Memory) (k i : ℕ) (s : List ℕ) (at : ℕ → List (UniqCharMap Map)) (p : ℕ)
      → p < i
      → (mark_chars B wiped mem k i s at).1 p ≡ at p
  unfolding mark_chars
  mark_chars-before mem k i [] at p lt = refl
  mark_chars-before mem k i (c ∷ s) at p lt =
      let same : upd at i (mark_char B wiped (mem i) k c (at i)).1 p ≡ at p = ground arith in
      elim (Bool-cases ((mark_char B wiped (mem i) k c (at i)).0 == success)) [
        | inl go ↦ rw go (
            mark_chars-before mem k (i + 1) s (upd at i (mark_char B wiped (mem i) k c (at i)).1) p
              (omega arith)
            ∙ same)
        | inr stop ↦ rw stop same
      ]

  mark_chars-marks :
      (k i : ℕ) (s : List ℕ) (at : ℕ → List (UniqCharMap Map)) (p c j : ℕ)
      → k + 1 < 2 ^ 32
      → ((mark_chars B wiped (λ n. enough) k i s at).0 ≡ success)
        × (char_bit ((mark_chars B wiped (λ n. enough) k i s at).1 (p + i)) c j
            ≡ (char_bit (at (p + i)) c j || (has_char s p c && (j == k))))
  unfolding mark_chars
  mark_chars-marks k i [] at p c j lt = (refl, or_none (char_bit (at (p + i)) c j))
  mark_chars-marks k i (d ∷ s) at zero c j lt =
      let here = mark_char-marks (at i) k d c j lt in
      let us = (mark_char B wiped enough k d (at i)).1 in
      let go : ((mark_char B wiped enough k d (at i)).0 == success) ≡ true = rw here.0 refl in
      let e : 0 + i ≡ i = omega arith in
      let set : upd at i us i ≡ us = ground arith in
      rw (go, e, mark_chars-before (λ n. enough) k (i + 1) s (upd at i us) i (omega arith), set)
        ((mark_chars-marks k (i + 1) s (upd at i us) zero c j lt).0, here.1)
  mark_chars-marks k i (d ∷ s) at (suc p) c j lt =
      let here = mark_char-marks (at i) k d c j lt in
      let us = (mark_char B wiped enough k d (at i)).1 in
      let go : ((mark_char B wiped enough k d (at i)).0 == success) ≡ true = rw here.0 refl in
      let rest = mark_chars-marks k (i + 1) s (upd at i us) p c j lt in
      let e : p + (i + 1) ≡ suc p + i = omega arith in
      let other : upd at i us (p + (i + 1)) ≡ at (p + (i + 1)) = ground arith in
      rw (go, sym e) (rest.0, rw other at rest.1)

  -- `m` is `matrix` with the bit of the layer 1 array `k` for the characters of `s`.
  pub record Marks (matrix m : ExistMat Map) (s : List ℕ) (k : ℕ) : Type 0 where
    pub bits :
        (p c j : ℕ)
        → char_bit (m.uniq_char p) c j
          ≡ (char_bit (matrix.uniq_char p) c j || (has_char s p c && (j == k)))
    pub longest : m.max_length ≡ max matrix.max_length (length s)

  -- Where no malloc and no realloc fails, str_max_len is not 0 and fits 16 bits, the text is within it, and the index has
  -- a layer 1 array of which the number plus one fits 32 bits, the addition sets exactly the bits of that array for the
  -- characters of the text at their positions, keeps all other bits as they were, and raises max_length to the length of
  -- the text if it is lower.
  pub add_to_exist_mat-Marks :
      (str_max_len l1_arr_size : ℕ) (matrix : ExistMat Map) (s rest : List ℕ) (index_in_arr : ℕ)
      → IsText s
      → length s ≤ str_max_len
      → 0 < str_max_len
      → str_max_len < 2 ^ 16
      → index_in_arr / l1_arr_size + 1 < 2 ^ 32
      → (m : ExistMat Map) × (add_to_exist_mat B wiped str_max_len l1_arr_size
            (λ i. enough)
            matrix
            (s ++ 0 ∷ rest)
            index_in_arr
          ≡ some (success, m))
        × Marks matrix m s (index_in_arr / l1_arr_size)
  unfolding add_to_exist_mat
  add_to_exist_mat-Marks str_max_len l1_arr_size matrix s rest index text short pos small few =
      let k = index / l1_arr_size in
      let wide : k % 2 ^ 32 ≡ k = omega arith in
      let n : min (length s) (str_max_len + 1) ≡ length s = omega arith in
      let ok : leb (length s) str_max_len ≡ true = ground arith in
      let fits : ltb str_max_len (length s) ≡ false = ground arith in
      let all : take (length s) (s ++ 0 ∷ rest) ≡ s = take-append_all s (0 ∷ rest) in
      let at = mark_chars B wiped (λ i. enough) k 0 s matrix.uniq_char in
      let good : at.0 ≡ success = (mark_chars-marks k 0 s matrix.uniq_char 0 0 0 few).0 in
      let checked : verify_str_terminated (some (s ++ 0 ∷ rest)) str_max_len 0
          ≡ some (success, some (length s)) =
        verify_str_terminated_lem s rest str_max_len 0 text pos (omega arith) ∙ rw (ok, n) refl in
      rw (checked, fits, all, wide, good, add_to_exist_mat)
        (
          record { uniq_char = at.1; max_length = raise matrix.max_length (length s) },
          refl,
          record {
            bits = λ p c j.
                let e : p + 0 ≡ p = omega arith in
                subst
                  (λ q.
                    char_bit (at.1 q) c j
                    ≡ (char_bit (matrix.uniq_char q) c j || (has_char s p c && (j == k))))
                  e (mark_chars-marks k 0 s matrix.uniq_char p c j few).1;
            longest = ground arith;
          },
        )
