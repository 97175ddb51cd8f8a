-- ===== src/ExistMat/Keys.antt =====
-- An existence matrix of ffprinter_function_template.h as the set of the keys that were added to it.
use ffprinter.Prelude.{
  ℕ, ◌+◌, ◌/◌, ◌^◌, ◌<◌, ◌≤◌, ◌≡◌, refl, ap, ◌∙◌, Bool, true, false, ◌&&◌, ◌||◌, Option, none, some,
  List, [], ◌∷◌, ◌++◌, ◌==◌, if◌then◌else◌, length, success,
}
use ffprinter.Pool.Bits.{Bitmap}
use ffprinter.Text.Str.Laws.{IsText}
use ffprinter.ExistMat.{ExistMat, init_exist_mat, add_to_exist_mat}
use ffprinter.ExistMat.Laws.{enough, has_char, char_bit, add_to_exist_mat-Marks}

-- A text, and the index of its object in the pool.
pub record Key : Type 0 where
  pub text : List ℕ
  pub index : ℕ

pub record Fits (str_max_len l1_arr_size : ℕ) (key : Key) : Type 0 where
  pub is_text : IsText key.text
  pub short : length key.text ≤ str_max_len
  pub few : key.index / l1_arr_size + 1 < 2 ^ 32

abbrev pub AllFit : ℕ → ℕ → List Key → Type 0
AllFit str_max_len l1_arr_size [] = Unit
AllFit str_max_len l1_arr_size (key ∷ keys) =
    Fits str_max_len l1_arr_size key × AllFit str_max_len l1_arr_size keys

-- Has some key of the layer 1 array `j` the character `c` at the position `p`?
abbrev pub some_key : ℕ → List Key → ℕ → ℕ → ℕ → Bool
some_key l1_arr_size [] p c j = false
some_key l1_arr_size (key ∷ keys) p c j =
    (has_char key.text p c && (j == key.index / l1_arr_size)) || some_key l1_arr_size keys p c j

or_none : (x : Bool) → x ≡ (x || false)
or_none true = refl
or_none false = refl

or_assoc : (x y z : Bool) → ((x || y) || z) ≡ (x || (y || z))
or_assoc true y z = refl
or_assoc false y z = refl

module _ (B : Bitmap) (wiped : B.Map) (str_max_len l1_arr_size : ℕ) where
  open B use {Map}

  -- The additions of a list of keys, one after the other; `none` if one of them fails.
  unfoldable pub add_keys : ExistMat Map → List Key → Option (ExistMat Map)
  add_keys m [] = some m
  add_keys m (key ∷ keys) =
      elim (add_to_exist_mat B wiped str_max_len l1_arr_size (λ i. enough) m (key.text ++ 0 ∷ [])
        key.index) [
          | none ↦ none
          | some (code, m') ↦ let rest = add_keys m' keys in if code == success then rest else none
        ]

  add_keys-from :
      (m : ExistMat Map) (keys : List Key)
      → 0 < str_max_len
      → str_max_len < 2 ^ 16
      → AllFit str_max_len l1_arr_size keys
      → (m' : ExistMat Map) × (add_keys m keys ≡ some m')
        × ((p c j : ℕ)
            → char_bit B wiped (m'.uniq_char p) c j
              ≡ (char_bit B wiped (m.uniq_char p) c j || some_key l1_arr_size keys p c j))
  unfolding add_keys
  add_keys-from m [] pos small fit =
      (m, refl, λ p c j. or_none (char_bit B wiped (m.uniq_char p) c j))
  add_keys-from m (key ∷ keys) pos small (fit, fits) =
      let (m₁, e, marks) =
        add_to_exist_mat-Marks B wiped str_max_len l1_arr_size m key.text [] key.index fit.is_text
          fit.short pos small fit.few in
      let (m₂, f, all) = add_keys-from m₁ keys pos small fits in
      let rest : ℕ → ℕ → ℕ → Bool = λ p c j. some_key l1_arr_size keys p c j in
      rw (e, add_keys)
        (
          m₂,
          f,
          λ p c j.
              all p c j
              ∙ ap (λ v. v || rest p c j) (marks.bits p c j)
              ∙ or_assoc (char_bit B wiped (m.uniq_char p) c j)
                  (has_char key.text p c && (j == key.index / l1_arr_size)) (rest p c j),
        )

  -- Where no malloc and no realloc fails, str_max_len is not 0 and fits 16 bits, each text is within it, and each index
  -- has a layer 1 array of which the number plus one fits 32 bits, the additions of any list of keys to a new matrix
  -- succeed, and the bit of a layer 1 array is then set for a character at a position exactly when one of the added keys
  -- of that array has that character there.
  pub add_keys-some_key :
      (keys : List Key)
      → 0 < str_max_len
      → str_max_len < 2 ^ 16
      → AllFit str_max_len l1_arr_size keys
      → (m : ExistMat Map) × (add_keys (init_exist_mat B wiped) keys ≡ some m)
        × ((p c j : ℕ) → char_bit B wiped (m.uniq_char p) c j ≡ some_key l1_arr_size keys p c j)
  unfolding init_exist_mat
  add_keys-some_key keys pos small fits = add_keys-from (init_exist_mat B wiped) keys pos small fits
