-- ===== src/Tests/Matrix.antt =====
-- An existence matrix for texts of four bytes at most, over arrays of two keys.
use ffprinter.Prelude.{ℕ, ◌≡◌, ◌==◌, Bool, some, List, [], ◌∷◌, arith, success, if◌then◌else◌, true}
use ffprinter.Pool.Bits.{list_bitmap}
use ffprinter.ExistMat.{ExistMat, init_exist_mat, add_to_exist_mat}
use ffprinter.ExistMat.Laws.{enough, char_bit, Marks, add_to_exist_mat-Marks}
use ffprinter.ExistMat.Keys.{Key, Fits, some_key, add_keys, add_keys-some_key}

abbrev old : ExistMat (List Bool)
old = record {
  uniq_char = λ p. if p == 0 then record { character = b'a'; l1_arr_map = true ∷ [] } ∷ [] else [];
  max_length = 1;
}

add_to_exist_mat-Marks_example :
    (m : ExistMat (List Bool)) × (add_to_exist_mat list_bitmap [] 4 2
        (λ i. enough)
        old
        (b'a' ∷ b'b' ∷ 0 ∷ [])
        3
      ≡ some (success, m))
    × Marks list_bitmap [] old m (b'a' ∷ b'b' ∷ []) 1
add_to_exist_mat-Marks_example =
    add_to_exist_mat-Marks list_bitmap [] 4 2 old (b'a' ∷ b'b' ∷ []) [] 3 (omega arith)
      (omega arith) (omega arith) (omega arith) (omega arith)

-- The key "ab" has the object 0, and "cb" the object 3.
abbrev ab : Key
ab = record { text = b'a' ∷ b'b' ∷ []; index = 0 }

abbrev cb : Key
cb = record { text = b'c' ∷ b'b' ∷ []; index = 3 }

ab-Fits : Fits 4 2 ab
ab-Fits = record { is_text = omega arith; short = omega arith; few = omega arith }

cb-Fits : Fits 4 2 cb
cb-Fits = record { is_text = omega arith; short = omega arith; few = omega arith }

add_keys-some_key_example :
    (m : ExistMat (List Bool)) × (add_keys list_bitmap [] 4 2
        (init_exist_mat list_bitmap [])
        (ab ∷ cb ∷ [])
      ≡ some m)
    × ((p c j : ℕ) → char_bit list_bitmap [] (m.uniq_char p) c j ≡ some_key 2 (ab ∷ cb ∷ []) p c j)
add_keys-some_key_example =
    add_keys-some_key list_bitmap [] 4 2 (ab ∷ cb ∷ []) (omega arith) (omega arith)
      (ab-Fits, (cb-Fits, tt))
