-- ===== src/ExistMat.antt =====
-- The existence matrices of ffprinter_function_template.h, for one kind of key: init_…_exist_mat and
-- add_…_to_…_exist_mat, with init_uniq_char_map of ffprinter.c.
-- For each position of a text, a matrix has the characters that some key has there, each with the
-- bitmap of the layer 1 arrays that have such a key. `wiped` is a simple_bitmap of zero bytes, and
-- str_max_len and l1_arr_size are the macro parameters.
pub mod Bits
pub mod Laws
pub mod Keys
use ffprinter.Prelude.{
  ℕ, ◌+◌, ◌/◌, ◌%◌, ◌^◌, Bool, true, false, not, Option, none, some, List, [], ◌∷◌, ltb, ◌==◌,
  if◌then◌else◌, take, success, malloc_fail,
}
use ffprinter.Links.{upd}
use ffprinter.Pool.Bits.{Bitmap}
use ffprinter.Pool.{ffp_grow_bitmap}
use ffprinter.Text.Str.{verify_str_terminated}

pub record UniqCharMap (Map : Type 0) : Type 0 where
  pub character : ℕ
  pub l1_arr_map : Map

-- `uniq_char` gives the list that hangs at each position.
pub record ExistMat (Map : Type 0) : Type 0 where
  pub uniq_char : ℕ → List (UniqCharMap Map)
  pub max_length : ℕ

-- max_length, of 16 bits, with a text of the length `n`.
abbrev pub raise : ℕ → ℕ → ℕ
raise longest n = if ltb longest n then n % 2 ^ 16 else longest

-- The answers of malloc and realloc for one position.
pub record Memory : Type 0 where
  pub for_char : Bool
  pub for_map : Bool
  pub for_growth : Bool

module _ (B : Bitmap) (wiped : B.Map) where
  open B use {Map}

  unfoldable pub init_exist_mat : ExistMat Map
  init_exist_mat = record { uniq_char = λ i. []; max_length = 0 }

  unfoldable pub init_uniq_char_map : UniqCharMap Map
  init_uniq_char_map = record { character = 0; l1_arr_map = wiped }

  -- The object for a character that the position does not have yet.
  unfoldable pub new_char : Memory → ℕ → ℕ → ℕ × List (UniqCharMap Map)
  unfolding init_uniq_char_map
  new_char mem k c =
      let u = record init_uniq_char_map { character = c } in
      if not mem.for_char
      then (malloc_fail, [])
      else if not mem.for_map
      then (malloc_fail, u ∷ [])
      else (
        success,
        record u { l1_arr_map = B.write (B.init ((k + 1) % 2 ^ 32) false) k true } ∷ [],
      )

  -- One round of the loop: the list of the position, searched for the character.
  unfoldable pub mark_char : Memory → ℕ → ℕ → List (UniqCharMap Map) → ℕ × List (UniqCharMap Map)
  unfolding new_char ffp_grow_bitmap
  mark_char mem k c [] = new_char mem k c
  mark_char mem k c (u ∷ us) =
      let rest = mark_char mem k c us in
      let grown = (ffp_grow_bitmap B mem.for_growth u.l1_arr_map ((k + 1) % 2 ^ 32)).1 in
      if u.character == c
      then (success, record u { l1_arr_map = B.write grown k true } ∷ us)
      else (rest.0, u ∷ rest.1)

  -- The loop over the characters from the position `i` on, which stops where memory runs out.
  unfoldable pub mark_chars :
      (ℕ → Memory)
      → ℕ
      → ℕ
      → List ℕ
      → (ℕ → List (UniqCharMap Map))
      → ℕ × (ℕ → List (UniqCharMap Map))
  unfolding mark_char
  mark_chars mem k i [] at = (success, at)
  mark_chars mem k i (c ∷ s) at =
      let (code, us) = mark_char (mem i) k c (at i) in
      let rest = mark_chars mem k (i + 1) s (upd at i us) in
      if code == success then rest else (code, upd at i us)

  -- `none` stands for an access outside of the text or of the positions.
  unfoldable pub add_to_exist_mat :
      ℕ → ℕ → (ℕ → Memory) → ExistMat Map → List ℕ → ℕ → Option (ℕ × ExistMat Map)
  add_to_exist_mat str_max_len l1_arr_size mem matrix str index_in_arr =
      let k = index_in_arr / l1_arr_size % 2 ^ 32 in
      elim (verify_str_terminated (some str) str_max_len 0) [
        | some (code, some str_len) ↦
            let marked = mark_chars mem k 0 (take str_len str) matrix.uniq_char in
            let failed = record matrix { uniq_char = marked.1 } in
            if not (code == success)
            then some (code, matrix)
            else if ltb str_max_len str_len
            then none
            else if not (marked.0 == success)
            then some (marked.0, failed)
            else some (success, record failed { max_length = raise matrix.max_length str_len })
        | some (code, none) ↦ some (code, matrix)
        | none ↦ none
      ]
