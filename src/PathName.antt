-- ===== src/PathName.antt =====
-- path_to_file_name of ffp_fingerprint.c. The path is the bytes before its NUL; `none` stands for the
-- read before the first byte of an empty path.
pub mod Laws
use ffprinter.Prelude.{
  ℕ, zero, suc, ◌+◌, ◌-◌, Bool, true, false, not, ◌&&◌, Option, none, some, List, [], ◌∷◌, ltb,
  ◌==◌, if◌then◌else◌, length, get_elem?, take, drop, success, file_name_empty,
}

abbrev pub slash : ℕ
slash = 0x2f

abbrev pub backslash : ℕ
backslash = 0x5c

abbrev pub file_name_max : ℕ
file_name_max = 260

abbrev pub is_char : Option ℕ → ℕ → Bool
is_char none c = false
is_char (some d) c = d == c

-- `path[i] == c`.
abbrev pub is_at : List ℕ → ℕ → ℕ → Bool
is_at path i c = is_char (get_elem? path i) c

-- A slash with no backslash before it.
unfoldable pub ends_name : List ℕ → ℕ → Bool
ends_name path zero = is_at path 0 slash
ends_name path (suc i) = is_at path (suc i) slash && not (is_at path i backslash)

-- The loop with the index `i` of `n` = `i + 1` characters left: where the name begins, and the
-- length that is counted.
unfoldable pub read_back : List ℕ → ℕ → ℕ → ℕ × ℕ
unfolding ends_name
read_back path zero len = (0, len)
read_back path (suc i) len = elim (ends_name path i) [
  | true ↦ (suc i, len)
  | false ↦ read_back path i (len + 1)
]

-- The code, and the bytes written to `file_name` before its NUL.
unfoldable pub path_to_file_name : List ℕ → Option (ℕ × Option (List ℕ))
unfolding read_back
path_to_file_name [] = none
path_to_file_name (c ∷ cs) =
    let path = c ∷ cs in
    let n = length path in
    let end = if is_at path (n - 1) slash then n - 1 else n in
    let (start, len) = read_back path end 0 in
    if ltb file_name_max len
    then some (success, some (take file_name_max (drop start path)))
    else if len == 0
    then some (file_name_empty, none)
    else some (success, some (take len (drop start path)))
