-- ===== src/Tests/Strings.antt =====
-- The string helpers at small texts.
use ffprinter.Prelude.{
  ℕ, ◌≡◌, ◌↔◌, ◌≤◌, refl, false, some, List, [], ◌∷◌, ◌++◌, arith, All, length, success, pos,
  negsuc,
}
use ffprinter.Text.Hex.{bytes_to_hex_str, hex_str_to_bytes, hex_digit, first_digit, second_digit}
use ffprinter.Text.Hex.Decode.{IsUniform, hex_str_to_bytes-bytes_to_hex_str}
use ffprinter.Text.Match.{match_sub_min_max}
use ffprinter.Text.Match.Laws.{AtLeast, AtMost, OccursAt, match_sub_min_max_iff}
use ffprinter.Text.Str.{escape_char, escape_loop}
use ffprinter.Text.Str.Laws.{escape_char_room}
use ffprinter.Text.Grab.{grab_until_sep, grabbed, Counts, tag_count}
use ffprinter.Text.Grab.Laws.{IsPlain, grab_until_sep-escape_char}
use ffprinter.Text.Grab.Tags.{tag_count_total}

abbrev id_bytes : List ℕ
id_bytes = 0x1f ∷ 0x20 ∷ []

hex_str_to_bytes-bytes_to_hex_str_example :
    (out : List ℕ) × (hex_str_to_bytes (7 ∷ 8 ∷ 9 ∷ []) (bytes_to_hex_str id_bytes)
      ≡ some (success, out, bytes_to_hex_str id_bytes))
    × ((out ≡ 0x1f ∷ 0x20 ∷ 9 ∷ []) ↔ All IsUniform id_bytes)
hex_str_to_bytes-bytes_to_hex_str_example =
    hex_str_to_bytes-bytes_to_hex_str id_bytes (7 ∷ 8 ∷ 9 ∷ []) (omega arith) (omega arith)

-- The text "1f" is read as 0x46.
wrong_digit :
    hex_str_to_bytes (0 ∷ []) (bytes_to_hex_str (0x1f ∷ []))
    ≡ some (success, 0x46 ∷ [], b'1' ∷ b'f' ∷ [])
unfolding hex_str_to_bytes bytes_to_hex_str hex_digit first_digit second_digit
wrong_digit = refl

abbrev haystack : List ℕ
haystack = b'a' ∷ b'b' ∷ b'a' ∷ b'c' ∷ []

abbrev needle : List ℕ
needle = b'a' ∷ b'c' ∷ []

match_sub_min_max_iff_example : (match_sub_min_max haystack needle (pos 1) (negsuc 0) ≡ 1) ↔ (
    (k : ℕ) × AtLeast (pos 1) k
    × AtMost (length haystack) (negsuc 0) k
    × OccursAt haystack needle k)
match_sub_min_max_iff_example = match_sub_min_max_iff haystack needle (pos 1) (negsuc 0)

escape_char_room_example :
    (length (escape_char 3 b'|' (b'a' ∷ b'|' ∷ [])).1 ≤ 6)
    × ((worst : List ℕ) × ((escape_char 3 b'|' worst).0 ≡ success)
        × (length (escape_char 3 b'|' worst).1 ≡ 6))
escape_char_room_example = escape_char_room 3 b'|' (b'a' ∷ b'|' ∷ [])

a-IsPlain : IsPlain b'a'
a-IsPlain = record { ne_single = omega arith; ne_double = omega arith; ne_backslash = omega arith }

bar-IsPlain : IsPlain b'|'
bar-IsPlain = record {
  ne_single = omega arith;
  ne_double = omega arith;
  ne_backslash = omega arith;
}

-- The text a| as a field of a|b, with its separator escaped.
grab_until_sep-escape_char_example :
    grab_until_sep
      ((escape_char 9 b'|' (b'a' ∷ b'|' ∷ [])).1 ++ (b'|' ∷ b'b' ∷ []) ++ 0 ∷ [])
      9
      false
      b'|'
    ≡ some (
        grabbed (record {
          text = b'a' ∷ b'|' ∷ [];
          len_read = length (escape_char 9 b'|' (b'a' ∷ b'|' ∷ [])).1;
        }))
unfolding escape_loop
grab_until_sep-escape_char_example =
    grab_until_sep-escape_char (b'a' ∷ b'|' ∷ []) (b'b' ∷ []) [] b'|' 9
      (a-IsPlain, (bar-IsPlain, tt)) (omega arith) bar-IsPlain (omega arith) (omega arith)
      (omega arith)

tag_count_total_example : (r : Counts) × (tag_count (b'a' ∷ b'|' ∷ []) ≡ some r)
tag_count_total_example = tag_count_total (b'a' ∷ b'|' ∷ []) (omega arith)
