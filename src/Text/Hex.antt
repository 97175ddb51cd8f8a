-- ===== src/Text/Hex.antt =====
-- Hexadecimal text of ffprinter.c: bytes_to_hex_str, hex_str_to_bytes and upper_to_lower_case.
-- A C string is the list of its bytes before the NUL. A buffer is the list of its cells: `none`
-- stands for a write behind its last cell.
pub mod Encode
pub mod Decode
use ffprinter.Prelude.{
  ℕ, ◌+◌, ◌-◌, ◌*◌, ◌/◌, ◌%◌, Bool, true, false, not, ◌&&◌, ◌||◌, Option, none, some, List, [], ◌∷◌,
  ltb, leb, ◌==◌, if◌then◌else◌, length, success, invalid_hex_str,
}
use mathlib.Core.Option

-- `isxdigit` of the C library, in the C locale.
unfoldable pub is_xdigit : ℕ → Bool
is_xdigit c = (leb b'0' c && leb c b'9') || (leb b'A' c && leb c b'F') || (leb b'a' c && leb c b'f')

-- The digit that `sprintf` writes for a nibble under `%02x`.
unfoldable pub hex_digit : ℕ → ℕ
hex_digit n = if ltb n 10 then b'0' + n else b'a' + (n - 10)

unfoldable pub bytes_to_hex_str : List ℕ → List ℕ
bytes_to_hex_str [] = []
bytes_to_hex_str (b ∷ bs) = hex_digit (b / 16) ∷ hex_digit (b % 16) ∷ bytes_to_hex_str bs

-- One round of the loop of upper_to_lower_case.
unfoldable pub lower : ℕ → ℕ
lower c = if leb b'A' c && leb c b'F' then c + 32 else c

unfoldable pub upper_to_lower_case : List ℕ → List ℕ
upper_to_lower_case [] = []
upper_to_lower_case (c ∷ s) = lower c ∷ upper_to_lower_case s

unfoldable pub is_letter : ℕ → Bool
is_letter c = leb b'a' c && leb c b'f'

unfoldable pub is_decimal : ℕ → Bool
is_decimal c = leb b'0' c && leb c b'9'

-- The lone first digit of a text of odd length; `d` is the old value of the cell.
unfoldable pub lone_digit : ℕ → ℕ → ℕ
unfolding is_letter is_decimal
lone_digit d c =
    if is_letter c then (c - b'a' + 0x0a) % 256 else if is_decimal c then (c - b'0') % 256 else d

unfoldable pub first_digit : ℕ → ℕ → ℕ
unfolding is_letter is_decimal
first_digit d c =
    if is_letter c
    then (c - b'a' + 0x0a) * 0x10 % 256
    else if is_decimal c
    then (c - b'0') * 0x10 % 256
    else d

-- `dst[k] += …` on an unsigned char: both tests read the first digit `c`, the value is that of `c'`.
unfoldable pub second_digit : ℕ → ℕ → ℕ → ℕ
unfolding is_letter is_decimal
second_digit d c c' =
    if is_letter c
    then (d + 256 + c' + 0x0a - b'a') % 256
    else if is_decimal c
    then (d + 256 + c' - b'0') % 256
    else d

-- The main loop. Behind the last character `src[i + 1]` is the NUL.
unfoldable pub pairs : List ℕ → List ℕ → Option (List ℕ)
pairs [] dst = some dst
pairs (c ∷ src) [] = none
pairs (c ∷ []) (d ∷ dst) = some (second_digit (first_digit d c) c 0 ∷ dst)
pairs (c ∷ c' ∷ src) (d ∷ dst) =
    Option.map (λ r. second_digit (first_digit d c) c c' ∷ r) (pairs src dst)

all_xdigits : List ℕ → Bool
unfolding is_xdigit
all_xdigits [] = true
all_xdigits (c ∷ s) = is_xdigit c && all_xdigits s

-- The writes for a text in lower case: the lone digit first, if the length is odd.
unfoldable pub write_bytes : Bool → List ℕ → List ℕ → Option (List ℕ)
write_bytes true (c ∷ src) (d ∷ dst) = Option.map (λ r. lone_digit d c ∷ r) (pairs src dst)
write_bytes true (c ∷ src) [] = none
write_bytes true [] dst = some dst
write_bytes false src dst = pairs src dst

-- The return code, the buffer, and the text, which is turned to lower case in place.
unfoldable pub hex_str_to_bytes : List ℕ → List ℕ → Option (ℕ × List ℕ × List ℕ)
unfolding all_xdigits write_bytes pairs upper_to_lower_case lower
hex_str_to_bytes dst src =
    if not (all_xdigits src)
    then some (invalid_hex_str, dst, src)
    else let low = upper_to_lower_case src in
      Option.map (λ r. (success, r, low)) (write_bytes (length src % 2 == 1) low dst)
