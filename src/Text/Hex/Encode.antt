-- ===== src/Text/Hex/Encode.antt =====
-- What bytes_to_hex_str of ffprinter.c writes.
use ffprinter.Prelude.{ℕ, ◌*◌, ◌/◌, ◌%◌, ◌<◌, ◌≡◌, refl, true, List, [], ◌∷◌, arith, length, All}
use mathlib.Core.Path.{ap₂}
use ffprinter.Text.Hex.{is_xdigit, hex_digit, bytes_to_hex_str}

abbrev pub IsByte : ℕ → Type 0
IsByte b = b < 256

hex_digit_inj : (m n : ℕ) → m < 16 → n < 16 → hex_digit m ≡ hex_digit n → m ≡ n
unfolding hex_digit
hex_digit_inj m n hm hn e = ground arith

pub is_xdigit-hex_digit : (n : ℕ) → n < 16 → is_xdigit (hex_digit n) ≡ true
unfolding hex_digit is_xdigit
is_xdigit-hex_digit n h = ground arith

-- Different byte strings have different texts: an entry is named by the text of its id.
pub bytes_to_hex_str-injective :
    (xs ys : List ℕ)
    → All IsByte xs
    → All IsByte ys
    → bytes_to_hex_str xs ≡ bytes_to_hex_str ys
    → xs ≡ ys
unfolding bytes_to_hex_str
bytes_to_hex_str-injective [] [] hx hy e = refl
bytes_to_hex_str-injective [] (y ∷ ys) hx hy e = absurd (cc)
bytes_to_hex_str-injective (x ∷ xs) [] hx hy e = absurd (cc)
bytes_to_hex_str-injective (x ∷ xs) (y ∷ ys) hx hy e =
    let hi : x / 16 ≡ y / 16 = hex_digit_inj _ _ (omega arith) (omega arith) (cc) in
    let lo : x % 16 ≡ y % 16 = hex_digit_inj _ _ (omega arith) (omega arith) (cc) in
    ap₂ ◌∷◌ (omega arith) (bytes_to_hex_str-injective xs ys hx.1 hy.1 (cc))

-- Two digits for each byte, each of them hexadecimal.
pub bytes_to_hex_str-digits :
    (bs : List ℕ)
    → All IsByte bs
    → (length (bytes_to_hex_str bs) ≡ 2 * length bs)
      × All (λ c. is_xdigit c ≡ true) (bytes_to_hex_str bs)
unfolding bytes_to_hex_str
bytes_to_hex_str-digits [] h = (refl, tt)
bytes_to_hex_str-digits (b ∷ bs) h =
    let (len, digits) = bytes_to_hex_str-digits bs h.1 in
    (
      omega arith,
      (
        is_xdigit-hex_digit (b / 16) (omega arith),
        (is_xdigit-hex_digit (b % 16) (omega arith), digits),
      ),
    )
