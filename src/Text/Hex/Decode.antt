-- ===== src/Text/Hex/Decode.antt =====
-- What hex_str_to_bytes of ffprinter.c makes of texts.
use ffprinter.Prelude.{
  ℕ, ◌/◌, ◌%◌, ◌≤◌, ◌<◌, ◌≡◌, ◌↔◌, refl, ap, true, false, some, List, [], ◌∷◌, ◌++◌, arith, ltb,
  ◌==◌, length, All, drop, success,
}
use mathlib.Core.Path.{ap₂}
use ffprinter.Text.Hex.{
  is_xdigit, hex_digit, bytes_to_hex_str, lower, upper_to_lower_case, first_digit, second_digit,
  pairs, all_xdigits, write_bytes, hex_str_to_bytes,
}
use ffprinter.Text.Hex.Encode.{IsByte, bytes_to_hex_str-digits}

-- Both digits of a byte are decimal digits, or both are letters.
abbrev pub IsUniform : ℕ → Type 0
IsUniform b = ltb (b / 16) 10 ≡ ltb (b % 16) 10

-- The cell that the loop writes for the two digits of a byte.
pub decoded : ℕ → ℕ → ℕ
decoded d b =
    second_digit (first_digit d (hex_digit (b / 16))) (hex_digit (b / 16)) (hex_digit (b % 16))

decoded-IsUniform : (d b : ℕ) → IsByte b → (decoded d b ≡ b) ↔ IsUniform b
unfolding decoded hex_digit first_digit second_digit
decoded-IsUniform d b h = (λ e. ground arith, λ u. ground arith)

-- The old value of the cell is overwritten.
decoded_any : (d b : ℕ) → IsByte b → decoded d b ≡ decoded 0 b
unfolding decoded hex_digit first_digit second_digit
decoded_any d b h = ground arith

pub decode_all : List ℕ → List ℕ
decode_all [] = []
decode_all (b ∷ bs) = decoded 0 b ∷ decode_all bs

pairs-bytes_to_hex_str :
    (bs dst : List ℕ)
    → All IsByte bs
    → length bs ≤ length dst
    → pairs (bytes_to_hex_str bs) dst ≡ some (decode_all bs ++ drop (length bs) dst)
unfolding pairs bytes_to_hex_str decode_all
pairs-bytes_to_hex_str [] dst h fits = refl
pairs-bytes_to_hex_str (b ∷ bs) [] h fits = absurd (omega arith)
pairs-bytes_to_hex_str (b ∷ bs) (d ∷ dst) h fits =
    rw (pairs-bytes_to_hex_str bs dst h.1 (omega arith)) (
      ap (λ c. some (c ∷ decode_all bs ++ drop (length bs) dst))
        (unfold decoded in decoded_any d b h.0))

lower-hex_digit : (n : ℕ) → n < 16 → lower (hex_digit n) ≡ hex_digit n
unfolding lower hex_digit
lower-hex_digit n h = ground arith

lower-bytes_to_hex_str :
    (bs : List ℕ) → All IsByte bs → upper_to_lower_case (bytes_to_hex_str bs) ≡ bytes_to_hex_str bs
unfolding upper_to_lower_case bytes_to_hex_str
lower-bytes_to_hex_str [] h = refl
lower-bytes_to_hex_str (b ∷ bs) h = rw (
  lower-hex_digit (b / 16) (omega arith),
  lower-hex_digit (b % 16) (omega arith),
  lower-bytes_to_hex_str bs h.1,
)

all_xdigits-All : (s : List ℕ) → All (λ c. is_xdigit c ≡ true) s → all_xdigits s ≡ true
unfolding all_xdigits
all_xdigits-All [] h = refl
all_xdigits-All (c ∷ s) h = rw (h.0, all_xdigits-All s h.1)

-- Whatever bytes_to_hex_str writes is accepted, and decoded two digits at a time.
hex_str_to_bytes-decode_all :
    (bs dst : List ℕ)
    → All IsByte bs
    → length bs ≤ length dst
    → hex_str_to_bytes dst (bytes_to_hex_str bs)
      ≡ some (success, decode_all bs ++ drop (length bs) dst, bytes_to_hex_str bs)
unfolding hex_str_to_bytes write_bytes
hex_str_to_bytes-decode_all bs dst h fits =
    let (len, digits) = bytes_to_hex_str-digits bs h in
    let even : (length (bytes_to_hex_str bs) % 2 == 1) ≡ false = ground arith in
    rw (
      all_xdigits-All (bytes_to_hex_str bs) digits,
      lower-bytes_to_hex_str bs h,
      even,
      pairs-bytes_to_hex_str bs dst h fits,
    )

cons_inj : (x y : ℕ) (xs ys : List ℕ) → x ∷ xs ≡ y ∷ ys → (x ≡ y) × (xs ≡ ys)
cons_inj x y xs ys e = (cc, cc)

decode_all_iff :
    (bs rest : List ℕ) → All IsByte bs → (decode_all bs ++ rest ≡ bs ++ rest) ↔ All IsUniform bs
unfolding decode_all
decode_all_iff [] rest h = (λ e. tt, λ u. refl)
decode_all_iff (b ∷ bs) rest h = (
  λ e.
      let (head, tail) = cons_inj (decoded 0 b) b (decode_all bs ++ rest) (bs ++ rest) e in
      ((decoded-IsUniform 0 b h.0).0 head, (decode_all_iff bs rest h.1).0 tail),
  λ u. ap₂ ◌∷◌ ((decoded-IsUniform 0 b h.0).1 u.0) ((decode_all_iff bs rest h.1).1 u.1),
)

-- For every byte string and every buffer that can hold it, hex_str_to_bytes accepts the text that
-- bytes_to_hex_str writes, leaves the text and the cells behind the bytes alone, and the buffer
-- then begins with the byte string exactly when each byte has two digits of one kind.
pub hex_str_to_bytes-bytes_to_hex_str :
    (bs dst : List ℕ)
    → All IsByte bs
    → length bs ≤ length dst
    → (out : List ℕ) × (hex_str_to_bytes dst (bytes_to_hex_str bs)
        ≡ some (success, out, bytes_to_hex_str bs))
      × ((out ≡ bs ++ drop (length bs) dst) ↔ All IsUniform bs)
hex_str_to_bytes-bytes_to_hex_str bs dst h fits =
    (_, hex_str_to_bytes-decode_all bs dst h fits, decode_all_iff bs (drop (length bs) dst) h)
