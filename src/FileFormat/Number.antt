-- ===== src/FileFormat/Number.antt =====
-- The integers in the files of load_file and save_file of ffp_file.c.
use ffprinter.Prelude.{
  ℕ, zero, suc, ◌+◌, ◌*◌, ◌/◌, ◌%◌, ◌<◌, ◌≡◌, refl, ap, ◌∙◌, sym, List, [], ◌∷◌, ◌++◌, arith,
  length, length-append,
}
use mathlib.Core.List.{append_assoc, append-nil}
use ffprinter.FileFormat.{big_endian_bytes, from_bytes}

-- 256 to the power of the width.
abbrev pub bound : ℕ → ℕ
bound zero = 1
bound (suc w) = bound w * 256

pub length-big_endian_bytes : (w n : ℕ) → length (big_endian_bytes w n) ≡ w
length-big_endian_bytes zero n = refl
length-big_endian_bytes (suc w) n = omega (
  arith,
  length-append (big_endian_bytes w (n / 256)) (n % 256 ∷ []),
  length-big_endian_bytes w (n / 256),
)

from_bytes-before :
    (w n : ℕ) (rest : List ℕ)
    → n < bound w
    → from_bytes 0 (big_endian_bytes w n ++ rest) ≡ from_bytes n rest
from_bytes-before zero n rest lt = let z : n ≡ 0 = omega arith in rw z refl
from_bytes-before (suc w) n rest lt =
    let e : n / 256 * 256 + n % 256 ≡ n = omega arith in
    rw (append_assoc (big_endian_bytes w (n / 256)) (n % 256 ∷ []) rest)
      (from_bytes-before w (n / 256) (n % 256 ∷ rest) (omega arith) ∙ ap (λ m. from_bytes m rest) e)

pub from_bytes-big_endian_bytes : (w n : ℕ) → n < bound w → from_bytes 0 (big_endian_bytes w n) ≡ n
from_bytes-big_endian_bytes w n lt =
    ap (from_bytes 0) (sym (append-nil (big_endian_bytes w n))) ∙ from_bytes-before w n [] lt
