-- ===== src/Text/Str.antt =====
-- Copies and checks of C strings in ffprinter.c: verify_str_terminated, reverse_strcpy and
-- escape_char. Memory behind a pointer is the list of its bytes; `none` stands for an access
-- outside of it.
pub mod Laws
use ffprinter.Prelude.{
  ℕ, zero, suc, ◌+◌, ◌-◌, ◌*◌, ◌/◌, ◌%◌, ◌^◌, Bool, true, false, not, ◌&&◌, Option, none, some,
  List, [], ◌∷◌, ◌++◌, ltb, leb, ◌==◌, if◌then◌else◌, length, get_elem?, set, success, wrong_args,
  verify_fail, buffer_no_space,
}
use mathlib.Core.Option

-- The bytes before the NUL, and their number, by `strlen`.
unfoldable pub c_str : List ℕ → List ℕ
c_str [] = []
c_str (c ∷ mem) = if c == 0 then [] else c ∷ c_str mem

-- The loop of verify_str_terminated: the value of `i` behind it.
unfoldable pub find_nul : List ℕ → ℕ → Option ℕ
find_nul mem zero = some 0
find_nul [] (suc rounds) = none
find_nul (c ∷ mem) (suc rounds) = if c == 0 then some 0 else Option.map suc (find_nul mem rounds)

-- The code, and the value written to `*length`. `max_len + 1` wraps around at 64 bits, and
-- ALLOW_ZERO_LEN_STR is the lowest bit of the flags.
unfoldable pub verify_str_terminated : Option (List ℕ) → ℕ → ℕ → Option (ℕ × Option ℕ)
unfolding find_nul
verify_str_terminated none max_len flags = some (wrong_args, none)
verify_str_terminated (some mem) max_len flags =
    let end = (max_len + 1) % 2 ^ 64 in
    if flags % 2 == 0 && max_len == 0
    then some (wrong_args, none)
    else Option.map (λ i. ((if i == end then verify_fail else success), some i)) (find_nul mem end)

-- A write through a pointer into a buffer.
unfoldable pub store : List ℕ → ℕ → ℕ → Option (List ℕ)
store buf i v = if ltb i (length buf) then some (set buf i v) else none

-- The copying loop of reverse_strcpy, with the rounds that are left.
unfoldable pub reverse_loop : List ℕ → List ℕ → ℕ → ℕ → ℕ → Option (List ℕ)
unfolding store
reverse_loop dst src len i zero = some dst
reverse_loop dst src len i (suc rounds) = elim (get_elem? src (len - 1 - i)) [
  | none ↦ none
  | some c ↦ elim (store dst i c) [
    | none ↦ none
    | some dst' ↦ reverse_loop dst' src len (i + 1) rounds
  ]
]

-- `src` is the text before the NUL.
unfoldable pub reverse_strcpy : List ℕ → List ℕ → Option (List ℕ)
unfolding reverse_loop store
reverse_strcpy dst src =
    let len = length src in
    elim (reverse_loop dst src len 0 len) [ none ↦ none | some dst' ↦ store dst' len 0 ]

-- The bytes that the loop of escape_char writes from `dst` on; no NUL is among them.
unfoldable pub escape_loop : ℕ → List ℕ → List ℕ
escape_loop tar [] = []
escape_loop tar (c ∷ src) =
    let rest = escape_loop tar src in if c == tar then 0x5c ∷ c ∷ rest else c ∷ rest

unfoldable pub escape_char : ℕ → ℕ → List ℕ → ℕ × List ℕ
unfolding escape_loop
escape_char max_len tar src =
    if ltb max_len (length src) then (buffer_no_space, []) else (success, escape_loop tar src)
