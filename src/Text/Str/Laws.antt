-- ===== src/Text/Str/Laws.antt =====
-- verify_str_terminated, reverse_strcpy and escape_char of ffprinter.c.
use ffprinter.Prelude.{
  length-reverse, ℕ, zero, suc, ◌+◌, ◌-◌, ◌*◌, ◌%◌, ◌^◌, ◌≤◌, ◌<◌, ◌≡◌, ◌≢◌, refl, ap, sym, ◌∙◌,
  false, ◌&&◌, some, List, [], ◌∷◌, ◌++◌, arith, ltb, leb, ◌==◌, if◌then◌else◌, length, get_elem?,
  All, drop, replicate, length-replicate, success, verify_fail, length-append,
}
use Prim.Native.Nat.{min}
use mathlib.Core.List.{reverse, append_assoc, append-nil, reverse-cons, reverse-reverse}
use ffprinter.Text.Str.{
  c_str, find_nul, verify_str_terminated, store, reverse_loop, reverse_strcpy, escape_loop,
  escape_char,
}

-- A text has no NUL in it.
abbrev pub IsText : List ℕ → Type 0
IsText s = All (λ c. c ≢ 0) s

find_nul_lem :
    (s rest : List ℕ) (rounds : ℕ)
    → IsText s
    → find_nul (s ++ 0 ∷ rest) rounds ≡ some (min (length s) rounds)
unfolding find_nul
find_nul_lem s rest zero h = ap some (omega arith)
find_nul_lem [] rest (suc r) h = ap some (omega arith)
find_nul_lem (c ∷ s) rest (suc r) h =
    let no : (c == 0) ≡ false = ground arith in
    let e : suc (min (length s) r) ≡ min (suc (length s)) (suc r) = omega arith in
    rw (no, find_nul_lem s rest r h.1) (ap some e)

-- On a text of any length with its NUL in memory, and a bound that is not 0 and below 2 ^ 64 - 1, verify_str_terminated
-- reads no byte behind the NUL, accepts exactly the texts within the bound, and reports their length, or else the bound plus one.
pub verify_str_terminated_lem :
    (s rest : List ℕ) (max_len flags : ℕ)
    → IsText s
    → 0 < max_len
    → max_len + 1 < 2 ^ 64
    → verify_str_terminated (some (s ++ 0 ∷ rest)) max_len flags
      ≡ some (
        (if leb (length s) max_len then success else verify_fail),
        some (min (length s) (max_len + 1)),
      )
unfolding verify_str_terminated
verify_str_terminated_lem s rest m flags h pos small =
    let e : (m + 1) % 2 ^ 64 ≡ m + 1 = omega arith in
    let no : (flags % 2 == 0 && m == 0) ≡ false = ground arith in
    rw (no, e, find_nul_lem s rest (m + 1) h) (ground arith)

pub c_str_lem : (s rest : List ℕ) → IsText s → c_str (s ++ 0 ∷ rest) ≡ s
unfolding c_str
c_str_lem [] rest h = refl
c_str_lem (c ∷ s) rest h = let no : (c == 0) ≡ false = ground arith in rw (no, c_str_lem s rest h.1)

store_middle :
    (done rest : List ℕ) (d v : ℕ)
    → store (done ++ d ∷ rest) (length done) v ≡ some (done ++ v ∷ rest)
unfolding store
store_middle [] rest d v = ground arith
store_middle (c ∷ done) rest d v = ground (arith, store_middle done rest d v)

get_elem?-middle : (xs rest : List ℕ) (d : ℕ) → get_elem? (xs ++ d ∷ rest) (length xs) ≡ some d
get_elem?-middle [] rest d = refl
get_elem?-middle (x ∷ xs) rest d = get_elem?-middle xs rest d

reverse_cons_append : (d : ℕ) (ds tail : List ℕ) → reverse (d ∷ ds) ++ tail ≡ reverse ds ++ d ∷ tail
reverse_cons_append d ds tail = rw (reverse-cons, append_assoc)

reverse_step :
    (dst src dst' : List ℕ) (len i rounds c : ℕ)
    → get_elem? src (len - 1 - i) ≡ some c
    → store dst i c ≡ some dst'
    → reverse_loop dst src len i (suc rounds) ≡ reverse_loop dst' src len (i + 1) rounds
unfolding reverse_loop
reverse_step dst src dst' len i rounds c read written = ground arith

-- `ds` is still to be written, in this order, behind `done`.
reverse_loop_lem :
    (ds tail done dst : List ℕ)
    → length ds ≤ length dst
    → reverse_loop
        (done ++ dst)
        (reverse ds ++ tail)
        (length done + length ds)
        (length done)
        (length ds)
      ≡ some (done ++ (ds ++ drop (length ds) dst))
reverse_loop_lem [] tail done dst hd = unfold reverse_loop in refl
reverse_loop_lem (d ∷ ds) tail done [] hd = absurd (omega arith)
reverse_loop_lem (d ∷ ds) tail done (x ∷ dst) hd =
    let at : length done + suc (length ds) - 1 - length done ≡ length (reverse ds) =
      omega (arith, length-reverse ds) in
    let len : length done + suc (length ds) ≡ length (done ++ d ∷ []) + length ds =
      omega (arith, length-append done (d ∷ [])) in
    let next : length done + 1 ≡ length (done ++ d ∷ []) =
      omega (arith, length-append done (d ∷ [])) in
    let step =
      reverse_step (done ++ x ∷ dst) (reverse (d ∷ ds) ++ tail) (done ++ d ∷ dst)
        (length done + suc (length ds)) (length done) (length ds) d
        (rw (reverse_cons_append d ds tail, at) (get_elem?-middle (reverse ds) tail d))
        (store_middle done dst x d) in
    let shift : done ++ d ∷ dst ≡ (done ++ d ∷ []) ++ dst = sym (append_assoc done (d ∷ []) dst) in
    step
    ∙ rw (shift, reverse_cons_append d ds tail, len, next)
        (reverse_loop_lem ds (d ∷ tail) (done ++ d ∷ []) dst (omega arith)
          ∙ ap some (append_assoc done (d ∷ []) _))

drop_cell : (n : ℕ) (xs : List ℕ) → n < length xs → (x : ℕ) × (drop n xs ≡ x ∷ drop (suc n) xs)
drop_cell n [] h = absurd (omega arith)
drop_cell zero (x ∷ xs) h = (x, refl)
drop_cell (suc n) (x ∷ xs) h = drop_cell n xs (omega arith)

-- reverse_strcpy writes the reversed text and its NUL, and no byte behind it, into any buffer that can hold them.
pub reverse_strcpy_lem :
    (src dst : List ℕ)
    → length src < length dst
    → reverse_strcpy dst src ≡ some (reverse src ++ 0 ∷ drop (length src + 1) dst)
unfolding reverse_strcpy
reverse_strcpy_lem src dst fits =
    let n : length (reverse src) ≡ length src = length-reverse src in
    let zero_len : 0 + length src ≡ length src = omega arith in
    let next : length src + 1 ≡ suc (length src) = omega arith in
    let (x, cell) = drop_cell (length src) dst fits in
    let run : reverse_loop dst src (length src) 0 (length src)
        ≡ some (reverse src ++ x ∷ drop (suc (length src)) dst) =
      rw (n, zero_len, reverse-reverse, append-nil, cell) at
        (reverse_loop_lem (reverse src) [] [] dst (omega arith)) in
    let end : store (reverse src ++ x ∷ drop (suc (length src)) dst) (length src) 0
        ≡ some (reverse src ++ 0 ∷ drop (suc (length src)) dst) =
      rw n at (store_middle (reverse src) (drop (suc (length src)) dst) x 0) in
    rw next (ground (arith, run, end))

escape_count : ℕ → List ℕ → ℕ
escape_count tar [] = 0
escape_count tar (c ∷ src) = (if c == tar then 1 else 0) + escape_count tar src

length-escape_loop :
    (tar : ℕ) (src : List ℕ) → length (escape_loop tar src) ≡ length src + escape_count tar src
unfolding escape_loop escape_count
length-escape_loop tar [] = omega arith
length-escape_loop tar (c ∷ src) = ground (arith, length-escape_loop tar src)

pub length-le-escape_loop : (tar : ℕ) (src : List ℕ) → length src ≤ length (escape_loop tar src)
length-le-escape_loop tar src = omega (arith, length-escape_loop tar src)

escape_count-le : (tar : ℕ) (src : List ℕ) → escape_count tar src ≤ length src
unfolding escape_count
escape_count-le tar [] = omega arith
escape_count-le tar (c ∷ src) = ground (arith, escape_count-le tar src)

escape_count-replicate : (n tar : ℕ) → escape_count tar (replicate n tar) ≡ n
unfolding escape_count
escape_count-replicate zero tar = refl
escape_count-replicate (suc n) tar = ground (arith, escape_count-replicate n tar)

-- The check of escape_char counts the characters read: a text that passes it may need twice as many
-- bytes as the bound, as some text does for every bound, and no text needs more.
pub escape_char_room :
    (max_len tar : ℕ) (src : List ℕ)
    → (length (escape_char max_len tar src).1 ≤ 2 * max_len)
      × ((worst : List ℕ) × ((escape_char max_len tar worst).0 ≡ success)
          × (length (escape_char max_len tar worst).1 ≡ 2 * max_len))
unfolding escape_char
escape_char_room m tar src =
    let fine : ltb m m ≡ false = ground arith in
    let n = length-replicate m tar in
    (
      ground (arith, length-escape_loop tar src, escape_count-le tar src),
      (
        replicate m tar,
        rw (n, fine) refl,
        rw (n, fine)
            (omega
              (arith, length-escape_loop tar (replicate m tar), escape_count-replicate m tar, n)),
      ),
    )
