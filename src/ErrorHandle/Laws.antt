-- ===== src/ErrorHandle/Laws.antt =====
-- Texts in the error handle of ffp_error.c are cut at the length of their fields.
use ffprinter.Prelude.{
  ℕ, zero, suc, ◌+◌, ◌-◌, ◌≤◌, ◌<◌, ◌≡◌, ap, sym, ◌∙◌, true, false, some, List, [], ◌∷◌, ◌++◌,
  arith, ltb, length, take, drop, set, length-set, take-set_self, drop-set_self, take-append_drop,
  take-nil, take-set_ge, Bool-cases, inl, inr, success,
}
use mathlib.Core.List.{append_assoc}
use ffprinter.Text.Str.{c_str, store}
use ffprinter.Text.Str.Laws.{IsText, c_str_lem}
use ffprinter.ErrorHandle.{
  Handle, identity_max_len, msg_max_len, copy_text, error_mark_owner, error_mark_starter,
  error_write,
}

store_lem : (dst : List ℕ) (i c : ℕ) → i < length dst → store dst i c ≡ some (set dst i c)
unfolding store
store_lem dst i c h = let e : ltb i (length dst) ≡ true = ground arith in rw e

-- The cells around a NUL.
cut :
    (dst : List ℕ) (i : ℕ) (none_left : List ℕ) (n : ℕ)
    → i < length dst
    → take i (set dst i 0) ++ drop i (set dst i 0)
      ≡ take i dst ++ (take n (let e : List ℕ = [] in e) ++ 0 ∷ drop (suc i) dst)
cut dst i l n h = rw (take-set_ge i i dst 0 (omega arith), drop-set_self i dst 0 h, take-nil n)

copy_text_step :
    (max : ℕ) (dst : List ℕ) (i c : ℕ) (src : List ℕ)
    → ltb i max ≡ true
    → i < length dst
    → copy_text max dst i (c ∷ src) ≡ copy_text max (set dst i c) (suc i) src
unfolding copy_text
copy_text_step max dst i c src e h =
    let m : i + 1 ≡ suc i = omega arith in rw (e, copy_text) (rw (store_lem dst i c h, m))

copy_text_full :
    (max : ℕ) (dst : List ℕ) (i c : ℕ) (src : List ℕ)
    → ltb i max ≡ false
    → copy_text max dst i (c ∷ src) ≡ store dst i 0
unfolding copy_text
copy_text_full max dst i c src e = rw (e, copy_text)

copy_text_lem :
    (max : ℕ) (dst : List ℕ) (i : ℕ) (src : List ℕ)
    → length dst ≡ max + 1
    → i ≤ max
    → (rest : List ℕ) × (copy_text max dst i src
        ≡ some (take i dst ++ (take (max - i) src ++ 0 ∷ rest)))
unfolding copy_text
copy_text_lem max dst i [] l h = (
  drop (suc i) dst,
  store_lem dst i 0 (omega arith)
      ∙ ap some (sym (take-append_drop i (set dst i 0)) ∙ cut dst i [] (max - i) (omega arith)),
)
copy_text_lem max dst i (c ∷ src) l h = elim (Bool-cases (ltb i max)) [
  | inr e ↦
      let z : max - i ≡ 0 = ground arith in
      (
        drop (suc i) dst,
        rw z (
            copy_text_full max dst i c src e
            ∙ store_lem dst i 0 (omega arith)
            ∙ ap some (sym (take-append_drop i (set dst i 0)) ∙ cut dst i [] 0 (omega arith))),
      )
  | inl e ↦
      let k : suc i ≤ max = ground arith in
      let n : max - i ≡ suc (max - suc i) = omega arith in
      let (rest, runs) = copy_text_lem max (set dst i c) (suc i) src (length-set dst i c ∙ l) k in
      (
        rest,
        rw n (
            copy_text_step max dst i c src e (omega arith)
            ∙ runs
            ∙ ap some (
                ap (λ z. z ++ (take (max - suc i) src ++ 0 ∷ rest))
                  (take-set_self i dst c (omega arith))
                ∙ append_assoc (take i dst) (c ∷ []) (take (max - suc i) src ++ 0 ∷ rest))),
      )
]

IsText-take : (n : ℕ) (s : List ℕ) → IsText s → IsText (take n s)
IsText-take zero s h = tt
IsText-take (suc n) [] h = tt
IsText-take (suc n) (c ∷ s) h = (h.0, IsText-take n s h.1)

-- A field of `max` characters and a NUL gets the first `max` characters of the text.
copy_text-c_str :
    (max : ℕ) (dst src : List ℕ)
    → length dst ≡ max + 1
    → IsText src
    → (dst' : List ℕ) × (copy_text max dst 0 src ≡ some dst') × (c_str dst' ≡ take max src)
copy_text-c_str max dst src l t =
    let (rest, runs) = copy_text_lem max dst 0 src l (omega arith) in
    let e : max - 0 ≡ max = omega arith in
    (
      take (max - 0) src ++ 0 ∷ rest,
      runs,
      rw e (c_str_lem (take max src) rest (IsText-take max src t)),
    )

-- The three functions stay within the fields of the handle, and keep the first 50 or 100 characters
-- of a text; error_write marks the handle as active, and what the functions are not about stays.
pub error_handle_lem :
    (h : Handle) (text : List ℕ)
    → length h.owner_name ≡ identity_max_len + 1
    → length h.starter_name ≡ identity_max_len + 1
    → length h.msg ≡ msg_max_len + 1
    → IsText text
    → ((s : List ℕ) × (error_mark_owner h text ≡ some (success, record h { owner_name = s }))
        × (c_str s ≡ take identity_max_len text))
      × ((s : List ℕ) × (error_mark_starter h text ≡ some (success, record h { starter_name = s }))
          × (c_str s ≡ take identity_max_len text))
      × ((s : List ℕ) × (error_write h text ≡ some (success, record h { msg = s; active = true }))
          × (c_str s ≡ take msg_max_len text))
unfolding error_mark_owner error_mark_starter error_write
error_handle_lem h text a b c t =
    let (s, p, q) = copy_text-c_str identity_max_len h.owner_name text a t in
    let (s', p', q') = copy_text-c_str identity_max_len h.starter_name text b t in
    let (s'', p'', q'') = copy_text-c_str msg_max_len h.msg text c t in
    ((s, rw p, q), (s', rw p', q'), (s'', rw p'', q''))
