-- ===== src/Text/Grab/Laws.antt =====
-- What grab_until_sep of ffprinter.c reads and writes.
use ffprinter.Prelude.{
  ℕ, ◌+◌, ◌≤◌, ◌<◌, ◌≡◌, ◌≢◌, inl, inr, Bool-cases, ◌^◌, refl, ap, Bool, true, false, some, List,
  [], ◌∷◌, ◌++◌, arith, leb, ◌==◌, length, All, success, length-append,
}
use ffprinter.Text.Str.{escape_loop, escape_char}
use ffprinter.Text.Str.Laws.{IsText, verify_str_terminated_lem, length-le-escape_loop, c_str_lem}
use ffprinter.Text.Grab.{
  single_quote, double_quote, backslash, Quotes, outside, in_single, in_double, copy, action, Field,
  emit, no_field, grab_loop, grabbed, grab_until_sep,
}

-- The field fits the text, and at most one position behind it is read over.
abbrev pub Fits : List ℕ → Field → Type 0
Fits src f =
    (length f.text ≤ length src) × (f.len_read ≤ length src + 1) × (length f.text ≤ f.len_read)

pub grab_loop-Fits :
    (i : Bool) (sep : ℕ) (q : Quotes) (src : List ℕ) → Fits src (grab_loop i sep q src)
unfolding grab_loop
grab_loop-Fits i sep q [] = omega arith
grab_loop-Fits i sep q (c ∷ []) = ground arith
grab_loop-Fits i sep q (c ∷ d ∷ src) = ground (
  arith,
  grab_loop-Fits i sep q (d ∷ src),
  grab_loop-Fits i sep outside (d ∷ src),
  grab_loop-Fits i sep in_single (d ∷ src),
  grab_loop-Fits i sep in_double (d ∷ src),
  grab_loop-Fits i sep q src,
)

-- No quote and no escape character.
pub record IsPlain (c : ℕ) : Type 0 where
  pub ne_single : c ≢ single_quote
  pub ne_double : c ≢ double_quote
  pub ne_backslash : c ≢ backslash

module _ (i : Bool) (sep c : ℕ) where
  pub grab_copy :
      (q : Quotes) (src : List ℕ)
      → action i sep q c ≡ copy
      → grab_loop i sep q (c ∷ src) ≡ emit 1 c (grab_loop i sep q src)
  unfolding grab_loop
  grab_copy q [] e = rw (e, grab_loop)
  grab_copy q (d ∷ src) e = rw (e, grab_loop)

pub grab_stop :
    (i : Bool) (sep : ℕ) (src : List ℕ)
    → IsPlain sep
    → grab_loop i sep outside (sep ∷ src) ≡ no_field
unfolding grab_loop
grab_stop i sep [] p = ground arith
grab_stop i sep (c ∷ src) p = ground arith

action_plain : (i : Bool) (sep c : ℕ) → IsPlain c → c ≢ sep → action i sep outside c ≡ copy
unfolding action
action_plain i sep c p ne = ground arith

abbrev pub field : List ℕ → ℕ → Field
field s n = record { text = s; len_read = n }

grab_escaped :
    (sep d : ℕ) (src : List ℕ)
    → grab_loop false sep outside (backslash ∷ d ∷ src) ≡ emit 2 d (grab_loop false sep outside src)
unfolding grab_loop
grab_escaped sep d src = refl

pub grab_escape :
    (sep : ℕ) (s tail : List ℕ)
    → IsPlain sep
    → All IsPlain s
    → grab_loop false sep outside tail ≡ no_field
    → grab_loop false sep outside (escape_loop sep s ++ tail)
      ≡ record { text = s; len_read = length (escape_loop sep s) }
unfolding escape_loop
grab_escape sep [] tail psep ps end = end
grab_escape sep (c ∷ s) tail psep ps end =
    let ih = grab_escape sep s tail psep ps.1 end in
    elim (Bool-cases (c == sep)) [
      | inl e ↦ rw (e, grab_escaped, ih) (ap (field (c ∷ s)) (omega arith))
      | inr ne ↦
          rw
            (
              ne,
              grab_copy false sep c outside (escape_loop sep s ++ tail)
                  (action_plain false sep c ps.0 (ground arith)),
              ih,
            )
            (ap (field (c ∷ s)) (omega arith))
    ]

escape_loop-IsText : (sep : ℕ) (s : List ℕ) → IsText s → IsText (escape_loop sep s)
unfolding escape_loop
escape_loop-IsText sep [] h = tt
escape_loop-IsText sep (c ∷ s) h =
    let ih = escape_loop-IsText sep s h.1 in
    elim (Bool-cases (c == sep)) [
      | inl e ↦ rw e (omega arith, (h.0, ih))
      | inr ne ↦ rw ne (h.0, ih)
    ]

IsText-append : (s t : List ℕ) → IsText s → IsText t → IsText (s ++ t)
IsText-append [] t hs ht = ht
IsText-append (c ∷ s) t hs ht = (hs.0, IsText-append s t hs.1 ht)

-- The check passes on a text within the bound, and the loop runs over the text.
pub grab_until_sep-grab_loop :
    (s rest : List ℕ) (max_len : ℕ) (i : Bool) (sep : ℕ)
    → IsText s
    → length s ≤ max_len
    → 0 < max_len
    → max_len + 1 < 2 ^ 64
    → grab_until_sep (s ++ 0 ∷ rest) max_len i sep ≡ some (grabbed (grab_loop i sep outside s))
unfolding grab_until_sep
grab_until_sep-grab_loop s rest m i sep h fits pos small =
    let ok : leb (length s) m ≡ true = ground arith in
    rw (verify_str_terminated_lem s rest m 0 h pos small, grab_until_sep)
      (rw (ok, c_str_lem s rest h))

-- A text with no quotes and no escapes, escaped by escape_char for a plain separator, is what
-- grab_until_sep reads back from a field: it stops at the separator behind the field, and passes
-- over exactly the characters that escape_char wrote.
pub grab_until_sep-escape_char :
    (s more rest : List ℕ) (sep max_len : ℕ)
    → All IsPlain s
    → IsText s
    → IsPlain sep
    → IsText (sep ∷ more)
    → length (escape_loop sep s ++ sep ∷ more) ≤ max_len
    → max_len + 1 < 2 ^ 64
    → grab_until_sep ((escape_char max_len sep s).1 ++ (sep ∷ more) ++ 0 ∷ rest) max_len false sep
      ≡ some (grabbed (record { text = s; len_read = length (escape_char max_len sep s).1 }))
grab_until_sep-escape_char s more rest sep m ps ts psep tm fits small =
    let e = escape_loop sep s in
    let room : leb (length s) m ≡ true =
      ground (arith, length-le-escape_loop sep s, length-append e (sep ∷ more)) in
    let wrote : escape_char m sep s ≡ (success, e) = unfold escape_char in ground arith in
    rw
      (
        wrote,
        grab_until_sep-grab_loop (e ++ sep ∷ more) rest m false sep
            (IsText-append e (sep ∷ more) (escape_loop-IsText sep s ts) tm) fits
            (omega (arith, length-append e (sep ∷ more))) small,
      )
      (ap (λ f. some (grabbed f))
        (grab_escape sep s (sep ∷ more) psep ps (grab_stop false sep more psep)))
