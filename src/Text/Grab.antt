-- ===== src/Text/Grab.antt =====
-- grab_until_sep and tag_count of ffprinter.c: the next field of a text, with quotes and escapes.
pub mod Laws
pub mod Tags
use ffprinter.Prelude.{
  ℕ, zero, suc, ◌+◌, ◌-◌, Bool, true, false, not, ◌&&◌, ◌||◌, Option, none, some, List, [], ◌∷◌,
  ltb, leb, ◌==◌, if◌then◌else◌, length, drop, success,
}
use mathlib.Core.Option
use ffprinter.Text.Str.{c_str, verify_str_terminated}

abbrev pub single_quote : ℕ
single_quote = 0x27

abbrev pub double_quote : ℕ
double_quote = 0x22

abbrev pub backslash : ℕ
backslash = 0x5c

-- The flags in_single_quotes and in_double_quotes, of which at most one is set.
pub data Quotes : Type 0 where
  outside in_single in_double : Quotes

-- What one character does: it is copied, it changes the flags, it escapes the next one, it ends the field.
pub data Action : Type 0 where
  copy : Action
  turn : Quotes → Action
  escape : Action
  stop : Action

-- The tests of the loop body.
unfoldable pub action : Bool → ℕ → Quotes → ℕ → Action
action ignore_escp sep in_single c = if c == single_quote then turn outside else copy
action ignore_escp sep in_double c =
    if (c == backslash) && not ignore_escp
    then escape
    else if c == double_quote
    then turn outside
    else copy
action ignore_escp sep outside c =
    if (c == backslash) && not ignore_escp
    then escape
    else if c == single_quote
    then turn in_single
    else if c == double_quote
    then turn in_double
    else if c == sep
    then stop
    else copy

-- The bytes written before the NUL, and `*len_read`.
pub record Field : Type 0 where
  pub text : List ℕ
  pub len_read : ℕ

abbrev pub consume : ℕ → Field → Field
consume n f = record { text = f.text; len_read = n + f.len_read }

abbrev pub emit : ℕ → ℕ → Field → Field
emit n c f = record { text = c ∷ f.text; len_read = n + f.len_read }

abbrev pub no_field : Field
no_field = record { text = []; len_read = 0 }

-- The loop, on the characters left before the NUL. An escape at the last one copies the NUL, and
-- leaves `i` one past it.
unfoldable pub grab_loop : Bool → ℕ → Quotes → List ℕ → Field
unfolding action
grab_loop ignore_escp sep q [] = no_field
grab_loop ignore_escp sep q (c ∷ []) = elim (action ignore_escp sep q c) [
  | copy ↦ emit 1 c no_field
  | turn q' ↦ consume 1 no_field
  | escape ↦ emit 2 0 no_field
  | stop ↦ no_field
]
grab_loop ignore_escp sep q (c ∷ d ∷ src) = elim (action ignore_escp sep q c) [
  | copy ↦ emit 1 c (grab_loop ignore_escp sep q (d ∷ src))
  | turn q' ↦ consume 1 (grab_loop ignore_escp sep q' (d ∷ src))
  | escape ↦ emit 2 d (grab_loop ignore_escp sep q src)
  | stop ↦ no_field
]

-- The code of the check on `src`, or the field; a checked bound is at least the length of the text,
-- which then replaces it.
pub data Grabbed : Type 0 where
  refused : ℕ → Grabbed
  grabbed : Field → Grabbed

unfoldable pub grab_until_sep : List ℕ → ℕ → Bool → ℕ → Option Grabbed
unfolding grab_loop
grab_until_sep mem max_len ignore_escp sep = elim (verify_str_terminated (some mem) max_len 0) [
  | none ↦ none
  | some (code, len) ↦ some (
      if code == success
      then grabbed (grab_loop ignore_escp sep outside (c_str mem))
      else refused code)
]

-- The counters of tag_count behind its loop, and the place of `i`.
pub record Counts : Type 0 where
  pub tag_num : ℕ
  pub max_len : ℕ

-- The loop of tag_count over `tag_str + i`. It runs on fuel: each round moves `i` by one at least.
-- `tag` has TAG_STR_MAX + 1 = 1642 bytes: `none` stands also for a field that does not fit in them,
-- as grab_until_sep gets the rest of the text as its bound.
unfoldable pub tag_loop : ℕ → List ℕ → Counts → Option Counts
unfolding grab_loop
tag_loop zero src counts = none
tag_loop (suc fuel) [] counts = some counts
tag_loop (suc fuel) (c ∷ src) counts =
    let field = grab_loop false b'|' outside (c ∷ src) in
    let copied = length field.text in
    let rest = tag_loop fuel (drop (field.len_read + 1) (c ∷ src)) (record {
      tag_num = counts.tag_num + 1;
      max_len = if ltb counts.max_len copied then copied else counts.max_len;
    }) in
    if leb copied 1641 then rest else none

-- `*ret_tag_min_len` is never written.
unfoldable pub tag_count : List ℕ → Option Counts
unfolding tag_loop
tag_count tag_str = tag_loop (length tag_str + 1) tag_str (record { tag_num = 0; max_len = 0 })
