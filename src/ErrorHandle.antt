-- ===== src/ErrorHandle.antt =====
-- The error handle of ffp_error.c: error_mark_owner, error_mark_starter and error_write. The texts
-- are given as the bytes before their NUL; `none` stands for a write outside of a field.
pub mod Laws
use ffprinter.Prelude.{
  ℕ, zero, suc, ◌+◌, Bool, true, false, Option, none, some, List, [], ◌∷◌, ltb, if◌then◌else◌,
  success,
}
use mathlib.Core.Option
use ffprinter.Text.Str.{store}

-- EXCEPTION_IDENTITY_MAX_LEN and EXCEPTION_MSG_MAX_LEN.
abbrev pub identity_max_len : ℕ
identity_max_len = 50

abbrev pub msg_max_len : ℕ
msg_max_len = 100

pub record Handle : Type 0 where
  pub active : Bool
  pub owner_name : List ℕ
  pub starter_name : List ℕ
  pub msg : List ℕ

-- The loop that the three functions have, and the NUL behind it.
unfoldable pub copy_text : ℕ → List ℕ → ℕ → List ℕ → Option (List ℕ)
unfolding store
copy_text max dst i [] = store dst i 0
copy_text max dst i (c ∷ src) = elim (ltb i max) [
  | false ↦ store dst i 0
  | true ↦ elim (store dst i c) [ none ↦ none | some dst' ↦ copy_text max dst' (i + 1) src ]
]

unfoldable pub error_mark_owner : Handle → List ℕ → Option (ℕ × Handle)
error_mark_owner h owner_name =
    Option.map (λ s. (success, record h { owner_name = s }))
      (copy_text identity_max_len h.owner_name 0 owner_name)

unfoldable pub error_mark_starter : Handle → List ℕ → Option (ℕ × Handle)
error_mark_starter h starter_name =
    Option.map (λ s. (success, record h { starter_name = s }))
      (copy_text identity_max_len h.starter_name 0 starter_name)

unfoldable pub error_write : Handle → List ℕ → Option (ℕ × Handle)
error_write h msg =
    Option.map (λ s. (success, record h { msg = s; active = true }))
      (copy_text msg_max_len h.msg 0 msg)
