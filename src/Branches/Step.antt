-- ===== src/Branches/Step.antt =====
-- A list that grows at its end by link_entry_after, as link_branch of ffp_database.c builds it.
use ffprinter.Prelude.{ℕ, ◌≡◌, ◌≢◌, refl, sym, ap, false, List, [], ◌∷◌, ◌++◌, arith, ◌==◌}
use mathlib.Core.List.{append_assoc}
use mathlib.Core.Path.{subst}
use ffprinter.Links.{null, Links, NotIn, IsChain}
use ffprinter.Links.Laws.{Linked-append}
use ffprinter.EntryList.{link_entry_after, link_entry_clear}
use ffprinter.EntryList.Insert.{link_entry_after-IsChain}

-- The list `ws`, of which `t` is the last entry.
pub record EndsAt (l : Links) (t : ℕ) (ws : List ℕ) : Type 0 where
  pub front : List ℕ
  pub shape : ws ≡ front ++ t ∷ []
  pub chain : IsChain l ws

-- The entries `ps` are not null, not in `ws`, and none occurs twice.
abbrev pub Fresh : List ℕ → List ℕ → Type 0
Fresh ws [] = Unit
Fresh ws (p ∷ ps) = (p ≢ null) × NotIn p ws × Fresh (ws ++ p ∷ []) ps

pub append_nil : (xs : List ℕ) → xs ++ [] ≡ xs
append_nil [] = refl
append_nil (x ∷ xs) = ap (λ zs. x ∷ zs) (append_nil xs)

pub Fresh-append : (ws ps qs : List ℕ) → Fresh ws (ps ++ qs) → Fresh ws ps × Fresh (ws ++ ps) qs
Fresh-append ws [] qs h = (tt, rw append_nil h)
Fresh-append ws (p ∷ ps) qs (nz, out, h) =
    let (a, b) = Fresh-append (ws ++ p ∷ []) ps qs h in ((nz, out, a), rw append_assoc at b)

pub link_entry_after-EndsAt :
    (l : Links) (ws : List ℕ) (t e : ℕ)
    → EndsAt l t ws
    → e ≢ null
    → NotIn e ws
    → EndsAt (link_entry_after l t e).1 e (ws ++ e ∷ [])
link_entry_after-EndsAt l ws t e h nz out = record {
  front = ws;
  shape = refl;
  chain =
      let old : IsChain l (h.front ++ t ∷ []) = subst (λ zs. IsChain l zs) h.shape h.chain in
      let fresh : NotIn e (h.front ++ t ∷ []) = subst (λ zs. NotIn e zs) h.shape out in
      let grown = (link_entry_after-IsChain l h.front [] t e old nz fresh).1 in
      subst (λ zs. IsChain (link_entry_after l t e).1 (zs ++ e ∷ [])) (sym h.shape)
        (rw append_assoc grown);
}

pub EndsAt-ne : (l : Links) (t : ℕ) (ws : List ℕ) → EndsAt l t ws → t ≢ null
EndsAt-ne l t ws h =
    let old : IsChain l (h.front ++ t ∷ []) = subst (λ zs. IsChain l zs) h.shape h.chain in
    ((Linked-append l h.front (t ∷ []) null null).0 old.linked).1.0

pub link_entry_clear-EndsAt :
    (l : Links) (e : ℕ) → e ≢ null → EndsAt (link_entry_clear l e).1 e (e ∷ [])
unfolding link_entry_clear
link_entry_clear-EndsAt l e nz =
    let n : (e == null) ≡ false = ground arith in
    rw n (record {
      front = [];
      shape = refl;
      chain = record { linked = (nz, ground arith, ground arith, tt); distinct = (tt, tt) };
    })
