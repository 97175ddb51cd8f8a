-- ===== src/FileFormat/Cells.antt =====
-- The three cells of checksums in a file or a section of ffp_file.c.
use ffprinter.Prelude.{
  ℕ, suc, ◌+◌, ◌≤◌, ◌≡◌, ◌⊎◌, inl, inr, refl, ap, ◌∙◌, Bool, true, false, List, [], ◌∷◌, ◌++◌,
  arith, ◌==◌, if◌then◌else◌, length, set, Bool-cases,
}
use ffprinter.FileFormat.Records.{ChecksumResult}
use ffprinter.FileFormat.Save.{checksum_unused, count_used}
use ffprinter.FileFormat.Load.{empty_checksum, cell, set_type, set_bytes}

-- The cell of the index `i` with the checksum of its type.
pub record Used (i : ℕ) (c : ChecksumResult) : Type 0 where
  pub type : c.type ≡ i + 1
  pub short : c.len ≤ 64
  pub sized : length c.checksum ≡ c.len

-- The cells from the index `i` on; one that is not in use is zero.
abbrev pub IsCells : ℕ → List ChecksumResult → Type 0
IsCells i [] = Unit
IsCells i (c ∷ cs) = ((c ≡ empty_checksum) ⊎ Used i c) × IsCells (i + 1) cs

-- No cell behind one that is not in use is in use.
abbrev pub Leading : List ChecksumResult → Type 0
Leading [] = Unit
Leading (c ∷ cs) = (c.type ≡ checksum_unused → count_used cs ≡ 0) × Leading cs

-- The bytes of each cell in use go to it, for the round `j` at the index `i`.
abbrev pub InPlace : Bool → ℕ → ℕ → List ChecksumResult → Type 0
InPlace b j i [] = Unit
InPlace b j i (c ∷ cs) =
    if c.type == checksum_unused
    then InPlace b j (i + 1) cs
    else ((if b then j else i) ≡ i) × InPlace b (j + 1) (i + 1) cs

pub file_InPlace : (j i : ℕ) (cs : List ChecksumResult) → InPlace false j i cs
file_InPlace j i [] = tt
file_InPlace j i (c ∷ cs) = elim (Bool-cases (c.type == checksum_unused)) [
  | inl free ↦ rw free (file_InPlace j (i + 1) cs)
  | inr taken ↦ rw taken (refl, file_InPlace (j + 1) (i + 1) cs)
]

unused_InPlace :
    (b : Bool) (j i : ℕ) (cs : List ChecksumResult) → count_used cs ≡ 0 → InPlace b j i cs
unused_InPlace b j i [] h = tt
unused_InPlace b j i (c ∷ cs) h = elim (Bool-cases (c.type == checksum_unused)) [
  | inl free ↦ rw free (unused_InPlace b j (i + 1) cs (rw free at h))
  | inr taken ↦ absurd (let z : suc (count_used cs) ≡ 0 = rw taken at h in omega arith)
]

pub section_InPlace : (i : ℕ) (cs : List ChecksumResult) → Leading cs → InPlace true i i cs
section_InPlace i [] h = tt
section_InPlace i (c ∷ cs) h = elim (Bool-cases (c.type == checksum_unused)) [
  | inl free ↦ rw free (unused_InPlace true i (i + 1) cs (h.0 (ground arith)))
  | inr taken ↦ rw taken (refl, section_InPlace (i + 1) cs h.1)
]

pub count_used-le : (cs : List ChecksumResult) → count_used cs ≤ length cs
count_used-le [] = omega arith
count_used-le (c ∷ cs) = let ih = count_used-le cs in ground arith

set-at :
    (ds rest : List ChecksumResult) (e c : ChecksumResult)
    → set (ds ++ e ∷ rest) (length ds) c ≡ ds ++ c ∷ rest
set-at [] rest e c = refl
set-at (d ∷ ds) rest e c = ap (λ zs. d ∷ zs) (set-at ds rest e c)

cell-at :
    (ds rest : List ChecksumResult) (e : ChecksumResult) → cell (ds ++ e ∷ rest) (length ds) ≡ e
cell-at [] rest e = refl
cell-at (d ∷ ds) rest e = cell-at ds rest e

-- The writes of one round.
pub filled_cell :
    (ds rest : List ChecksumResult) (e c : ChecksumResult)
    → set_bytes (set_type (ds ++ e ∷ rest) (length ds) c.type c.len) (length ds) c.checksum
      ≡ ds ++ c ∷ rest
filled_cell ds rest e c =
    let typed : ChecksumResult = record e { type = c.type; len = c.len } in
    let first : set_type (ds ++ e ∷ rest) (length ds) c.type c.len ≡ ds ++ typed ∷ rest =
      ap (λ z. set (ds ++ e ∷ rest) (length ds) (record z { type = c.type; len = c.len }))
        (cell-at ds rest e)
      ∙ set-at ds rest e typed in
    ap (λ zs. set_bytes zs (length ds) c.checksum) first
    ∙ ap (λ z. set (ds ++ typed ∷ rest) (length ds) (record z { checksum = c.checksum }))
        (cell-at ds rest typed)
    ∙ set-at ds rest typed c
