-- ===== src/VerifyEntry/Sections.antt =====
-- The sections of an entry that verify_entry of ffp_database.c accepts.
use ffprinter.Prelude.{
  ℕ, ◌+◌, ◌-◌, ◌%◌, ◌^◌, ◌≤◌, ◌<◌, ◌≡◌, refl, ap, Bool, true, false, ◌&&◌, Option, none, some, List,
  [], ◌∷◌, arith, ltb, ◌==◌, length, All, success, verify_fail, inl, inr, Bool-cases,
}
use ffprinter.FileFormat.Records.{ExtractSample, Section, FileData, Entry}
use ffprinter.VerifyEntry.{
  Linked, test, all_of, verify_each, section_extract, verify_sections, verify_file_data,
  verify_data, verify_entry,
}

-- A sample within its section.
pub record IsInside (s : Section) (x : ExtractSample) : Type 0 where
  pub behind_start : s.start_pos ≤ x.position
  pub filled : 0 < length x.extract
  pub before_end : x.position + length x.extract ≤ s.end_pos + 1

-- Sections from the position `from` on, in their order and apart from each other, within the file.
abbrev pub Spread : ℕ → ℕ → List Section → Type 0
Spread from size [] = Unit
Spread from size (s ∷ ss) =
    (from ≤ s.start_pos)
    × (s.start_pos < s.end_pos)
    × (s.end_pos < size)
    × All (IsInside s) s.extract
    × Spread (s.end_pos + 1) size ss

-- All the tests succeed.
pub all_of-each :
    (t : Option ℕ) (ts : List (Option ℕ))
    → all_of (t ∷ ts) ≡ some success
    → (t ≡ some success) × (all_of ts ≡ some success)
unfolding all_of
all_of-each none ts e = absurd (cc)
all_of-each (some code) ts e = elim (Bool-cases (code == success)) [
  | inl ok ↦ (let z : code ≡ success = ground arith in ap some z, rw ok at e)
  | inr bad ↦ absurd (
      let f : some code ≡ some success = rw bad at e in let z : code ≡ success = cc in ground arith)
]

pub test-holds : (b : Bool) → test b verify_fail ≡ some success → b ≡ true
test-holds true e = refl
test-holds false e = absurd (let z : verify_fail ≡ success = cc in omega arith)

section_extract-IsInside :
    (size : ℕ) (s : Section) (x : ExtractSample)
    → size < 2 ^ 63
    → s.end_pos < size
    → section_extract size s x ≡ some success
    → IsInside s x
section_extract-IsInside size s x small inside e =
    let (a, e₁) = all_of-each _ _ e in
    let (b, e₂) = all_of-each _ _ e₁ in
    let (_, e₃) = all_of-each _ _ e₂ in
    let (c, e₄) = all_of-each _ _ e₃ in
    let (d, e₅) = all_of-each _ _ e₄ in
    let (f, _) = all_of-each _ _ e₅ in
    let short = test-holds _ a in
    let some_byte = test-holds _ b in
    let start = test-holds _ c in
    let end = test-holds _ d in
    let last = test-holds _ f in
    let len : length x.extract ≤ 4 = ground arith in
    let pos : 0 < length x.extract = ground arith in
    let below : x.position ≤ s.end_pos = ground arith in
    let w : (x.position + length x.extract + 2 ^ 64 - 1) % 2 ^ 64
        ≡ x.position + length x.extract - 1 =
      omega arith in
    let near : (x.position + length x.extract + 2 ^ 64 - 1) % 2 ^ 64 ≤ s.end_pos = ground arith in
    record { behind_start = ground arith; filled = pos; before_end = omega arith }

each-IsInside :
    (size : ℕ) (s : Section) (xs : List ExtractSample)
    → size < 2 ^ 63
    → s.end_pos < size
    → all_of (verify_each (section_extract size s) xs) ≡ some success
    → All (IsInside s) xs
each-IsInside size s [] small inside e = tt
each-IsInside size s (x ∷ xs) small inside e =
    let (a, rest) = all_of-each _ _ e in
    (section_extract-IsInside size s x small inside a, each-IsInside size s xs small inside rest)

IsSpread_sections :
    (d : FileData) (before : Option Section) (ss : List Section)
    → d.file_size < 2 ^ 63
    → 0 < d.norm_sect_size
    → verify_sections d before ss ≡ some success
    → Spread (elim before [ none ↦ 0 | some p ↦ p.end_pos + 1 ]) d.file_size ss
unfolding verify_sections
IsSpread_sections d before [] small norm e = tt
IsSpread_sections d before (s ∷ ss) small norm e =
    let (a, e₁) = all_of-each _ _ e in
    let (_, e₂) = all_of-each _ _ e₁ in
    let (b, e₃) = all_of-each _ _ e₂ in
    let (c, e₄) = all_of-each _ _ e₃ in
    let (_, e₅) = all_of-each _ _ e₄ in
    let (_, e₆) = all_of-each _ _ e₅ in
    let (f, e₇) = all_of-each _ _ e₆ in
    let (g, _) = all_of-each _ _ e₇ in
    let long = test-holds _ a in
    let short = test-holds _ b in
    let inside : s.end_pos < d.file_size = ground arith in
    let continuous : ltb 0 d.norm_sect_size ≡ true = ground arith in
    (
      behind_previous before (rw continuous at c),
      ground arith,
      inside,
      each-IsInside d.file_size s s.extract small inside f,
      IsSpread_sections d (some s) ss small norm g,
    )
  where
    behind_previous :
        (before : Option Section)
        → elim before [
          | none ↦ some success
          | some p ↦ test (ltb p.end_pos s.start_pos) verify_fail
        ]
          ≡ some success
        → elim before [ none ↦ 0 | some p ↦ p.end_pos + 1 ] ≤ s.start_pos
    behind_previous none h = omega arith
    behind_previous (some p) h = let ok = test-holds _ h in ground arith

file_data-Spread :
    (l : Linked) (d : FileData)
    → d.file_size < 2 ^ 63
    → 0 < d.norm_sect_size
    → verify_file_data l (some d) ≡ some success
    → Spread 0 d.file_size d.section
unfolding verify_file_data
file_data-Spread l d small norm e =
    let (_, e₁) = all_of-each _ _ e in
    let (_, e₂) = all_of-each _ _ e₁ in
    let (sections, _) = all_of-each _ _ e₂ in
    elim (Bool-cases ((length d.section == 0) && (l.section_free_num == 0))) [
      | inl empty ↦ no_sections d.section (ground arith)
      | inr some_section ↦
          let e₃ = rw some_section at sections in
          let (_, e₄) = all_of-each _ _ e₃ in
          let (_, e₅) = all_of-each _ _ e₄ in
          let (_, e₆) = all_of-each _ _ e₅ in
          let (_, e₇) = all_of-each _ _ e₆ in
          let (_, e₈) = all_of-each _ _ e₇ in
          let (each, _) = all_of-each _ _ e₈ in IsSpread_sections d none d.section small norm each
    ]
  where
    no_sections : (ss : List Section) → length ss ≡ 0 → Spread 0 d.file_size ss
    no_sections [] h = tt
    no_sections (s ∷ ss) h = absurd (omega arith)

verify_data-file_data :
    (l : Linked) (e : Entry)
    → verify_data l e ≡ some success
    → verify_file_data l e.file_data ≡ some success
unfolding verify_data
verify_data-file_data l e h =
    let (_, h₁) = all_of-each _ _ h in
    let (_, h₂) = all_of-each _ _ h₁ in
    let (_, h₃) = all_of-each _ _ h₂ in
    let (_, h₄) = all_of-each _ _ h₃ in
    let (_, h₅) = all_of-each _ _ h₄ in
    let (_, h₆) = all_of-each _ _ h₅ in let (_, h₇) = all_of-each _ _ h₆ in (all_of-each _ _ h₇).0

-- The sections of an entry with file data that verify_entry accepts, and that is no root, are in the
-- file, in their order and apart from each other if norm_sect_size is not 0; none is empty, and each of
-- their samples has a byte and is within its section. The size of the file is below 2 ^ 63.
pub verify_entry-Spread :
    (allow : Bool) (l : Linked) (e : Entry) (d : FileData)
    → l.is_root ≡ false
    → e.file_data ≡ some d
    → d.file_size < 2 ^ 63
    → 0 < d.norm_sect_size
    → verify_entry allow l e ≡ some success
    → Spread 0 d.file_size d.section
unfolding verify_entry verify_data verify_file_data
verify_entry-Spread allow l e d no_root is small norm h =
    let (_, h₁) = all_of-each _ _ h in
    let (both, _) = all_of-each _ _ h₁ in
    let (_, h₂) = all_of-each _ _ (rw no_root at both) in
    let (data_ok, _) = all_of-each _ _ h₂ in
    file_data-Spread l d small norm (rw is at (verify_data-file_data l e data_ok))
