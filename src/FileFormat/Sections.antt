-- ===== src/FileFormat/Sections.antt =====
-- The sections and the file data in a database file of ffp_file.c.
use ffprinter.Prelude.{
  ℕ, ◌^◌, ◌<◌, ◌≤◌, ◌≡◌, ◌⊎◌, inl, inr, true, false, not, ◌&&◌, List, [], ◌∷◌, arith, ◌==◌, length,
  All, file_broken, le→leb,
}
use ffprinter.FileBuffer.{HostOrder}
use ffprinter.FileBuffer.Read.{Supported}
use ffprinter.FileFormat.Codec.{Codec, Codec-then, Codec-map, Codec-guard}
use ffprinter.FileFormat.Records.{Section, FileData}
use ffprinter.FileFormat.Save.{write_section, write_file_data}
use ffprinter.FileFormat.Load.{read_section, read_file_data}
use ffprinter.FileFormat.Parts.{number, IsExtract, extracts-Codec, for_each-Codec}
use ffprinter.FileFormat.Checksums.{file_checksums-Codec, section_checksums-Codec}
use ffprinter.FileFormat.Cells.{IsCells, Leading}

pub record IsSection (file_size : ℕ) (s : Section) : Type 0 where
  pub start : s.start_pos < 2 ^ 64
  pub end : s.end_pos < 2 ^ 64
  pub three : length s.checksum ≡ 3
  pub cells : IsCells 0 s.checksum
  pub leading : Leading s.checksum
  pub few : length s.extract ≤ 5
  pub extracts : All (IsExtract true file_size) s.extract

pub record IsFileData (d : FileData) : Type 0 where
  pub size : d.file_size ≤ 109951162777600
  pub three : length d.checksum ≡ 3
  pub cells : IsCells 0 d.checksum
  pub few : length d.extract ≤ 5
  pub extracts : All (IsExtract false d.file_size) d.extract
  pub count : length d.section < 2 ^ 31
  pub norm : d.norm_sect_size ≤ d.file_size
  pub last : d.last_sect_size ≤ d.norm_sect_size
  pub some_section : (0 < length d.section) ⊎ (d.norm_sect_size ≡ 0)
  pub more_sections : (1 < length d.section) ⊎ (d.last_sect_size ≡ d.norm_sect_size)
  pub sections : All (IsSection d.file_size) d.section

no_size : (n size : ℕ) → (0 < n) ⊎ (size ≡ 0) → not ((n == 0) && not (size == 0)) ≡ true
no_size n size h = ground arith

one_size : (n last norm : ℕ) → (1 < n) ⊎ (last ≡ norm) → not ((n == 1) && not (last == norm)) ≡ true
one_size n last norm h = ground arith

no_last : (n last norm : ℕ) → last ≤ norm → (0 < n) ⊎ (norm ≡ 0) → (0 < n) ⊎ (last ≡ 0)
no_last n last norm le (inl some) = inl some
no_last n last norm le (inr none) = inr (omega arith)

module _ (order : HostOrder) (io n : ℕ) (enough : n ≤ io) (s : Supported order false)
    (room : 64 ≤ n) where
  section-Codec :
      (file_size : ℕ) (x : Section)
      → file_size < 2 ^ 63
      → IsSection file_size x
      → Codec n (write_section order io x) (read_section order io file_size) x
  unfolding write_section read_section
  section-Codec file_size x small v =
      Codec-then _ (number order io n enough s room 8 x.start_pos (omega arith) v.start) (
        Codec-then _ (number order io n enough s room 8 x.end_pos (omega arith) v.end) (
          Codec-then _
            (section_checksums-Codec order io n enough s room x.checksum v.three v.cells v.leading)
            (Codec-map _ (
              extracts-Codec order io n enough s room true file_size x.extract small v.few
                v.extracts))))

  sections-Codec :
      (file_size : ℕ) (xs : List Section)
      → file_size < 2 ^ 63
      → All (IsSection file_size) xs
      → All (λ x. Codec n (write_section order io x) (read_section order io file_size) x) xs
  sections-Codec file_size [] small h = tt
  sections-Codec file_size (x ∷ xs) small h =
      (section-Codec file_size x small h.0, sections-Codec file_size xs small h.1)

  pub file_data-Codec :
      (d : FileData)
      → IsFileData d
      → Codec n (write_file_data order io d) (read_file_data order io) d
  unfolding write_file_data read_file_data
  file_data-Codec d v =
      let k = length d.section in
      let norm = d.norm_sect_size in
      let last = d.last_sect_size in
      let a = v.size in
      let b = v.norm in
      let c = v.last in
      let small : d.file_size < 2 ^ 63 = omega arith in
      Codec-then _ (number order io n enough s room 8 d.file_size (omega arith) (omega arith)) (
        Codec-guard file_broken (le→leb _ _ a) (
          Codec-then _ (file_checksums-Codec order io n enough s room d.checksum v.three v.cells) (
            Codec-then _
              (extracts-Codec order io n enough s room false d.file_size d.extract small v.few
                v.extracts)
              (Codec-then _
                (number order io n enough s room 8 k (omega arith)
                  (let few = v.count in omega arith))
                (Codec-then _ (number order io n enough s room 8 norm (omega arith) (omega arith)) (
                  Codec-guard file_broken (no_size k norm v.some_section) (
                    Codec-guard file_broken (le→leb _ _ b) (
                      Codec-then _
                        (number order io n enough s room 8 last (omega arith) (omega arith))
                        (Codec-guard file_broken
                          (no_size k last (no_last k last norm c v.some_section))
                          (Codec-guard file_broken (one_size k last norm v.more_sections) (
                            Codec-guard file_broken (le→leb _ _ c) (
                              Codec-map _ (
                                for_each-Codec n (write_section order io)
                                  (read_section order io d.file_size) d.section
                                  (sections-Codec d.file_size d.section small
                                    v.sections))))))))))))))
