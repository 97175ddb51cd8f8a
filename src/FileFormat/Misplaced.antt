-- ===== src/FileFormat/Misplaced.antt =====
-- The checksums of a section in a database file of ffp_file.c, where the first one is not in use.
use ffprinter.Prelude.{
  ℕ, ◌^◌, ◌<◌, ◌≤◌, refl, true, false, List, [], ◌∷◌, arith, length, All, file_broken, le→leb,
}
use ffprinter.FileBuffer.{HostOrder}
use ffprinter.FileBuffer.Read.{Supported}
use ffprinter.FileFormat.Codec.{
  Codec, Codec-then, Codec-map, Codec-nothing, Codec-guard, Codec-skip,
}
use ffprinter.FileFormat.Bytes.{Codec-string}
use ffprinter.FileFormat.Records.{ChecksumResult, Section}
use ffprinter.FileFormat.Save.{for_each, write_checksum, write_checksums, write_section}
use ffprinter.FileFormat.Load.{
  empty_checksum, read_checksum, checksum_loop, read_checksums, read_section,
}
use ffprinter.FileFormat.Parts.{number, IsExtract, extracts-Codec}

abbrev sha256 : List ℕ → ChecksumResult
sha256 bytes = record { type = 2; len = length bytes; checksum = bytes }

-- The cells with a SHA256 checksum only.
abbrev pub sha256_only : List ℕ → List ChecksumResult
sha256_only bytes = empty_checksum ∷ sha256 bytes ∷ empty_checksum ∷ []

-- The same with the bytes in the first cell.
abbrev pub sha256_misplaced : List ℕ → List ChecksumResult
sha256_misplaced bytes =
    record empty_checksum { checksum = bytes }
    ∷ record (sha256 bytes) { checksum = [] }
    ∷ empty_checksum
    ∷ []

module _ (order : HostOrder) (io n : ℕ) (enough : n ≤ io) (s : Supported order false)
    (room : 64 ≤ n) where
  misplaced-Codec :
      (bytes : List ℕ)
      → length bytes ≤ 64
      → Codec n
          (write_checksums order io (sha256_only bytes))
          (read_checksums order io true)
          (sha256_misplaced bytes)
  unfolding write_checksums read_checksums for_each checksum_loop write_checksum read_checksum
  misplaced-Codec bytes short =
      Codec-then _ (number order io n enough s room 2 1 (omega arith) (omega arith)) (
        Codec-guard file_broken refl (
          Codec-skip (
            Codec-then (λ z. checksum_loop order io true 0 1 z)
              (Codec-then _ (number order io n enough s room 2 2 (omega arith) (omega arith)) (
                Codec-then _
                  (number order io n enough s room 2 (length bytes) (omega arith) (omega arith))
                  (Codec-guard file_broken (le→leb _ _ short)
                    (Codec-map _ (Codec-string order io n enough bytes (omega arith))))))
              (Codec-skip (Codec-nothing (sha256_misplaced bytes))))))

  -- A section of which only the SHA256 checksum is in use is not read back as it was written: its type
  -- and length are in the second cell, but its bytes, of which there are at most 64, in the first one.
  -- The other parts of the section are right, where load_file accepts them, on any host order that
  -- the code supports, and the buffers have at least 64 cells.
  pub section_misplaced :
      (file_size : ℕ) (x : Section) (bytes : List ℕ)
      → file_size < 2 ^ 63
      → x.start_pos < 2 ^ 64
      → x.end_pos < 2 ^ 64
      → length bytes ≤ 64
      → length x.extract ≤ 5
      → All (IsExtract true file_size) x.extract
      → Codec n
          (write_section order io (record x { checksum = sha256_only bytes }))
          (read_section order io file_size)
          (record x { checksum = sha256_misplaced bytes })
  unfolding write_section read_section
  section_misplaced file_size x bytes small start end short few h =
      Codec-then _ (number order io n enough s room 8 x.start_pos (omega arith) start) (
        Codec-then _ (number order io n enough s room 8 x.end_pos (omega arith) end) (
          Codec-then _ (misplaced-Codec bytes short) (
            Codec-map _
              (extracts-Codec order io n enough s room true file_size x.extract small few h))))
