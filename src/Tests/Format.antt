-- ===== src/Tests/Format.antt =====
-- The database files with the entries of Tests/Sample.
use ffprinter.Prelude.{ℕ, ◌≡◌, refl, true, some, List, [], ◌∷◌, arith, replicate, buffer_no_space}
use ffprinter.FileBuffer.{HostOrder}
use ffprinter.FileBuffer.Stream.{new_file}
use ffprinter.FileFormat.{ends}
use ffprinter.FileFormat.Codec.{Codec}
use ffprinter.FileFormat.Records.{Database}
use ffprinter.FileFormat.Save.{write_section, save_file}
use ffprinter.FileFormat.Load.{read_section}
use ffprinter.FileFormat.Load.Entries.{lookup_entry_id, loaded_links, now_known}
use ffprinter.FileFormat.Misplaced.{sha256_only, sha256_misplaced, section_misplaced}
use ffprinter.FileFormat.LongTag.{save_file_long_tag}
use ffprinter.VerifyEntry.Sections.{Spread, verify_entry-Spread}
use ffprinter.Tests.Sample.{
  part, contents, parent, child, parent-IsEntry, parent-verified, child-verified,
}

abbrev buffer : List ℕ
buffer = replicate 260 0

abbrev both : Database
both = record { branch_num = 1; entries = parent ∷ child ∷ [] }

section_misplaced_example :
    Codec 64
      (write_section HostOrder.big_endian 64 (record part { checksum = sha256_only (5 ∷ 6 ∷ []) }))
      (read_section HostOrder.big_endian 64 6)
      (record part { checksum = sha256_misplaced (5 ∷ 6 ∷ []) })
section_misplaced_example =
    section_misplaced HostOrder.big_endian 64 64 (omega arith) tt (omega arith) 6 part (5 ∷ 6 ∷ [])
      (omega arith) (omega arith) (omega arith) (omega arith) (omega arith)
      (record { inside = omega arith; short = omega arith; before_end = refl }, tt)

save_file_long_tag_example :
    save_file HostOrder.little_endian 260
      (record {
        branch_num = 1;
        entries = parent ∷ record child { tag_str = replicate 261 b'|' } ∷ [];
      })
      (new_file buffer buffer)
    ≡ ends buffer_no_space
unfolding lookup_entry_id
save_file_long_tag_example =
    save_file_long_tag HostOrder.little_endian 260 buffer buffer some 1 (parent ∷ [])
      (record child { tag_str = replicate 261 b'|' }) [] tt (omega arith) (omega arith)
      (omega arith) (parent-IsEntry, refl, parent-verified, refl, tt) refl refl refl (omega arith)
      (omega arith)

verify_entry-Spread_example : Spread 0 6 (part ∷ [])
unfolding loaded_links
verify_entry-Spread_example =
    verify_entry-Spread true (loaded_links some (now_known [] parent) 0 child) child contents refl
      refl (omega arith) (omega arith) child-verified
