-- ===== src/FileFormat/Accepted.antt =====
-- What load_file of ffp_file.c accepts.
use ffprinter.Prelude.{ℕ, ◌≡◌, true, false, Option, some, List, [], ◌∷◌, success}
use ffprinter.Text.Hex.{bytes_to_hex_str}
use ffprinter.FileFormat.Records.{Time, Entry}
use ffprinter.FileFormat.Load.Entries.{Known, is_known, loaded_links, now_known, children_of}
use ffprinter.VerifyEntry.{verify_entry}

-- Behind the entries `known`, verify_entry accepts each entry, with some space in the array of its
-- children, its id is new, and its child number is that of its children behind it.
abbrev pub Checked : (Time → Option Time) → List Known → List Entry → Type 0
Checked normalise known [] = Unit
Checked normalise known (e ∷ es) =
    ((space : ℕ) × (verify_entry true (loaded_links normalise known space e) e ≡ some success))
    × (is_known known (bytes_to_hex_str e.entry_id) ≡ false)
    × (e.child_num ≡ children_of (bytes_to_hex_str e.entry_id) es)
    × Checked normalise (now_known known e) es
