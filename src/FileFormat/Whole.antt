-- ===== src/FileFormat/Whole.antt =====
-- load_file of ffp_file.c on the file of save_file.
use ffprinter.Prelude.{ℕ, ◌≡◌, refl, List, [], ◌∷◌, arith, length}
use ffprinter.FileFormat.Records.{Database}
use ffprinter.FileFormat.Load.Entries.{branches}
use ffprinter.FileFormat.Many.{AllCounted, recounted}

-- The database as load_file counts its branches and the children of its entries.
abbrev reloaded : Database → Database
reloaded db = record {
  branch_num = branches (recounted db.entries);
  entries = recounted db.entries;
}

-- The numbers of the branches and of the children are right.
pub record IsCounted (db : Database) : Type 0 where
  pub of_tree : db.branch_num ≡ branches db.entries
  pub of_entries : AllCounted db.entries

no_length : (xs : List ℕ) → length xs ≡ 0 → xs ≡ []
no_length [] e = refl
no_length (x ∷ xs) e = absurd (omega arith)
