-- ===== src/VerifyEntry/Tags.antt =====
-- The number of the tags in verify_entry of ffp_database.c.
use ffprinter.Prelude.{ℕ, List, [], ◌∷◌, ◌++◌}

-- The tags with a '|' behind each.
abbrev pub closed : List (List ℕ) → List ℕ
closed [] = []
closed (t ∷ ts) = t ++ b'|' ∷ closed ts
