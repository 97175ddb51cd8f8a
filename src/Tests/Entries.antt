-- ===== src/Tests/Entries.antt =====
-- A list of the three entries at the addresses 1, 2 and 3, and a fourth one.
use ffprinter.Prelude.{ℕ, ◌≡◌, ◌⊎◌, none, some, List, [], ◌∷◌, arith, ◌==◌, if◌then◌else◌, success}
use ffprinter.Links.{Links, IsChain}
use ffprinter.EntryList.{link_entry_after, link_entry_before, link_entry_tail}
use ffprinter.EntryList.Insert.{link_entry_after-IsChain, link_entry_before_broken}
use ffprinter.EntryList.Attach.{link_entry_tail-IsChain}

abbrev three : Links
three = record {
  next = λ p. if p == 1 then 2 else if p == 2 then 3 else 0;
  prev = λ p. if p == 2 then 1 else if p == 3 then 2 else 0;
}

three-IsChain : IsChain three (1 ∷ 2 ∷ 3 ∷ [])
three-IsChain = record { linked = omega arith; distinct = omega arith }

link_entry_after-IsChain_example :
    ((link_entry_after three 2 4).0 ≡ success)
    × IsChain (link_entry_after three 2 4).1 (1 ∷ 2 ∷ 4 ∷ 3 ∷ [])
link_entry_after-IsChain_example =
    link_entry_after-IsChain three (1 ∷ []) (3 ∷ []) 2 4 three-IsChain (omega arith) (omega arith)

link_entry_before_broken_example :
    ((◌≡◌ {A = List ℕ} (1 ∷ []) []) × (link_entry_before three 2 4 ≡ none))
    ⊎ ((m : Links) × (link_entry_before three 2 4 ≡ some (success, m))
        × (m.next 1 ≡ 2)
        × (m.prev 2 ≡ 4)
        × (m.next 4 ≡ 2))
link_entry_before_broken_example =
    link_entry_before_broken three (1 ∷ []) (3 ∷ []) 2 4 three-IsChain (omega arith) (omega arith)

link_entry_tail-IsChain_example :
    (m : Links) × (link_entry_tail 3 three 2 4 ≡ some (success, m)) × IsChain m (1 ∷ 2 ∷ 3 ∷ 4 ∷ [])
link_entry_tail-IsChain_example =
    link_entry_tail-IsChain three (1 ∷ []) (3 ∷ []) 2 4 3 three-IsChain (omega arith) (omega arith)
      (omega arith)
