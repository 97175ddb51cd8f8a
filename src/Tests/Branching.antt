-- ===== src/Tests/Branching.antt =====
-- The entry 1 has the children 2 and 3, and the entry 2 has the child 4.
use ffprinter.Prelude.{
  success, verify_fail, ℕ, ◌≡◌, some, refl, List, [], ◌∷◌, arith, ◌==◌, if◌then◌else◌,
}
use ffprinter.Links.{null, Links}
use ffprinter.EntryList.{link_entry_clear, link_entry_after}
use ffprinter.FileFormat.Records.{Entry}
use ffprinter.VerifyEntry.{Linked}
use ffprinter.Branches.Step.{EndsAt}
use ffprinter.Branches.ForSave.{verdict, link_entry_for_save_file}
use ffprinter.Branches.AllVerified.{link_entry_for_save_file-preorder}
use ffprinter.Branches.LostCode.{link_entry_for_save_file_lost}
use ffprinter.Tests.Sample.{parent, other, first_links, group_accepted, other_refused}
use ffprinter.Branches.{link_branch, Forest, bare, tree}
use ffprinter.Branches.Leaves.{link_branch_ends, link_branch_ends_cut}
use ffprinter.Branches.Laws.{Done, link_branch-preorder}

abbrev child : ℕ → List ℕ
child e = if e == 1 then 2 ∷ 3 ∷ [] else if e == 2 then 4 ∷ [] else []

abbrev below_one : Forest
below_one = tree 2 (tree 4 bare bare) (tree 3 bare bare)

-- All links point to the entry 7.
abbrev unset : Links
unset = record { next = λ p. 7; prev = λ p. 7 }

link_branch-preorder_example : Done (link_branch 4 child unset 1 null) (1 ∷ 2 ∷ 4 ∷ 3 ∷ [])
link_branch-preorder_example =
    link_branch-preorder 4 child unset 1 below_one (omega arith) refl
      (refl, (refl, tt, tt), (refl, tt, tt)) (omega arith)

-- The entry 5 has the children 6 and 7, and the entry 6 has the child 8.
abbrev inner : ℕ → List ℕ
inner e = if e == 5 then 6 ∷ 7 ∷ [] else if e == 6 then 8 ∷ [] else []

link_branch_ends_cut_example :
    (m : Links) × (link_branch_ends 3 inner unset 5 null ≡ some (m, 7))
    × (m.next 5 ≡ null)
    × (m.next 8 ≡ 7)
    × (m.prev 7 ≡ 8)
link_branch_ends_cut_example =
    link_branch_ends_cut 0 inner unset 5 6 7 8 (omega arith, omega arith, omega arith, omega arith)
      (omega arith, omega arith, omega arith) refl refl refl refl

abbrev groups : ℕ → Linked × Entry
groups e = (first_links, parent)

link_entry_for_save_file-preorder_example :
    (m : Links) × (end : ℕ) × (link_entry_for_save_file groups child 4 unset 1 null
      ≡ some (success, m, end))
    × EndsAt m end (1 ∷ 2 ∷ 4 ∷ 3 ∷ [])
link_entry_for_save_file-preorder_example =
    link_entry_for_save_file-preorder groups 4 child unset 1 below_one (λ e. group_accepted)
      (omega arith) refl (refl, (refl, tt, tt), (refl, tt, tt)) (omega arith)

-- The entry 2 has the type ENTRY_OTHER.
abbrev with_other : ℕ → Linked × Entry
with_other e = if e == 2 then (first_links, other) else (first_links, parent)

three_accepted : verdict with_other child 3 ≡ some success
unfolding verdict
three_accepted = group_accepted

one_accepted : verdict with_other child 1 ≡ some success
unfolding verdict
one_accepted = group_accepted

two_refused : verdict with_other child 2 ≡ some verify_fail
unfolding verdict
two_refused = other_refused

link_entry_for_save_file_lost_example :
    link_entry_for_save_file with_other child 2 unset 1 null
    ≡ some (success, (link_entry_after (link_entry_clear unset 1).1 1 3).1, 3)
link_entry_for_save_file_lost_example =
    link_entry_for_save_file_lost with_other child 0 unset 1 2 [] 3 refl one_accepted
      ((verify_fail, two_refused, omega arith), tt) three_accepted refl
