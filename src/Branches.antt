-- ===== src/Branches.antt =====
-- link_branch of ffp_database.c, which puts an entry and all below it into the list of the entries by
-- link_prev and link_next.
-- `child` gives the first child_num cells of the array child of an entry. `none` stands for a null
-- entry, or for a tree that is deeper than the fuel.
pub mod Step
pub mod Laws
pub mod Leaves
pub mod ForSave
pub mod AllVerified
pub mod LostCode
use ffprinter.Prelude.{
  ℕ, zero, suc, ◌+◌, ◌≡◌, Option, none, some, List, [], ◌∷◌, ◌++◌, ◌==◌, if◌then◌else◌,
}
use ffprinter.Links.{null, Links}
use ffprinter.EntryList.{link_entry_clear, link_entry_after}

-- The loop down the entries that have one child: the links, and the entry where it ends.
unfoldable pub go_down : ℕ → (ℕ → List ℕ) → Links → ℕ → Option (Links × ℕ)
go_down zero child l temp = none
go_down (suc fuel) child l temp = elim (child temp) [
  | [] ↦ some (l, temp)
  | c ∷ [] ↦ if c == null then none else go_down fuel child (link_entry_after l temp c).1 c
  | c ∷ d ∷ cs ↦ some (l, temp)
]

-- The loop over the children, which passes the tail on.
unfoldable pub link_each :
    (Links → ℕ → ℕ → Option (Links × ℕ)) → Links → List ℕ → ℕ → Option (Links × ℕ)
link_each link l [] tail = some (l, tail)
link_each link l (c ∷ cs) tail = elim (link l c tail) [
  | none ↦ none
  | some (m, end) ↦ link_each link m cs end
]

-- Below the entry `temp`, where the loop down ended.
unfoldable pub link_below :
    (Links → ℕ → ℕ → Option (Links × ℕ)) → (ℕ → List ℕ) → Links → ℕ → Option (Links × ℕ)
unfolding link_each
link_below link child l temp = elim (child temp) [
  | [] ↦ some (l, temp)
  | c ∷ [] ↦ some (l, temp)
  | c ∷ d ∷ cs ↦ link_each link l (c ∷ d ∷ cs) temp
]

-- Behind the first link of an entry.
unfoldable pub link_down :
    ℕ → (Links → ℕ → ℕ → Option (Links × ℕ)) → (ℕ → List ℕ) → Links → ℕ → Option (Links × ℕ)
link_down fuel link child l entry = elim (go_down fuel child l entry) [
  | none ↦ none
  | some (m, temp) ↦ link_below link child m temp
]

-- The links, and the value written to `*ret_tail`.
unfoldable pub link_branch : ℕ → (ℕ → List ℕ) → Links → ℕ → ℕ → Option (Links × ℕ)
link_branch zero child l entry tail = none
link_branch (suc fuel) child l entry tail =
    let start =
      if tail == null then (link_entry_clear l entry).1 else (link_entry_after l tail entry).1 in
    let link = link_branch fuel child in
    if entry == null then none else link_down (suc fuel) link child start entry

-- Entries with what is below them: an entry, its children, and the entries beside it.
pub data Forest : Type 0 where
  bare : Forest
  tree : ℕ → Forest → Forest → Forest

abbrev pub roots : Forest → List ℕ
roots bare = []
roots (tree e below beside) = e ∷ roots beside

abbrev pub preorder : Forest → List ℕ
preorder bare = []
preorder (tree e below beside) = e ∷ preorder below ++ preorder beside

abbrev pub size : Forest → ℕ
size bare = 0
size (tree e below beside) = suc (size below + size beside)

-- The arrays of the children are those of the forest.
abbrev pub IsForest : (ℕ → List ℕ) → Forest → Type 0
IsForest child bare = Unit
IsForest child (tree e below beside) =
    (child e ≡ roots below) × IsForest child below × IsForest child beside
