-- ===== src/Branches/Laws.antt =====
-- link_branch of ffp_database.c lists a tree in its preorder.
use ffprinter.Prelude.{
  ℕ, zero, suc, ◌≤◌, ◌<◌, ◌≡◌, ◌≢◌, refl, false, Option, some, List, [], ◌∷◌, ◌++◌, arith, ◌==◌,
}
use mathlib.Core.List.{append_assoc}
use ffprinter.Links.{null, Links}
use ffprinter.EntryList.{link_entry_after, link_entry_clear}
use ffprinter.Branches.{
  go_down, link_each, link_below, link_down, link_branch, Forest, bare, tree, roots, preorder, size,
  IsForest,
}
use ffprinter.Branches.Step.{
  EndsAt, Fresh, append_nil, Fresh-append, link_entry_after-EndsAt, EndsAt-ne,
  link_entry_clear-EndsAt,
}

-- The result is a list `ws` and its last entry.
abbrev pub Done : Option (Links × ℕ) → List ℕ → Type 0
Done o ws = (m : Links) × (end : ℕ) × (o ≡ some (m, end)) × EndsAt m end ws

-- `link` appends trees of up to `k` entries in their preorder.
abbrev Appends : (Links → ℕ → ℕ → Option (Links × ℕ)) → (ℕ → List ℕ) → ℕ → Type 0
Appends link child k =
    (e : ℕ) (below : Forest) (l : Links) (t : ℕ) (ws : List ℕ)
    → suc (size below) ≤ k
    → child e ≡ roots below
    → IsForest child below
    → EndsAt l t ws
    → Fresh ws (e ∷ preorder below)
    → Done (link l e t) (ws ++ e ∷ preorder below)

module _ (child : ℕ → List ℕ) (link : Links → ℕ → ℕ → Option (Links × ℕ)) (k : ℕ) where
  link_each-Done :
      (f : Forest) (l : Links) (t : ℕ) (ws : List ℕ)
      → Appends link child k
      → size f ≤ k
      → IsForest child f
      → EndsAt l t ws
      → Fresh ws (preorder f)
      → Done (link_each link l (roots f) t) (ws ++ preorder f)
  unfolding link_each
  link_each-Done bare l t ws ih le is h fresh = (l, t, refl, rw append_nil h)
  link_each-Done (tree e cs ss) l t ws ih le is h fresh =
      let (own, others) = Fresh-append ws (e ∷ preorder cs) (preorder ss) fresh in
      let (m, end, run, h₁) = ih e cs l t ws (omega arith) is.0 is.1 h own in
      let (m₂, end₂, run₂, h₂) =
        link_each-Done ss m end (ws ++ e ∷ preorder cs) ih (omega arith) is.2 h₁ others in
      rw (run, link_each) (m₂, end₂, run₂, rw append_assoc at h₂)

  down_bare :
      (fuel e : ℕ) (l : Links) → child e ≡ [] → link_down (suc fuel) link child l e ≡ some (l, e)
  unfolding link_down go_down link_below
  down_bare fuel e l kids =
      let stop : link_below link child l e ≡ some (l, e) = rw (kids, link_below) refl in
      rw (kids, link_down, go_down) stop

  down_one :
      (fuel e c : ℕ) (l : Links)
      → child e ≡ c ∷ []
      → c ≢ null
      → link_down (suc fuel) link child l e ≡ link_down fuel link child (link_entry_after l e c).1 c
  unfolding link_down go_down
  down_one fuel e c l kids nz =
      let n : (c == null) ≡ false = ground arith in rw (kids, link_down, go_down, n) refl

  down_many :
      (fuel e c d : ℕ) (cs : List ℕ) (l : Links)
      → child e ≡ c ∷ d ∷ cs
      → link_down (suc fuel) link child l e ≡ link_each link l (c ∷ d ∷ cs) e
  unfolding link_down go_down link_below
  down_many fuel e c d cs l kids =
      let stop : link_below link child l e ≡ link_each link l (c ∷ d ∷ cs) e =
        rw (kids, link_below) refl in
      rw (kids, link_down, go_down) stop

  link_down-Done :
      (fuel e : ℕ) (f : Forest) (l : Links) (ws : List ℕ)
      → Appends link child k
      → suc (size f) ≤ fuel
      → size f ≤ k
      → child e ≡ roots f
      → IsForest child f
      → EndsAt l e ws
      → Fresh ws (preorder f)
      → Done (link_down fuel link child l e) (ws ++ preorder f)
  link_down-Done zero e f l ws ih enough le kids is h fresh = absurd (omega arith)
  link_down-Done (suc fuel) e bare l ws ih enough le kids is h fresh =
      rw (down_bare fuel e l kids) (l, e, refl, rw append_nil h)
  link_down-Done (suc fuel) e (tree c cs bare) l ws ih enough le kids is h fresh =
      let (m, end, run, h₁) =
        link_down-Done fuel c cs (link_entry_after l e c).1 (ws ++ c ∷ []) ih (omega arith)
          (omega arith) is.0 is.1 (link_entry_after-EndsAt l ws e c h fresh.0 fresh.1)
          (Fresh-append (ws ++ c ∷ []) (preorder cs) [] fresh.2).0 in
      rw (down_one fuel e c l kids fresh.0)
        (m, end, run, rw (append_nil (preorder cs)) (rw append_assoc at h₁))
  link_down-Done (suc fuel) e (tree c cs (tree d ds ss)) l ws ih enough le kids is h fresh =
      rw (down_many fuel e c d (roots ss) l kids)
        (link_each-Done (tree c cs (tree d ds ss)) l e ws ih le is h fresh)

-- Behind the last entry of a list, on fuel above the number of entries.
pub link_branch-Appends :
    (fuel : ℕ) (child : ℕ → List ℕ) → Appends (link_branch fuel child) child fuel
unfolding link_branch
link_branch-Appends zero child e below l t ws le kids is h fresh = absurd (omega arith)
link_branch-Appends (suc fuel) child e below l t ws le kids is h fresh =
    let n : (e == null) ≡ false = let nz = fresh.0 in ground arith in
    let nt : (t == null) ≡ false = let nz = EndsAt-ne l t ws h in ground arith in
    let start = link_entry_after-EndsAt l ws t e h fresh.0 fresh.1 in
    let (m, end, run, h₁) =
      link_down-Done child (link_branch fuel child) fuel (suc fuel) e below
        (link_entry_after l t e).1 (ws ++ e ∷ []) (link_branch-Appends fuel child) le (omega arith)
        kids is start fresh.2 in
    rw (n, nt, run) (m, end, refl, rw append_assoc at h₁)

-- Without a tail, and on fuel above the number of the entries below, link_branch succeeds on an entry with a tree below
-- it in which no entry is null or occurs twice: it makes a whole list of the entry and all below it, in the preorder of
-- the tree, and gives back the last of them.
pub link_branch-preorder :
    (fuel : ℕ) (child : ℕ → List ℕ) (l : Links) (e : ℕ) (below : Forest)
    → size below < fuel
    → child e ≡ roots below
    → IsForest child below
    → Fresh [] (e ∷ preorder below)
    → Done (link_branch fuel child l e null) (e ∷ preorder below)
unfolding link_branch
link_branch-preorder zero child l e below lt kids is fresh = absurd (omega arith)
link_branch-preorder (suc fuel) child l e below lt kids is fresh =
    let n : (e == null) ≡ false = let nz = fresh.0 in ground arith in
    let start = link_entry_clear-EndsAt l e fresh.0 in
    let (m, end, run, h₁) =
      link_down-Done child (link_branch fuel child) fuel (suc fuel) e below (link_entry_clear l e).1
        (e ∷ []) (link_branch-Appends fuel child) (omega arith) (omega arith) kids is start
        fresh.2 in
    rw (n, run) (m, end, refl, h₁)
