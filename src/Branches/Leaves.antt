-- ===== src/Branches/Leaves.antt =====
-- link_branch_ends of ffp_database.c, which is to list the entries without children below an entry.
use ffprinter.Prelude.{
  ℕ, zero, suc, ◌≡◌, ◌≢◌, refl, Bool, true, false, Option, none, some, List, [], ◌∷◌, arith, ◌==◌,
  if◌then◌else◌, ◌∙◌, Bool-cases, inl, inr,
}
use ffprinter.Links.{null, Links}
use ffprinter.EntryList.{link_entry_clear, link_entry_after}
use ffprinter.Branches.{link_each}

-- The loop down the entries that have one child.
unfoldable pub walk_down : ℕ → (ℕ → List ℕ) → ℕ → Option ℕ
walk_down zero child temp = none
walk_down (suc fuel) child temp = elim (child temp) [
  | [] ↦ some temp
  | c ∷ [] ↦ if c == null then none else walk_down fuel child c
  | c ∷ d ∷ cs ↦ some temp
]

-- Is an entry linked behind the tail?
abbrev pub childless : List ℕ → Bool
childless [] = true
childless (c ∷ cs) = false

-- The first link of an entry.
unfoldable pub start_ends : (ℕ → List ℕ) → Links → ℕ → ℕ → Links
start_ends child l entry tail =
    if tail == null
    then (link_entry_clear l entry).1
    else if childless (child entry)
    then (link_entry_after l tail entry).1
    else l

-- Behind the loop down, which ended at `temp`.
unfoldable pub ends_below :
    (Links → ℕ → ℕ → Option (Links × ℕ)) → List ℕ → Links → ℕ → ℕ → Option (Links × ℕ)
unfolding link_each
ends_below link [] l entry temp = some (l, temp)
ends_below link (c ∷ []) l entry temp = some (l, entry)
ends_below link (c ∷ d ∷ cs) l entry temp = link_each link l (c ∷ d ∷ cs) entry

-- The links, and the value written to `*ret_tail`.
unfoldable pub link_branch_ends : ℕ → (ℕ → List ℕ) → Links → ℕ → ℕ → Option (Links × ℕ)
link_branch_ends zero child l entry tail = none
link_branch_ends (suc fuel) child l entry tail =
    let link = link_branch_ends fuel child in
    if entry == null then none else elim (walk_down (suc fuel) child entry) [
      | none ↦ none
      | some temp ↦ ends_below link (child temp) (start_ends child l entry tail) entry temp
    ]

module _ (child : ℕ → List ℕ) (l : Links) where
  start_ends_other :
      (e t : ℕ) (c : ℕ) (cs : List ℕ) → t ≢ null → child e ≡ c ∷ cs → start_ends child l e t ≡ l
  unfolding start_ends
  start_ends_other e t c cs nt ke = let zt : (t == null) ≡ false = ground arith in rw (zt, ke) refl

  start_ends_leaf :
      (e t : ℕ) → t ≢ null → child e ≡ [] → start_ends child l e t ≡ (link_entry_after l t e).1
  unfolding start_ends
  start_ends_leaf e t nt ke = let zt : (t == null) ≡ false = ground arith in rw (zt, ke) refl

  walk_down_leaf : (fuel e : ℕ) → child e ≡ [] → walk_down (suc fuel) child e ≡ some e
  unfolding walk_down
  walk_down_leaf fuel e ke = rw (ke, walk_down) refl

  walk_down_single :
      (fuel e c : ℕ)
      → c ≢ null
      → child e ≡ c ∷ []
      → child c ≡ []
      → walk_down (suc (suc fuel)) child e ≡ some c
  unfolding walk_down
  walk_down_single fuel e c nc ke kc =
      let zc : (c == null) ≡ false = ground arith in
      rw (ke, walk_down, zc) (walk_down_leaf fuel c kc)

  walk_down_many :
      (fuel e c d : ℕ) (cs : List ℕ) → child e ≡ c ∷ d ∷ cs → walk_down (suc fuel) child e ≡ some e
  unfolding walk_down
  walk_down_many fuel e c d cs ke = rw (ke, walk_down) refl

  -- An entry with one child, which has none: no link is written, though the child is the new tail.
  link_branch_ends_single :
      (fuel e c t : ℕ)
      → e ≢ null
      → c ≢ null
      → t ≢ null
      → child e ≡ c ∷ []
      → child c ≡ []
      → link_branch_ends (suc (suc fuel)) child l e t ≡ some (l, c)
  unfolding link_branch_ends ends_below
  link_branch_ends_single fuel e c t ne nc nt ke kc =
      let ze : (e == null) ≡ false = ground arith in
      rw (ze, walk_down_single fuel e c nc ke kc, start_ends_other e t c [] nt ke, kc) refl

  link_branch_ends_leaf :
      (fuel e t : ℕ)
      → e ≢ null
      → t ≢ null
      → child e ≡ []
      → link_branch_ends (suc fuel) child l e t ≡ some ((link_entry_after l t e).1, e)
  unfolding link_branch_ends ends_below
  link_branch_ends_leaf fuel e t ne nt ke =
      let ze : (e == null) ≡ false = ground arith in
      rw (ze, walk_down_leaf fuel e ke, start_ends_leaf e t nt ke, ke) refl

  link_branch_ends_many :
      (fuel e c d : ℕ) (cs : List ℕ)
      → e ≢ null
      → child e ≡ c ∷ d ∷ cs
      → link_branch_ends (suc fuel) child l e null
        ≡ link_each (link_branch_ends fuel child) (link_entry_clear l e).1 (c ∷ d ∷ cs) e
  unfolding link_branch_ends ends_below start_ends
  link_branch_ends_many fuel e c d cs ne ke =
      let ze : (e == null) ≡ false = ground arith in
      rw (ze, walk_down_many fuel e c d cs ke, ke) refl

link_each_two :
    (link : Links → ℕ → ℕ → Option (Links × ℕ)) (l m₁ m₂ : Links) (c d t f : ℕ)
    → link l c t ≡ some (m₁, f)
    → link m₁ d f ≡ some (m₂, d)
    → link_each link l (c ∷ d ∷ []) t ≡ some (m₂, d)
unfolding link_each
link_each_two link l m₁ m₂ c d t f one two = rw (one, link_each, two) refl

-- What link_entry_after does to the pair of entries, and to the successor of any other one.
after_pair :
    (l : Links) (dst tar x : ℕ)
    → dst ≢ null
    → tar ≢ null
    → dst ≢ tar
    → x ≢ dst
    → x ≢ tar
    → let m = (link_entry_after l dst tar).1 in
      (m.next dst ≡ tar) × (m.prev tar ≡ dst) × (m.next x ≡ l.next x)
unfolding link_entry_after
after_pair l dst tar x nd nt ne xd xt =
    let zd : (dst == null) ≡ false = ground arith in
    let zt : (tar == null) ≡ false = ground arith in
    let zn : (dst == tar) ≡ false = ground arith in
    elim (Bool-cases (l.next dst == null)) [
      | inl end ↦ rw (zd, zt, zn, end) (ground arith, ground arith, ground arith)
      | inr more ↦ rw (zd, zt, zn, more) (ground arith, ground arith, ground arith)
    ]

-- Where an entry `e` without a tail has the children `c` and `d`, `c` has the one child `f`, and `f` and `d` have none,
-- none of the four is null, and `e`, `d` and `f` are different, link_branch_ends links `d` behind `f` and gives it back,
-- but leaves `e` without a successor: neither of them is in the list of `e`.
pub link_branch_ends_cut :
    (fuel : ℕ) (child : ℕ → List ℕ) (l : Links) (e c d f : ℕ)
    → (e ≢ null) × (c ≢ null) × (d ≢ null) × (f ≢ null)
    → (e ≢ f) × (e ≢ d) × (f ≢ d)
    → child e ≡ c ∷ d ∷ []
    → child c ≡ f ∷ []
    → child f ≡ []
    → child d ≡ []
    → (m : Links) × (link_branch_ends (suc (suc (suc fuel))) child l e null ≡ some (m, d))
      × (m.next e ≡ null)
      × (m.next f ≡ d)
      × (m.prev d ≡ f)
unfolding link_entry_clear
link_branch_ends_cut fuel child l e c d f (ne, nc, nd, nf) (ef, ed, fd) ke kc kf kd =
    let ze : (e == null) ≡ false = ground arith in
    let l₁ = (link_entry_clear l e).1 in
    let clear : l₁.next e ≡ null = rw (ze, link_entry_clear) (ground arith) in
    let (here, back, kept) = after_pair l₁ f d e nf nd fd ef ed in
    let ends = link_branch_ends (suc (suc fuel)) child in
    let run =
      link_each_two ends l₁ l₁ (link_entry_after l₁ f d).1 c d e f
        (link_branch_ends_single child l₁ fuel c f e nc nf ne kc kf)
        (link_branch_ends_leaf child l₁ (suc fuel) d f nd nf kd) in
    (
      (link_entry_after l₁ f d).1,
      link_branch_ends_many child l (suc (suc fuel)) e c d [] ne ke ∙ run,
      kept ∙ clear,
      here,
      back,
    )
