-- ===== src/Branches/AllVerified.antt =====
-- link_entry_for_save_file of ffp_file.c beside link_branch of ffp_database.c.
use ffprinter.Prelude.{
  ℕ, zero, suc, ◌<◌, ◌≡◌, refl, ap, false, Option, none, some, List, [], ◌∷◌, ◌==◌, if◌then◌else◌,
  success, inl, inr, Bool-cases, some_inj,
}
use ffprinter.Links.{null, Links}
use ffprinter.EntryList.{link_entry_clear, link_entry_after}
use ffprinter.FileFormat.Records.{Entry}
use ffprinter.VerifyEntry.{Linked, verify_entry}
use ffprinter.Branches.{
  go_down, link_each, link_below, link_down, link_branch, Forest, roots, preorder, size, IsForest,
}
use ffprinter.Branches.Step.{EndsAt, Fresh}
use ffprinter.Branches.Laws.{link_branch-preorder}
use ffprinter.Branches.ForSave.{
  by_verdict, verdict, go_down_verified, link_each_verified, link_below_verified,
  link_entry_for_save_file,
}

abbrev pub AllGood : (ℕ → Linked × Entry) → Type 0
AllGood store = (e : ℕ) → verify_entry false (store e).0 (store e).1 ≡ some success

module _ (store : ℕ → Linked × Entry) (child : ℕ → List ℕ) (good : AllGood store) where
  abbrev passed : Links × ℕ → Option (ℕ × Links × ℕ)
  passed r = some (success, r.0, r.1)

  accepted : (e : ℕ) → (e == null) ≡ false → verdict store child e ≡ some success
  unfolding verdict
  accepted e h = rw h (good e)

  go_down_lem :
      (fuel : ℕ) (l : Links) (temp backup : ℕ) (r : Links × ℕ)
      → go_down fuel child l temp ≡ some r
      → go_down_verified store child fuel l temp backup ≡ passed r
  unfolding go_down go_down_verified by_verdict
  go_down_lem zero l temp backup r e = absurd (cc)
  go_down_lem (suc fuel) l temp backup r e =
      by_children (λ m c h. go_down_lem fuel m c temp r h) (child temp) refl e
    where
      by_children :
          ((m : Links) (c : ℕ)
            → go_down fuel child m c ≡ some r
            → go_down_verified store child fuel m c temp ≡ passed r)
          → (cs : List ℕ) → child temp ≡ cs
          → elim cs [
            | [] ↦ some (l, temp)
            | c ∷ [] ↦
                if c == null then none else go_down fuel child (link_entry_after l temp c).1 c
            | c ∷ d ∷ ds ↦ some (l, temp)
          ]
            ≡ some r
          → go_down_verified store child (suc fuel) l temp backup ≡ passed r
      by_children ih [] is h =
          rw (go_down_verified, is) (ap (λ q. some (success, q.0, q.1)) (some_inj h))
      by_children ih (c ∷ []) is h = elim (Bool-cases (c == null)) [
        | inl nil ↦ absurd (let f = rw nil at h in cc)
        | inr there ↦
            rw (go_down_verified, is, accepted c there, by_verdict)
              (ih (link_entry_after l temp c).1 c (rw there at h))
      ]
      by_children ih (c ∷ d ∷ ds) is h =
          rw (go_down_verified, is) (ap (λ q. some (success, q.0, q.1)) (some_inj h))

  -- A step of the recursion on both sides.
  abbrev Follows :
      (Links → ℕ → ℕ → Option (Links × ℕ)) → (Links → ℕ → ℕ → Option (ℕ × Links × ℕ)) → Type 0
  Follows link link' =
      (l : Links) (e t : ℕ) (r : Links × ℕ)
      → link l e t ≡ some r
      → ((e == null) ≡ false) × (link' l e t ≡ passed r)

  link_each_lem :
      (link : Links → ℕ → ℕ → Option (Links × ℕ)) (link' : Links → ℕ → ℕ → Option (ℕ × Links × ℕ))
      → Follows link link'
      → (l : Links) (cs : List ℕ) (tail : ℕ) (r : Links × ℕ) → link_each link l cs tail ≡ some r
      → link_each_verified store child link' l cs tail success ≡ passed r
  unfolding link_each link_each_verified by_verdict
  link_each_lem link link' f l [] tail r e = ap (λ q. some (success, q.0, q.1)) (some_inj e)
  link_each_lem link link' f l (c ∷ cs) tail r e =
      by_result (λ m end h. link_each_lem link link' f m cs end r h) (link l c tail) refl e
    where
      by_result :
          ((m : Links) (end : ℕ)
            → link_each link m cs end ≡ some r
            → link_each_verified store child link' m cs end success ≡ passed r)
          → (o : Option (Links × ℕ)) → link l c tail ≡ o
          → elim o [ none ↦ none | some (m, end) ↦ link_each link m cs end ] ≡ some r
          → link_each_verified store child link' l (c ∷ cs) tail success ≡ passed r
      by_result ih none is h = absurd (cc)
      by_result ih (some (m, end)) is h =
          let (there, run) = f l c tail (m, end) is in
          rw (accepted c there, by_verdict, run) (ih m end h)

  link_below_lem :
      (link : Links → ℕ → ℕ → Option (Links × ℕ)) (link' : Links → ℕ → ℕ → Option (ℕ × Links × ℕ))
      → Follows link link'
      → (l : Links) (temp : ℕ) (r : Links × ℕ) → link_below link child l temp ≡ some r
      → link_below_verified store child link' (success, l, temp) ≡ passed r
  unfolding link_below link_below_verified
  link_below_lem link link' f l temp r e = by_children (child temp) refl e
    where
      by_children :
          (cs : List ℕ)
          → child temp ≡ cs
          → elim cs [
            | [] ↦ some (l, temp)
            | c ∷ [] ↦ some (l, temp)
            | c ∷ d ∷ ds ↦ link_each link l (c ∷ d ∷ ds) temp
          ]
            ≡ some r
          → link_below_verified store child link' (success, l, temp) ≡ passed r
      by_children [] is h =
          rw (link_below_verified, is) (ap (λ q. some (success, q.0, q.1)) (some_inj h))
      by_children (c ∷ []) is h =
          rw (link_below_verified, is) (ap (λ q. some (success, q.0, q.1)) (some_inj h))
      by_children (c ∷ d ∷ ds) is h =
          rw (link_below_verified, is) (link_each_lem link link' f l (c ∷ d ∷ ds) temp r h)

  link_entry_for_save_file_lem :
      (fuel : ℕ) → Follows (link_branch fuel child) (link_entry_for_save_file store child fuel)
  unfolding link_branch link_down link_entry_for_save_file by_verdict
  link_entry_for_save_file_lem zero l e t r h = absurd (cc)
  link_entry_for_save_file_lem (suc fuel) l e t r h = elim (Bool-cases (e == null)) [
    | inl nil ↦ absurd (let f = rw nil at h in cc)
    | inr there ↦ (
      there,
      rw (there, accepted e there)
          (by_result (link_entry_for_save_file_lem fuel) (go_down (suc fuel) child start e) refl
            (rw there at h)),
    )
  ]
    where
      start : Links
      start = if t == null then (link_entry_clear l e).1 else (link_entry_after l t e).1

      by_result :
          Follows (link_branch fuel child) (link_entry_for_save_file store child fuel)
          → (o : Option (Links × ℕ)) → go_down (suc fuel) child start e ≡ o
          → elim o [
            | none ↦ none
            | some (m, temp) ↦ link_below (link_branch fuel child) child m temp
          ]
            ≡ some r
          → elim (go_down_verified store child (suc fuel) start e e) [
            | none ↦ none
            | some q ↦ link_below_verified store child (link_entry_for_save_file store child fuel) q
          ]
            ≡ passed r
      by_result ih none is g = absurd (cc)
      by_result ih (some (m, temp)) is g = rw (go_down_lem (suc fuel) start e e (m, temp) is) (
          link_below_lem (link_branch fuel child) (link_entry_for_save_file store child fuel) ih m
            temp r g)

-- Where verify_entry accepts all entries, and on fuel above the number of the entries below,
-- link_entry_for_save_file without a tail succeeds on an entry with a tree below it in which no entry is
-- null or occurs twice: it makes a whole list of the entry and all below it, in the preorder of the tree,
-- and gives back the last of them.
pub link_entry_for_save_file-preorder :
    (store : ℕ → Linked × Entry) (fuel : ℕ) (child : ℕ → List ℕ) (l : Links) (e : ℕ)
    (below : Forest)
    → AllGood store
    → size below < fuel
    → child e ≡ roots below
    → IsForest child below
    → Fresh [] (e ∷ preorder below)
    → (m : Links) × (end : ℕ) × (link_entry_for_save_file store child fuel l e null
        ≡ some (success, m, end))
      × EndsAt m end (e ∷ preorder below)
link_entry_for_save_file-preorder store fuel child l e below good lt kids is fresh =
    let (m, end, run, whole) = link_branch-preorder fuel child l e below lt kids is fresh in
    (m, end, (link_entry_for_save_file_lem store child good fuel l e null (m, end) run).1, whole)
