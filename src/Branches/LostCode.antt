-- ===== src/Branches/LostCode.antt =====
-- The code of link_entry_for_save_file of ffp_file.c for an entry with several children.
use ffprinter.Prelude.{
  ℕ, suc, ◌≡◌, ◌≢◌, refl, false, Option, some, List, [], ◌∷◌, ◌++◌, arith, ◌==◌, All, success,
  wrong_args, inl, inr, Bool-cases, some_inj,
}
use ffprinter.Links.{null, Links}
use ffprinter.EntryList.{link_entry_clear, link_entry_after}
use ffprinter.FileFormat.Records.{Entry}
use ffprinter.VerifyEntry.{Linked}
use ffprinter.Branches.ForSave.{
  by_verdict, verdict, go_down_verified, link_each_verified, link_below_verified,
  link_entry_for_save_file,
}

module _ (store : ℕ → Linked × Entry) (child : ℕ → List ℕ) where
  -- verify_entry gives a code that is not 0.
  abbrev pub Refused : ℕ → Type 0
  Refused e = (code : ℕ) × (verdict store child e ≡ some code) × (code ≢ success)

  accepted-ne_null : (e : ℕ) → verdict store child e ≡ some success → (e == null) ≡ false
  unfolding verdict
  accepted-ne_null e ok = elim (Bool-cases (e == null)) [
    | inl is ↦ absurd (let z : wrong_args ≡ success = some_inj (rw is at ok) in omega arith)
    | inr isnt ↦ isnt
  ]

  -- The refused children leave nothing behind.
  link_each-Refused :
      (link : Links → ℕ → ℕ → Option (ℕ × Links × ℕ)) (l : Links) (cs : List ℕ) (c tail ret : ℕ)
      (r : ℕ × Links × ℕ)
      → All Refused cs
      → verdict store child c ≡ some success
      → link l c tail ≡ some r
      → link_each_verified store child link l (cs ++ c ∷ []) tail ret ≡ some r
  unfolding link_each_verified by_verdict
  link_each-Refused link l [] c tail ret r h ok run = rw (ok, run) refl
  link_each-Refused link l (d ∷ cs) c tail ret r ((code, v, ne), h) ok run =
      let bad : (code == success) ≡ false = ground arith in
      rw (v, bad) (link_each-Refused link l cs c tail _ r h ok run)

  leaf_linked :
      (fuel : ℕ) (l : Links) (c tail : ℕ)
      → (tail == null) ≡ false
      → verdict store child c ≡ some success
      → child c ≡ []
      → link_entry_for_save_file store child (suc fuel) l c tail
        ≡ some (success, (link_entry_after l tail c).1, c)
  unfolding link_entry_for_save_file go_down_verified link_below_verified by_verdict
  leaf_linked fuel l c tail some_tail ok bare =
      rw (accepted-ne_null c ok, ok, go_down_verified, bare)
        (rw (link_below_verified, bare, some_tail) refl)

  below-Refused :
      (link : Links → ℕ → ℕ → Option (ℕ × Links × ℕ)) (l : Links) (e d : ℕ) (cs : List ℕ) (c : ℕ)
      (r : ℕ × Links × ℕ)
      → child e ≡ d ∷ (cs ++ c ∷ [])
      → All Refused (d ∷ cs)
      → verdict store child c ≡ some success
      → link l c e ≡ some r
      → link_below_verified store child link (success, l, e) ≡ some r
  unfolding link_below_verified
  below-Refused link l e d [] c r is h ok run =
      rw (link_below_verified, is) (link_each-Refused link l (d ∷ []) c e success r h ok run)
  below-Refused link l e d (x ∷ cs) c r is h ok run =
      rw (link_below_verified, is) (link_each-Refused link l (d ∷ x ∷ cs) c e success r h ok run)

  several_stop :
      (fuel : ℕ) (l : Links) (e d : ℕ) (cs : List ℕ) (c backup : ℕ)
      → child e ≡ d ∷ (cs ++ c ∷ [])
      → go_down_verified store child (suc fuel) l e backup ≡ some (success, l, e)
  unfolding go_down_verified
  several_stop fuel l e d [] c backup is = rw (go_down_verified, is) refl
  several_stop fuel l e d (x ∷ cs) c backup is = rw (go_down_verified, is) refl

  -- For an entry with at least two children, of which verify_entry accepts the last one, which has no
  -- children, and refuses all others, link_entry_for_save_file gives 0, as if all had been linked: that
  -- children are left out does not come out. The list is the entry with the last child behind it.
  pub link_entry_for_save_file_lost :
      (fuel : ℕ) (l : Links) (e d : ℕ) (cs : List ℕ) (c : ℕ)
      → child e ≡ d ∷ (cs ++ c ∷ [])
      → verdict store child e ≡ some success
      → All Refused (d ∷ cs)
      → verdict store child c ≡ some success
      → child c ≡ []
      → link_entry_for_save_file store child (suc (suc fuel)) l e null
        ≡ some (success, (link_entry_after (link_entry_clear l e).1 e c).1, c)
  unfolding link_entry_for_save_file by_verdict
  link_entry_for_save_file_lost fuel l e d cs c is ok refused last bare =
      let start = (link_entry_clear l e).1 in
      let there = accepted-ne_null e ok in
      let down = several_stop (suc fuel) start e d cs c e is in
      let run = leaf_linked fuel start c e there last bare in
      rw (there, ok, down)
        (below-Refused (link_entry_for_save_file store child (suc fuel)) start e d cs c _ is refused
          last run)
