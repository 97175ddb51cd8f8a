-- ===== src/Branches/ForSave.antt =====
-- link_entry_for_save_file of ffp_file.c, which puts the entries that save_file writes into the list.
-- `store` gives the data of an entry and what verify_entry sees of its pointers. `none` stands for a
-- null access of verify_entry, or for a tree that is deeper than the fuel.
use ffprinter.Prelude.{
  ℕ, zero, suc, false, Option, none, some, List, [], ◌∷◌, ◌==◌, if◌then◌else◌, success, verify_fail,
  wrong_args,
}
use ffprinter.Links.{null, Links}
use ffprinter.EntryList.{link_entry_clear, link_entry_after}
use ffprinter.FileFormat.Records.{Entry}
use ffprinter.VerifyEntry.{Linked, verify_entry}

-- By the result of verify_entry.
unfoldable pub by_verdict : {A : Type 0} → Option ℕ → Option A → Option A → Option A
by_verdict none good bad = none
by_verdict (some code) good bad = if code == success then good else bad

module _ (store : ℕ → Linked × Entry) (child : ℕ → List ℕ) where
  -- Without ALLOW_NULL_CHILD_PTR; a null entry is a wrong argument.
  unfoldable pub verdict : ℕ → Option ℕ
  verdict e = if e == null then some wrong_args else verify_entry false (store e).0 (store e).1

  -- The loop down, with `temp_backup`: the code, the links, and the entry where it ends.
  unfoldable pub go_down_verified : ℕ → Links → ℕ → ℕ → Option (ℕ × Links × ℕ)
  go_down_verified zero l temp backup = none
  go_down_verified (suc fuel) l temp backup = elim (child temp) [
    | [] ↦ some (success, l, temp)
    | c ∷ [] ↦
        by_verdict (verdict c) (go_down_verified fuel (link_entry_after l temp c).1 c temp)
          (some (verify_fail, l, backup))
    | c ∷ d ∷ cs ↦ some (success, l, temp)
  ]

  -- The loop over the children, in which each result takes the place of the one before.
  unfoldable pub link_each_verified :
      (Links → ℕ → ℕ → Option (ℕ × Links × ℕ)) → Links → List ℕ → ℕ → ℕ → Option (ℕ × Links × ℕ)
  link_each_verified link l [] tail ret = some (ret, l, tail)
  link_each_verified link l (c ∷ cs) tail ret =
      by_verdict (verdict c)
        (elim (link l c tail) [
          | none ↦ none
          | some (code, m, end) ↦ link_each_verified link m cs end code
        ])
        (link_each_verified link l cs tail verify_fail)

  unfoldable pub link_below_verified :
      (Links → ℕ → ℕ → Option (ℕ × Links × ℕ)) → ℕ × Links × ℕ → Option (ℕ × Links × ℕ)
  link_below_verified link (ret, l, temp) = elim (child temp) [
    | [] ↦ some (ret, l, temp)
    | c ∷ [] ↦ some (ret, l, temp)
    | c ∷ d ∷ cs ↦ link_each_verified link l (c ∷ d ∷ cs) temp ret
  ]

  -- The code, the links, and the value written to `*ret_tail`; without a write it is the tail.
  unfoldable pub link_entry_for_save_file : ℕ → Links → ℕ → ℕ → Option (ℕ × Links × ℕ)
  link_entry_for_save_file zero l entry tail = none
  link_entry_for_save_file (suc fuel) l entry tail =
      let start =
        if tail == null then (link_entry_clear l entry).1 else (link_entry_after l tail entry).1 in
      let link = link_entry_for_save_file fuel in
      if entry == null
      then some (wrong_args, l, tail)
      else by_verdict (verdict entry)
          (elim (go_down_verified (suc fuel) start entry entry) [
            | none ↦ none
            | some r ↦ link_below_verified link r
          ])
          (some (verify_fail, l, tail))
