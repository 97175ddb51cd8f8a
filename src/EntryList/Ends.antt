-- ===== src/EntryList/Ends.antt =====
-- The walk to the last entry, and link_entry_get_tail of ffprinter.c.
use ffprinter.Prelude.{
  ℕ, zero, suc, ◌<◌, ◌≡◌, false, some, List, [], ◌∷◌, ◌++◌, arith, ◌==◌, success, length,
}
use ffprinter.Links.{null, Links, last, Linked, IsChain}
use ffprinter.Links.Laws.{Linked-append, last-append}
use ffprinter.EntryList.{walk_next, link_entry_get_tail}

pub walk_next-last :
    (l : Links) (x : ℕ) (xs : List ℕ) (b fuel : ℕ)
    → Linked l b (x ∷ xs) null
    → length xs < fuel
    → walk_next fuel l x ≡ some (last xs x)
unfolding walk_next
walk_next-last l x xs b zero h f = absurd (omega arith)
walk_next-last l x [] b (suc fuel) h f = ground (arith, h.2)
walk_next-last l x (y ∷ xs) b (suc fuel) h f =
    ground (arith, h.2, h.3.0, walk_next-last l y xs x fuel h.3 (omega arith))

-- From any entry of a list link_entry_get_tail finds the last one, on fuel above their number.
pub link_entry_get_tail_lem :
    (l : Links) (xs ys : List ℕ) (tar fuel : ℕ)
    → IsChain l (xs ++ tar ∷ ys)
    → length ys < fuel
    → link_entry_get_tail fuel l tar ≡ some (success, some (last (xs ++ tar ∷ ys) null))
unfolding link_entry_get_tail
link_entry_get_tail_lem l xs ys tar fuel c f =
    let back = ((Linked-append l xs (tar ∷ ys) null null).0 c.linked).1 in
    let found : (tar == null) ≡ false = ground (arith, back.0) in
    rw (found, walk_next-last l tar ys (last xs null) fuel back f, last-append)
