-- ===== src/EntryList/Attach.antt =====
-- link_entry_tail and link_entry_head of ffprinter.c on a whole list.
use ffprinter.Prelude.{
  ℕ, zero, suc, ◌+◌, ◌<◌, ◌≡◌, ◌≢◌, refl, sym, ap, ◌∙◌, false, some, List, [], ◌∷◌, ◌++◌, arith,
  length, ◌==◌, success,
}
use mathlib.Core.List.{append_assoc}
use mathlib.Core.Path.{subst}
use ffprinter.Links.{null, Links, set_next, set_prev, first, last, Linked, NotIn, IsChain}
use ffprinter.Links.Laws.{
  upd_self, Linked-append, NotIn-append, Distinct-insert, frame, relink_first, set_next-SameOn,
  set_prev-SameOn, last-append,
}
use ffprinter.Links.Splice.{SameBut-SameOn, splice_end, NotIn-of_Distinct}
use ffprinter.EntryList.{
  walk_prev, attach_tail, attach_head, link_entry_tail, link_entry_head, link_entry_get_head,
}
use ffprinter.EntryList.Ends.{walk_next-last}

-- A list by its last element.
snoc : (x : ℕ) (xs : List ℕ) → (init : List ℕ) × (x ∷ xs ≡ init ++ last xs x ∷ [])
snoc x [] = ([], refl)
snoc x (y ∷ xs) = let (init, e) = snoc y xs in (x ∷ init, ap (λ zs. x ∷ zs) e)

pub attach_tail-IsChain :
    (l : Links) (xs : List ℕ) (d tar : ℕ)
    → IsChain l (xs ++ d ∷ [])
    → tar ≢ null
    → NotIn tar (xs ++ d ∷ [])
    → IsChain (attach_tail l d tar) (xs ++ d ∷ tar ∷ [])
unfolding attach_tail
attach_tail-IsChain l xs d tar c nz out =
    let (fresh, fresh') = (NotIn-append tar xs (d ∷ [])).0 out in
    let (apart, _) = NotIn-of_Distinct xs [] d c.distinct in
    let m = attach_tail l d tar in
    record {
      linked =
          splice_end l m d tar xs null null c.linked nz
            (SameBut-SameOn l m d tar tar xs (λ x p q r. (ground arith, ground arith)) apart fresh
              fresh)
            (record {
              next_d = ground (arith, fresh'.0);
              prev_d = ground (arith, fresh'.0);
              next_t = ground arith;
              prev_t = ground arith;
            });
      distinct = rw append_assoc at (
          (Distinct-insert (xs ++ d ∷ []) [] tar).1
            (rw append_assoc c.distinct, rw append_assoc out));
    }

pub attach_last-IsChain :
    (l : Links) (x : ℕ) (xs : List ℕ) (tar : ℕ)
    → IsChain l (x ∷ xs)
    → tar ≢ null
    → NotIn tar (x ∷ xs)
    → IsChain (attach_tail l (last xs x) tar) ((x ∷ xs) ++ tar ∷ [])
attach_last-IsChain l x xs tar c nz out =
    let (init, e) = snoc x xs in
    let d = last xs x in
    let j : (init ++ d ∷ []) ++ tar ∷ [] ≡ init ++ d ∷ tar ∷ [] =
      append_assoc init (d ∷ []) (tar ∷ []) in
    subst (λ zs. IsChain (attach_tail l d tar) (zs ++ tar ∷ [])) (sym e)
      (subst (IsChain (attach_tail l d tar)) (sym j)
        (attach_tail-IsChain l init d tar (subst (IsChain l) e c) nz (subst (NotIn tar) e out)))

attach_at :
    (xs ys : List ℕ) (dst tar : ℕ) (l : Links)
    → IsChain l (xs ++ dst ∷ ys)
    → tar ≢ null
    → NotIn tar (xs ++ dst ∷ ys)
    → IsChain (attach_tail l (last ys dst) tar) ((xs ++ dst ∷ ys) ++ tar ∷ [])
attach_at [] ys dst tar l c nz out = attach_last-IsChain l dst ys tar c nz out
attach_at (x ∷ xs) ys dst tar l c nz out =
    subst (λ e. IsChain (attach_tail l e tar) ((x ∷ xs ++ dst ∷ ys) ++ tar ∷ []))
      (last-append xs (dst ∷ ys) x) (attach_last-IsChain l x (xs ++ dst ∷ ys) tar c nz out)

-- On fuel above the number of entries behind `dst`, link_entry_tail puts the new entry at the end
-- of the list that `dst` stands in, and keeps the order of all others.
pub link_entry_tail-IsChain :
    (l : Links) (xs ys : List ℕ) (dst tar fuel : ℕ)
    → IsChain l (xs ++ dst ∷ ys)
    → tar ≢ null
    → NotIn tar (xs ++ dst ∷ ys)
    → length ys < fuel
    → (m : Links) × (link_entry_tail fuel l dst tar ≡ some (success, m))
      × IsChain m ((xs ++ dst ∷ ys) ++ tar ∷ [])
unfolding link_entry_tail
link_entry_tail-IsChain l xs ys dst tar fuel c nz out f =
    let back = ((Linked-append l xs (dst ∷ ys) null null).0 c.linked).1 in
    let (fresh, fresh') = (NotIn-append tar xs (dst ∷ ys)).0 out in
    let d : (dst == null) ≡ false = ground (arith, back.0) in
    let t : (tar == null) ≡ false = ground arith in
    let n : (dst == tar) ≡ false = ground (arith, fresh'.0) in
    (
      attach_tail l (last ys dst) tar,
      rw (d, t, n, walk_next-last l dst ys (last xs null) fuel back f),
      attach_at xs ys dst tar l c nz out,
    )

-- The entries before another one, from the nearest to the first.
abbrev onto : List ℕ → List ℕ → List ℕ
onto [] zs = zs
onto (x ∷ rs) zs = onto rs (x ∷ zs)

onto-Linked :
    (l : Links) (rs zs : List ℕ) → Linked l null (onto rs zs) null → (b : ℕ) × Linked l b zs null
onto-Linked l [] zs h = (null, h)
onto-Linked l (x ∷ rs) zs h = let (b, k) = onto-Linked l rs (x ∷ zs) h in (x, k.3)

onto-append : (xs acc zs : List ℕ) → onto (onto xs acc) zs ≡ onto acc (xs ++ zs)
onto-append [] acc zs = refl
onto-append (x ∷ xs) acc zs = onto-append xs (x ∷ acc) zs

length-onto : (xs acc : List ℕ) → length (onto xs acc) ≡ length xs + length acc
length-onto [] acc = omega arith
length-onto (x ∷ xs) acc = omega (arith, length-onto xs (x ∷ acc))

walk_prev-onto :
    (l : Links) (rs ys : List ℕ) (x fuel : ℕ)
    → Linked l null (onto rs (x ∷ ys)) null
    → length rs < fuel
    → walk_prev fuel l x ≡ some (first (onto rs (x ∷ ys)) null)
unfolding walk_prev
walk_prev-onto l rs ys x zero h f = absurd (omega arith)
walk_prev-onto l [] ys x (suc fuel) h f = ground (arith, h.1)
walk_prev-onto l (r ∷ rs) ys x (suc fuel) h f =
    let (b, k) = onto-Linked l rs (r ∷ x ∷ ys) h in
    ground (arith, k.0, k.3.1, walk_prev-onto l rs (x ∷ ys) r fuel h (omega arith))

attach_head-IsChain :
    (l : Links) (y : ℕ) (ys : List ℕ) (tar : ℕ)
    → IsChain l (y ∷ ys)
    → tar ≢ null
    → NotIn tar (y ∷ ys)
    → IsChain (attach_head l y tar) (tar ∷ y ∷ ys)
unfolding attach_head
attach_head-IsChain l y ys tar c nz out =
    let l₁ = set_prev l y tar in
    let l₂ = set_prev l₁ tar null in
    let h₁ = relink_first l y ys null null tar c.linked c.distinct.0 in
    let h₂ = frame l₁ l₂ tar null (y ∷ ys) h₁ (set_prev-SameOn l₁ tar null (y ∷ ys) out) in
    let h₃ =
      frame l₂ (set_next l₂ tar y) tar null (y ∷ ys) h₂ (set_next-SameOn l₂ tar y (y ∷ ys) out) in
    record {
      linked = (nz, upd_self l₁.prev tar null, upd_self l₂.next tar y, h₃);
      distinct = (out, c.distinct);
    }

attach_first-IsChain :
    (l : Links) (xs ys : List ℕ) (dst tar : ℕ)
    → IsChain l (xs ++ dst ∷ ys)
    → tar ≢ null
    → NotIn tar (xs ++ dst ∷ ys)
    → IsChain (attach_head l (first (xs ++ dst ∷ ys) null) tar) (tar ∷ xs ++ dst ∷ ys)
attach_first-IsChain l [] ys dst tar c nz out = attach_head-IsChain l dst ys tar c nz out
attach_first-IsChain l (x ∷ xs) ys dst tar c nz out =
    attach_head-IsChain l x (xs ++ dst ∷ ys) tar c nz out

-- The walk by link_prev ends at the first entry of the list.
pub walk_prev-first :
    (l : Links) (xs ys : List ℕ) (dst fuel : ℕ)
    → Linked l null (xs ++ dst ∷ ys) null
    → length xs < fuel
    → walk_prev fuel l dst ≡ some (first (xs ++ dst ∷ ys) null)
walk_prev-first l xs ys dst fuel h f =
    let e = onto-append xs [] (dst ∷ ys) in
    let n = length-onto xs [] in
    walk_prev-onto l (onto xs []) ys dst fuel (subst (λ zs. Linked l null zs null) (sym e) h)
      (omega arith)
    ∙ ap (λ zs. some (first zs null)) e

-- On fuel above the number of entries before `dst`, link_entry_head puts the new entry in front of
-- the list that `dst` stands in, and keeps the order of all others.
pub link_entry_head-IsChain :
    (l : Links) (xs ys : List ℕ) (dst tar fuel : ℕ)
    → IsChain l (xs ++ dst ∷ ys)
    → tar ≢ null
    → NotIn tar (xs ++ dst ∷ ys)
    → length xs < fuel
    → (m : Links) × (link_entry_head fuel l dst tar ≡ some (success, m))
      × IsChain m (tar ∷ xs ++ dst ∷ ys)
unfolding link_entry_head
link_entry_head-IsChain l xs ys dst tar fuel c nz out f =
    let back = ((Linked-append l xs (dst ∷ ys) null null).0 c.linked).1 in
    let (fresh, fresh') = (NotIn-append tar xs (dst ∷ ys)).0 out in
    let d : (dst == null) ≡ false = ground (arith, back.0) in
    let t : (tar == null) ≡ false = ground arith in
    let n : (dst == tar) ≡ false = ground (arith, fresh'.0) in
    (
      attach_head l (first (xs ++ dst ∷ ys) null) tar,
      rw (d, t, n, walk_prev-first l xs ys dst fuel c.linked f),
      attach_first-IsChain l xs ys dst tar c nz out,
    )

-- From any entry of a list link_entry_get_head finds the first one, on fuel above the number of
-- entries before it.
pub link_entry_get_head_lem :
    (l : Links) (xs ys : List ℕ) (tar fuel : ℕ)
    → IsChain l (xs ++ tar ∷ ys)
    → length xs < fuel
    → link_entry_get_head fuel l tar ≡ some (success, some (first (xs ++ tar ∷ ys) null))
unfolding link_entry_get_head
link_entry_get_head_lem l xs ys tar fuel c f =
    let back = ((Linked-append l xs (tar ∷ ys) null null).0 c.linked).1 in
    let found : (tar == null) ≡ false = ground (arith, back.0) in
    rw (found, walk_prev-first l xs ys tar fuel c.linked f)
