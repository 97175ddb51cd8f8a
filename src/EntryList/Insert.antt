-- ===== src/EntryList/Insert.antt =====
-- link_entry_after and link_entry_before of ffprinter.c on a whole list.
use ffprinter.Prelude.{
  ℕ, ◌≡◌, ◌≢◌, refl, sym, ◌∙◌, false, none, some, List, [], ◌∷◌, ◌++◌, arith, ◌==◌, if◌then◌else◌,
  success, ◌⊎◌, inl, inr,
}
use mathlib.Core.List.{append_assoc}
use ffprinter.Links.{
  null, upd, Links, set_next, set_prev, first, last, Linked, NotIn, Distinct, IsChain,
}
use ffprinter.Links.Laws.{upd-ne, upd_self, Linked-append, NotIn-append, Distinct-insert}
use ffprinter.Links.Splice.{
  SameBut, SameBut-SameOn, Spliced, splice_end, splice_middle, NotIn-of_Distinct,
}
use ffprinter.EntryList.{link_entry_after, link_entry_before}

-- The fields behind link_entry_after.
abbrev after_links : Links → ℕ → ℕ → ℕ → Links
after_links l dst tar tmp =
    let l₁ = set_next l dst tar in
    let l₂ = if tmp == null then l₁ else set_prev l₁ tmp tar in
    set_next (set_prev l₂ tar dst) tar tmp

link_entry_after-after_links :
    (l : Links) (dst tar : ℕ)
    → dst ≢ null
    → tar ≢ null
    → dst ≢ tar
    → link_entry_after l dst tar ≡ (success, after_links l dst tar (l.next dst))
unfolding link_entry_after
link_entry_after-after_links l dst tar hd ht ne =
    let d : (dst == null) ≡ false = ground arith in
    let t : (tar == null) ≡ false = ground arith in
    let n : (dst == tar) ≡ false = ground arith in rw (d, t, n)

module _ (l : Links) (dst tar tmp : ℕ) where
  after_links-SameBut : SameBut l (after_links l dst tar tmp) dst tar tmp
  after_links-SameBut x hp hq hr = (ground arith, ground arith)

  after_links-Spliced :
      (ys : List ℕ) (a : ℕ)
      → tmp ≡ first ys a
      → dst ≢ tar
      → tmp ≢ dst
      → Spliced l (after_links l dst tar tmp) dst tar ys a
  after_links-Spliced ys a e ne ne' = record {
    next_d = ground arith;
    prev_d = ground arith;
    next_t = ground arith;
    prev_t = ground arith;
  }

-- On a list of any kind, from `b` to `a`; the successor of the last node is null.
after_links-Linked :
    (l : Links) (xs ys : List ℕ) (dst tar b : ℕ)
    → Linked l b (xs ++ dst ∷ ys) null
    → Distinct (xs ++ dst ∷ ys)
    → tar ≢ null
    → NotIn tar (xs ++ dst ∷ ys)
    → Linked (after_links l dst tar (first ys null)) b (xs ++ dst ∷ tar ∷ ys) null
after_links-Linked l xs [] dst tar b h dis nz out =
    let m = after_links l dst tar null in
    let (fresh, fresh') = (NotIn-append tar xs (dst ∷ [])).0 out in
    let (apart, _) = NotIn-of_Distinct xs [] dst dis in
    let nzd = ((Linked-append l xs (dst ∷ []) b null).0 h).1.0 in
    splice_end l m dst tar xs b null h nz
      (SameBut-SameOn l m dst tar tar xs (λ x p q r. (ground arith, ground arith)) apart fresh
        fresh)
      (after_links-Spliced l dst tar null [] null refl fresh'.0 (λ e. nzd (sym e)))
after_links-Linked l xs (y ∷ ys) dst tar b h dis nz out =
    let m = after_links l dst tar y in
    let (fresh, fresh') = (NotIn-append tar xs (dst ∷ y ∷ ys)).0 out in
    let (apart, apart') = NotIn-of_Distinct xs (y ∷ ys) dst dis in
    let (apart_y, apart_y') = NotIn-of_Distinct (xs ++ dst ∷ []) ys y (rw append_assoc dis) in
    let nzy = ((Linked-append l xs (dst ∷ y ∷ ys) b null).0 h).1.3.0 in
    let ney : y ≢ dst = apart'.0 in
    let net : y ≢ tar = fresh'.1.0 in
    splice_middle l m dst tar xs y ys b null h nz
      (SameBut-SameOn l m dst tar y xs (after_links-SameBut l dst tar y) apart fresh
        ((NotIn-append y xs (dst ∷ [])).0 apart_y).0)
      (SameBut-SameOn l m dst tar y ys (after_links-SameBut l dst tar y) apart'.1 fresh'.1.1
        apart_y')
      (after_links-Spliced l dst tar y (y ∷ ys) null refl fresh'.0 ney) (ground arith)
      (ground arith)

-- link_entry_after puts the new entry right behind the given one, and keeps the order of all others.
pub link_entry_after-IsChain :
    (l : Links) (xs ys : List ℕ) (dst tar : ℕ)
    → IsChain l (xs ++ dst ∷ ys)
    → tar ≢ null
    → NotIn tar (xs ++ dst ∷ ys)
    → ((link_entry_after l dst tar).0 ≡ success)
      × IsChain (link_entry_after l dst tar).1 (xs ++ dst ∷ tar ∷ ys)
link_entry_after-IsChain l xs ys dst tar c nz out =
    let (fresh, fresh') = (NotIn-append tar xs (dst ∷ ys)).0 out in
    let (nzd, _, nextd, _) = ((Linked-append l xs (dst ∷ ys) null null).0 c.linked).1 in
    rw (link_entry_after-after_links l dst tar nzd nz fresh'.0, nextd)
      (
        refl,
        record {
          linked = after_links-Linked l xs ys dst tar null c.linked c.distinct nz out;
          distinct = rw append_assoc at (
              (Distinct-insert (xs ++ dst ∷ []) ys tar).1
                (rw append_assoc c.distinct, rw append_assoc out));
        },
      )

link_entry_before-runs :
    (l : Links) (dst tar : ℕ)
    → dst ≢ null
    → tar ≢ null
    → dst ≢ tar
    → l.prev dst ≢ null
    → link_entry_before l dst tar
      ≡ some (success, set_next (set_prev (set_prev l dst tar) tar (l.prev dst)) tar dst)
unfolding link_entry_before
link_entry_before-runs l dst tar hd ht ne hp =
    let d : (dst == null) ≡ false = ground arith in
    let t : (tar == null) ≡ false = ground arith in
    let n : (dst == tar) ≡ false = ground arith in
    let p : (l.prev dst == null) ≡ false = ground arith in rw (d, t, n, p)

pub last-Linked :
    (l : Links) (x : ℕ) (xs : List ℕ) (b a t : ℕ)
    → Linked l b (x ∷ xs) a
    → NotIn t (x ∷ xs)
    → (last xs x ≢ 0) × (l.next (last xs x) ≡ a) × (last xs x ≢ t)
last-Linked l x [] b a t h out = (h.0, h.2, out.0)
last-Linked l x (y ∷ xs) b a t h out = last-Linked l y xs x a t h.3 out.1

-- link_entry_before goes through a null pointer at the head of a list. Elsewhere the list by
-- link_next still leads past the new entry, which only link_prev reaches.
pub link_entry_before_broken :
    (l : Links) (xs ys : List ℕ) (dst tar : ℕ)
    → IsChain l (xs ++ dst ∷ ys)
    → tar ≢ null
    → NotIn tar (xs ++ dst ∷ ys)
    → ((xs ≡ []) × (link_entry_before l dst tar ≡ none))
      ⊎ ((m : Links) × (link_entry_before l dst tar ≡ some (success, m))
          × (m.next (last xs null) ≡ dst)
          × (m.prev dst ≡ tar)
          × (m.next tar ≡ dst))
link_entry_before_broken l [] ys dst tar c nz out =
    inl (refl, unfold link_entry_before in ground (arith, c.linked.0, c.linked.1, out.0))
link_entry_before_broken l (x ∷ xs) ys dst tar c nz out =
    let (fresh, fresh') = (NotIn-append tar (x ∷ xs) (dst ∷ ys)).0 out in
    let (front, back) = (Linked-append l (x ∷ xs) (dst ∷ ys) null null).0 c.linked in
    let end = last-Linked l x xs null dst tar front fresh in
    inr (
      set_next (set_prev (set_prev l dst tar) tar (l.prev dst)) tar dst,
      link_entry_before-runs l dst tar back.0 nz fresh'.0 (λ e. end.0 (sym back.1 ∙ e)),
      upd-ne l.next tar dst (last xs x) (λ e. end.2 (sym e)) ∙ end.1,
      upd-ne (upd l.prev dst tar) tar (l.prev dst) dst (λ e. fresh'.0 (sym e))
          ∙ upd_self l.prev dst tar,
      upd_self l.next tar dst,
    )
