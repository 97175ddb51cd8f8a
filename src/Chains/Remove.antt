-- ===== src/Chains/Remove.antt =====
-- del_…_from_…_chain of ffprinter_function_template.h, for an object that is not the only one of its
-- chain.
use ffprinter.Prelude.{
  ℕ, suc, ◌<◌, ◌≡◌, refl, sym, ap, ◌∙◌, true, false, List, [], ◌∷◌, ◌++◌, arith, ◌==◌,
  if◌then◌else◌, length, length-append, Bool-cases, inl, inr,
}
use mathlib.Core.List.{append_assoc}
use mathlib.Core.Path.{subst}
use ffprinter.Links.{null, upd, set_next, set_prev, first, last, Distinct, IsChain}
use ffprinter.Links.Laws.{
  Linked-append, relink_last, relink_first, last-append, Distinct-append, upd_self, Apart-cons,
  frame, set_next-SameOn, set_prev-SameOn,
}
use ffprinter.Links.Splice.{NotIn-of_Distinct}
use ffprinter.Chains.{Chains}

-- The writes, with the chain node `tran` of `tar`. Its `number` is not written.
unfoldable pub unlink_from_chain : Chains → ℕ → ℕ → Chains
unlink_from_chain c tran tar =
    let before = c.links.prev tar in
    let behind = c.links.next tar in
    if before == null
    then record c { head_tar = upd c.head_tar tran behind; links = set_prev c.links behind null }
    else if behind == null
    then record c { tail_tar = upd c.tail_tar tran before; links = set_next c.links before null }
    else record c { links = set_prev (set_next c.links before behind) behind before }

-- The objects `ws` in their order, of which the node `tran` knows both ends.
pub record Ends (c : Chains) (tran : ℕ) (ws : List ℕ) : Type 0 where
  pub chain : IsChain c.links ws
  pub head : c.head_tar tran ≡ first ws null
  pub tail : c.tail_tar tran ≡ last ws null

unlink_first :
    (c : Chains) (tran tar y : ℕ) (ys : List ℕ)
    → Ends c tran (tar ∷ y ∷ ys)
    → Ends (unlink_from_chain c tran tar) tran (y ∷ ys)
unfolding unlink_from_chain
unlink_first c tran tar y ys h =
    let l = h.chain.linked in
    let d = h.chain.distinct in
    let a : (c.links.prev tar == null) ≡ true = ground (arith, l.1) in
    let e : c.links.next tar ≡ y = l.2 in
    rw (a, e)
      (record {
        chain = record {
          linked = relink_first c.links y ys tar null null l.3 d.1.0;
          distinct = d.1;
        };
        head = upd_self c.head_tar tran y;
        tail = h.tail;
      })

append_nil : (xs : List ℕ) → xs ++ [] ≡ xs
append_nil [] = refl
append_nil (x ∷ xs) = ap (λ zs. x ∷ zs) (append_nil xs)

first-before :
    (xs : List ℕ) (d : ℕ) (ys : List ℕ)
    → first ((xs ++ d ∷ []) ++ ys) null ≡ first (xs ++ d ∷ []) null
first-before [] d ys = refl
first-before (x ∷ xs) d ys = refl

unlink_last :
    (c : Chains) (tran tar d : ℕ) (xs : List ℕ)
    → Ends c tran ((xs ++ d ∷ []) ++ tar ∷ [])
    → Ends (unlink_from_chain c tran tar) tran (xs ++ d ∷ [])
unfolding unlink_from_chain
unlink_last c tran tar d xs h =
    let (front, back) =
      (Linked-append c.links (xs ++ d ∷ []) (tar ∷ []) null null).0 h.chain.linked in
    let dis = ((Distinct-append (xs ++ d ∷ []) (tar ∷ [])).0 h.chain.distinct).0 in
    let (apart_d, _) = NotIn-of_Distinct xs [] d dis in
    let nzd = ((Linked-append c.links xs (d ∷ []) null tar).0 front).1.0 in
    let before : c.links.prev tar ≡ d = back.1 ∙ last-append xs (d ∷ []) null in
    let a : (c.links.prev tar == null) ≡ false = ground arith in
    let b : (c.links.next tar == null) ≡ true = ground (arith, back.2) in
    rw (a, b, before)
      (record {
        chain = record {
          linked = relink_last c.links xs d null tar null front apart_d;
          distinct = dis;
        };
        head = h.head ∙ first-before xs d (tar ∷ []);
        tail = upd_self c.tail_tar tran d ∙ sym (last-append xs (d ∷ []) null);
      })

unlink_middle :
    (c : Chains) (tran tar d y : ℕ) (xs ys : List ℕ)
    → Ends c tran ((xs ++ d ∷ []) ++ tar ∷ y ∷ ys)
    → Ends (unlink_from_chain c tran tar) tran ((xs ++ d ∷ []) ++ y ∷ ys)
unfolding unlink_from_chain
unlink_middle c tran tar d y xs ys h =
    let (front, back) =
      (Linked-append c.links (xs ++ d ∷ []) (tar ∷ y ∷ ys) null null).0 h.chain.linked in
    let before : c.links.prev tar ≡ d = back.1 ∙ last-append xs (d ∷ []) null in
    let behind : c.links.next tar ≡ y = back.2 in
    let nzd = ((Linked-append c.links xs (d ∷ []) null tar).0 front).1.0 in
    let nzy = back.3.0 in
    let a : (c.links.prev tar == null) ≡ false = ground arith in
    let b : (c.links.next tar == null) ≡ false = ground arith in
    let parts = (Distinct-append (xs ++ d ∷ []) (tar ∷ y ∷ ys)).0 h.chain.distinct in
    let dis : Distinct ((xs ++ d ∷ []) ++ y ∷ ys) =
      (Distinct-append (xs ++ d ∷ []) (y ∷ ys)).1
        (parts.0, parts.1.1, ((Apart-cons (xs ++ d ∷ []) (y ∷ ys) tar).0 parts.2).1) in
    let apart_y = (NotIn-of_Distinct (xs ++ d ∷ []) ys y dis).0 in
    let (apart_d, apart_d') = NotIn-of_Distinct xs (y ∷ ys) d (rw append_assoc at dis) in
    let l₁ = set_next c.links d y in
    let left = relink_last c.links xs d null tar y front apart_d in
    let right =
      frame c.links l₁ tar null (y ∷ ys) back.3 (set_next-SameOn c.links d y (y ∷ ys) apart_d') in
    let m = set_prev l₁ y d in
    rw (a, b, before, behind)
      (record {
        chain = record {
          linked = (Linked-append m (xs ++ d ∷ []) (y ∷ ys) null null).1 (
            frame l₁ m null y (xs ++ d ∷ []) left (set_prev-SameOn l₁ y d (xs ++ d ∷ []) apart_y),
            rw (last-append xs (d ∷ []) null) (relink_first l₁ y ys tar null d right parts.1.1.0),
          );
          distinct = dis;
        };
        head = h.head ∙ first-before xs d (tar ∷ y ∷ ys) ∙ sym (first-before xs d (y ∷ ys));
        tail =
            h.tail
            ∙ last-append (xs ++ d ∷ []) (tar ∷ y ∷ ys) null
            ∙ sym (last-append (xs ++ d ∷ []) (y ∷ ys) null);
      })

behind_some :
    (c : Chains) (tran tar d : ℕ) (xs ys : List ℕ)
    → Ends c tran ((xs ++ d ∷ []) ++ tar ∷ ys)
    → Ends (unlink_from_chain c tran tar) tran ((xs ++ d ∷ []) ++ ys)
behind_some c tran tar d xs [] h = rw append_nil (unlink_last c tran tar d xs h)
behind_some c tran tar d xs (y ∷ ys) h = unlink_middle c tran tar d y xs ys h

snoc : (x : ℕ) (xs : List ℕ) → (ds : List ℕ) × (d : ℕ) × (x ∷ xs ≡ ds ++ d ∷ [])
snoc x [] = ([], x, refl)
snoc x (y ∷ xs) = let (ds, d, e) = snoc y xs in (x ∷ ds, d, ap (λ zs. x ∷ zs) e)

unlink_from_chain-Ends :
    (c : Chains) (tran tar : ℕ) (xs ys : List ℕ)
    → Ends c tran (xs ++ tar ∷ ys)
    → 0 < length (xs ++ ys)
    → Ends (unlink_from_chain c tran tar) tran (xs ++ ys)
unlink_from_chain-Ends c tran tar [] [] h lt = absurd (omega arith)
unlink_from_chain-Ends c tran tar [] (y ∷ ys) h lt = unlink_first c tran tar y ys h
unlink_from_chain-Ends c tran tar (x ∷ xs) ys h lt =
    let (ds, d, e) = snoc x xs in
    subst (λ zs. Ends (unlink_from_chain c tran tar) tran (zs ++ ys)) (sym e)
      (behind_some c tran tar d ds ys (subst (λ zs. Ends c tran (zs ++ tar ∷ ys)) e h))

unlink_from_chain_kept :
    (c : Chains) (tran tar p : ℕ)
    → ((unlink_from_chain c tran tar).number tran ≡ c.number tran)
      × ((unlink_from_chain c tran tar).node p ≡ c.node p)
unfolding unlink_from_chain
unlink_from_chain_kept c tran tar p = elim (Bool-cases (c.links.prev tar == null)) [
  | inl none_before ↦ rw none_before (refl, refl)
  | inr some_before ↦ elim (Bool-cases (c.links.next tar == null)) [
    | inl none_behind ↦ rw (some_before, none_behind) (refl, refl)
    | inr some_behind ↦ rw (some_before, some_behind) (refl, refl)
  ]
]

-- An object that is not the only one of its chain is taken out of it, wherever it stands: the order of the others is kept,
-- and the chain node knows both ends of them. But where the node counted the objects, its number is then one too high,
-- and the pointer of the object taken out to its node is not changed.
pub unlink_from_chain_lem :
    (c : Chains) (tran tar : ℕ) (xs ys : List ℕ)
    → Ends c tran (xs ++ tar ∷ ys)
    → c.number tran ≡ length (xs ++ tar ∷ ys)
    → 0 < length (xs ++ ys)
    → Ends (unlink_from_chain c tran tar) tran (xs ++ ys)
      × ((unlink_from_chain c tran tar).number tran ≡ suc (length (xs ++ ys)))
      × ((unlink_from_chain c tran tar).node tar ≡ c.node tar)
unlink_from_chain_lem c tran tar xs ys h count more =
    let (same, node) = unlink_from_chain_kept c tran tar tar in
    (
      unlink_from_chain-Ends c tran tar xs ys h more,
      omega (arith, same, count, length-append xs (tar ∷ ys), length-append xs ys),
      node,
    )
