-- ===== src/Chains/Add.antt =====
-- add_…_to_…_chain keeps a chain well formed.
use ffprinter.Prelude.{
  ℕ, ◌+◌, ◌%◌, ◌^◌, ◌<◌, ◌≡◌, ◌≢◌, sym, ◌∙◌, true, false, some, List, [], ◌∷◌, ◌++◌, arith, length,
  All, length-append, ◌==◌, success,
}
use ffprinter.Links.{null, upd, last, NotIn, IsChain}
use ffprinter.Links.Laws.{last-append}
use ffprinter.EntryList.{attach_tail}
use ffprinter.EntryList.Attach.{attach_last-IsChain}
use ffprinter.EntryList.Insert.{last-Linked}
use ffprinter.Chains.{Chains, same_str, append_to_chain, add_to_chain}

-- The objects `x ∷ xs` are the chain of the node `tran`, which counts them and knows both ends.
pub record IsChainOf (c : Chains) (tran x : ℕ) (xs : List ℕ) : Type 0 where
  pub linked : IsChain c.links (x ∷ xs)
  pub known : All (λ p. c.node p ≡ tran) (x ∷ xs)
  pub head : c.head_tar tran ≡ x
  pub tail : c.tail_tar tran ≡ last xs x
  pub counted : c.number tran ≡ length (x ∷ xs)

upd_at : (f : ℕ → ℕ) (p v : ℕ) → upd f p v p ≡ v
upd_at f p v = ground arith

All-upd :
    (f : ℕ → ℕ) (tar tran : ℕ) (xs : List ℕ)
    → All (λ p. f p ≡ tran) xs
    → All (λ p. upd f tar tran p ≡ tran) (xs ++ tar ∷ [])
All-upd f tar tran [] h = (ground arith, tt)
All-upd f tar tran (x ∷ xs) h = (ground (arith, h.0), All-upd f tar tran xs h.1)

append_to_chain-IsChainOf :
    (c : Chains) (tran x tar : ℕ) (xs : List ℕ)
    → IsChainOf c tran x xs
    → tar ≢ null
    → NotIn tar (x ∷ xs)
    → length (x ∷ xs) + 1 < 2 ^ 32
    → IsChainOf (append_to_chain c tran tar) tran x (xs ++ tar ∷ [])
unfolding append_to_chain attach_tail
append_to_chain-IsChainOf c tran x tar xs h nz out few =
    let n = length-append xs (tar ∷ []) in
    let k = h.counted in
    record {
      linked = rw (h.tail) (attach_last-IsChain c.links x xs tar h.linked nz out);
      known = All-upd c.node tar tran (x ∷ xs) h.known;
      head = h.head;
      tail = upd_at c.tail_tar tran tar ∙ sym (last-append xs (tar ∷ []) x);
      counted = upd_at c.number tran ((c.number tran + 1) % 2 ^ 32) ∙ omega arith;
    }

-- For an object with the key of `dst`, which the chain knows, that is not in the chain yet,
-- add_…_to_…_chain succeeds while the chain has fewer than 2 ^ 32 - 1 objects: the object
-- is the last one of the chain, the order of the others is kept, and the chain node still counts
-- them and knows both ends.
pub add_to_chain-IsChainOf :
    (c : Chains) (tran dst tar x : ℕ) (xs : List ℕ)
    → IsChainOf c tran x xs
    → c.node dst ≡ tran
    → tran ≢ null
    → dst ≢ null
    → tar ≢ null
    → NotIn tar (x ∷ xs)
    → same_str (c.str_name dst) (c.str_name tar) ≡ true
    → length (x ∷ xs) + 1 < 2 ^ 32
    → (d : Chains) × (add_to_chain c dst tar ≡ some (success, d))
      × IsChainOf d tran x (xs ++ tar ∷ [])
unfolding add_to_chain
add_to_chain-IsChainOf c tran dst tar x xs h is nzt nzd nz out key few =
    let d : (dst == null) ≡ false = ground arith in
    let t : (tar == null) ≡ false = ground arith in
    let n : (tran == null) ≡ false = ground arith in
    let end = (last-Linked c.links x xs null null tar h.linked.linked out).0 in
    let e : (last xs x == null) ≡ false = ground arith in
    (
      append_to_chain c tran tar,
      rw (d, t, key, is, n, h.tail, e),
      append_to_chain-IsChainOf c tran x tar xs h nz out few,
    )
