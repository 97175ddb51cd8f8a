-- ===== src/Chains.antt =====
-- The chains of objects with one key of ffprinter_function_template.h, for one key and one type of
-- objects: add_…_to_…_chain. A chain node (t_…_to_…) and its objects are addresses.
-- Of the deletion, Remove has the part for an object that is not the only one.
pub mod Add
pub mod Remove
use ffprinter.Prelude.{
  ℕ, ◌+◌, ◌%◌, ◌^◌, Bool, true, false, not, ◌&&◌, ◌||◌, Option, none, some, List, [], ◌∷◌, ◌==◌,
  if◌then◌else◌, success, wrong_args,
}
use ffprinter.Links.{null, upd, Links, set_next, set_prev}

-- The key and the links of the objects, the chain node of each, and the fields of the chain nodes.
pub record Chains : Type 0 where
  pub str_name : ℕ → List ℕ
  pub links : Links
  pub node : ℕ → ℕ
  pub head_tar : ℕ → ℕ
  pub tail_tar : ℕ → ℕ
  pub number : ℕ → ℕ

-- `strcmp` gives 0.
unfoldable pub same_str : List ℕ → List ℕ → Bool
same_str [] [] = true
same_str [] (d ∷ t) = false
same_str (c ∷ s) [] = false
same_str (c ∷ s) (d ∷ t) = (c == d) && same_str s t

-- The writes, with the chain node `tran` of `dst`.
unfoldable pub append_to_chain : Chains → ℕ → ℕ → Chains
append_to_chain c tran tar =
    let tail = c.tail_tar tran in
    record {
      str_name = c.str_name;
      links = set_next (set_next (set_prev c.links tar tail) tail tar) tar null;
      node = upd c.node tar tran;
      head_tar = c.head_tar;
      tail_tar = upd c.tail_tar tran tar;
      number = upd c.number tran ((c.number tran + 1) % 2 ^ 32);
    }

-- `none` stands for an access through a null pointer.
unfoldable pub add_to_chain : Chains → ℕ → ℕ → Option (ℕ × Chains)
unfolding same_str append_to_chain
add_to_chain c dst tar =
    if (dst == null) || (tar == null)
    then some (wrong_args, c)
    else if not (same_str (c.str_name dst) (c.str_name tar))
    then some (wrong_args, c)
    else let tran = c.node dst in
      if (tran == null) || (c.tail_tar tran == null)
      then none
      else some (success, append_to_chain c tran tar)
