-- ===== src/EntryList.antt =====
-- The list of entries by link_prev and link_next: link_entry_clear, link_entry_tail,
-- link_entry_head, link_entry_after, link_entry_before, link_entry_get_head and
-- link_entry_get_tail of ffprinter.c.
-- `none` stands for a write through a null pointer, or for a walk that the fuel does not bound.
pub mod Insert
pub mod Ends
pub mod Attach
use ffprinter.Prelude.{
  ℕ, zero, suc, Bool, true, false, ◌||◌, Option, none, some, ◌==◌, if◌then◌else◌, success,
  wrong_args,
}
use ffprinter.Links.{null, Links, set_next, set_prev}
use mathlib.Core.Option

unfoldable pub link_entry_clear : Links → ℕ → ℕ × Links
link_entry_clear l tar =
    if tar == null then (wrong_args, l) else (success, set_next (set_prev l tar null) tar null)

-- `while (tmp->link_next) tmp = tmp->link_next;`
unfoldable pub walk_next : ℕ → Links → ℕ → Option ℕ
walk_next zero l tmp = none
walk_next (suc fuel) l tmp =
    let rest = walk_next fuel l (l.next tmp) in if l.next tmp == null then some tmp else rest

unfoldable pub walk_prev : ℕ → Links → ℕ → Option ℕ
walk_prev zero l tmp = none
walk_prev (suc fuel) l tmp =
    let rest = walk_prev fuel l (l.prev tmp) in if l.prev tmp == null then some tmp else rest

-- The writes behind the walk to the last node.
unfoldable pub attach_tail : Links → ℕ → ℕ → Links
attach_tail l tmp tar = set_next (set_prev (set_next l tmp tar) tar tmp) tar null

unfoldable pub link_entry_tail : ℕ → Links → ℕ → ℕ → Option (ℕ × Links)
unfolding walk_next attach_tail
link_entry_tail fuel l dst tar =
    if (dst == null) || (tar == null)
    then some (wrong_args, l)
    else if dst == tar
    then some (success, l)
    else Option.map (λ tmp. (success, attach_tail l tmp tar)) (walk_next fuel l dst)

unfoldable pub attach_head : Links → ℕ → ℕ → Links
attach_head l tmp tar = set_next (set_prev (set_prev l tmp tar) tar null) tar tmp

unfoldable pub link_entry_head : ℕ → Links → ℕ → ℕ → Option (ℕ × Links)
unfolding walk_prev attach_head
link_entry_head fuel l dst tar =
    if (dst == null) || (tar == null)
    then some (wrong_args, l)
    else if dst == tar
    then some (success, l)
    else Option.map (λ tmp. (success, attach_head l tmp tar)) (walk_prev fuel l dst)

unfoldable pub link_entry_after : Links → ℕ → ℕ → ℕ × Links
link_entry_after l dst tar =
    if (dst == null) || (tar == null)
    then (wrong_args, l)
    else if dst == tar
    then (success, l)
    else let tmp = l.next dst in
      let l₁ = set_next l dst tar in
      let l₂ = if tmp == null then l₁ else set_prev l₁ tmp tar in
      (success, set_next (set_prev l₂ tar dst) tar tmp)

-- The test of `tmp` is the wrong way round: the write goes through a null pointer.
unfoldable pub link_entry_before : Links → ℕ → ℕ → Option (ℕ × Links)
link_entry_before l dst tar =
    if (dst == null) || (tar == null)
    then some (wrong_args, l)
    else if dst == tar
    then some (success, l)
    else let tmp = l.prev dst in
      if tmp == null
      then none
      else some (success, set_next (set_prev (set_prev l dst tar) tar tmp) tar dst)

-- `ret` is not null: the code and the value written to `*ret`.
unfoldable pub link_entry_get_head : ℕ → Links → ℕ → Option (ℕ × Option ℕ)
unfolding walk_prev
link_entry_get_head fuel l tar =
    if tar == null
    then some (wrong_args, none)
    else Option.map (λ tmp. (success, some tmp)) (walk_prev fuel l tar)

unfoldable pub link_entry_get_tail : ℕ → Links → ℕ → Option (ℕ × Option ℕ)
unfolding walk_next
link_entry_get_tail fuel l tar =
    if tar == null
    then some (wrong_args, none)
    else Option.map (λ tmp. (success, some tmp)) (walk_next fuel l tar)
