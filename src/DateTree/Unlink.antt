-- ===== src/DateTree/Unlink.antt =====
-- unlink_entry_from_date_time_tree of ffp_database.c.
pub mod Laws
pub mod Outside
pub mod Whole
use ffprinter.Prelude.{
  ℕ, zero, suc, ◌+◌, ◌%◌, ◌^◌, Bool, true, false, not, ◌&&◌, ◌||◌, Option, none, some, ltb, ◌==◌,
  if◌then◌else◌, success, wrong_args, logic_error,
}
use ffprinter.Links.{null, upd, Links, set_next, set_prev}
use ffprinter.DateTree.{
  Mode, get, put, Tm, Place, Years, Db, hour_used, head_of, set_hour_used, set_head, set_day_used,
  set_month_used, in_bounds, place_of, new_year, mode_of,
}

-- The loop over the in_use flags of an array of `size` cells: is one of the first `rounds` set?
unfoldable pub any_used : (ℕ → Bool) → ℕ → ℕ → ℕ → Option Bool
any_used flag size i zero = some false
any_used flag size i (suc rounds) =
    let rest = any_used flag size (i + 1) rounds in
    if not (ltb i size) then none else if flag i then some true else rest

-- The object with the year `k` from `y` on, or null, and the object before it; `backup` is not set
-- at first.
unfoldable pub seek_year_pair : ℕ → Years → Option ℕ → ℕ → ℕ → Option (Option ℕ × ℕ)
seek_year_pair zero t backup y k = none
seek_year_pair (suc fuel) t backup y k =
    let rest = seek_year_pair fuel t (some y) (t.next y) k in
    if y == null then some (backup, null) else if t.year y == k then some (backup, y) else rest

-- The writes to the hour and to the links; an entry between two others is left where it is.
unfoldable pub take_out : Years → Links → Place → ℕ → Years × Links
take_out t l p target =
    if (l.prev target == null) && (l.next target == null)
    then (set_hour_used (set_head t p null) p false, l)
    else if l.prev target == null
    then (set_head t p (l.next target), set_next (set_prev l (l.next target) null) target null)
    else if l.next target == null
    then (t, set_prev (set_next l (l.prev target) null) target null)
    else (t, l)

-- The day, if its hours are not in use; the loop over the days reads 32 cells of 31.
unfoldable pub clear_day : Years → Place → Option Years
unfolding any_used
clear_day t p =
    if hour_used t p
    then some t
    else elim (any_used (t.hour_in_use p.in_year p.month p.day) 24 0 24) [
      | none ↦ none
      | some used ↦ some (if used then t else set_day_used t p false)
    ]

unfoldable pub clear_month : Years → Place → Option Years
unfolding any_used
clear_month t p =
    if t.day_in_use p.in_year p.month p.day
    then some t
    else elim (any_used (t.day_in_use p.in_year p.month) 31 0 32) [
      | none ↦ none
      | some used ↦ some (if used then t else set_month_used t p false)
    ]

-- The year, if its months are not in use: the tree without it, and the object wiped by the pool.
unfoldable pub clear_year : Db → Years → Option ℕ → Place → Option Db
unfolding any_used
clear_year db t backup p =
    if t.month_in_use p.in_year p.month
    then some (record db { years = t })
    else elim (any_used (t.month_in_use p.in_year) 12 0 12) [
      | none ↦ none
      | some true ↦ some (record db { years = t })
      | some false ↦
          let y = p.in_year in
          if y == db.roots.of_tod
          then some (record db { roots = put db.roots Mode.tod (t.next y); years = new_year t y 0 })
          else if y == db.roots.of_tusr
          then some
              (record db { roots = put db.roots Mode.tusr (t.next y); years = new_year t y 0 })
          else elim backup [
            | none ↦ none
            | some b ↦
                some
                  (record db { years = new_year (record t { next = upd t.next b (t.next y) }) y 0 })
          ]
    ]

-- For a mode that is not DATE_TOM, behind the test of the hour pointer.
unfoldable pub unlink_at : ℕ → Db → ℕ → Mode → Option (ℕ × Db)
unlink_at fuel db target m =
    let tm = get db.utc m target in
    elim (seek_year_pair fuel db.years none (get db.roots m) ((tm.tm_year + 1900) % 2 ^ 32)) [
      | none ↦ none
      | some (backup, y) ↦
          let p = place_of y tm in
          if y == null
          then some (logic_error, db)
          else if not (in_bounds tm)
          then none
          else if not (hour_used db.years p)
          then some (logic_error, db)
          else let (t, l) = take_out db.years (get db.sort m) p target in
            elim (clear_day t p) [
              | none ↦ none
              | some t₁ ↦ elim (clear_month t₁ p) [
                | none ↦ none
                | some t₂ ↦ elim (clear_year (record db { sort = put db.sort m l }) t₂ backup p) [
                  | none ↦ none
                  | some db' ↦ some (success, db')
                ]
              ]
            ]
    ]

unfoldable pub unlink_entry_from_date_time_tree : ℕ → Db → ℕ → ℕ → Option (ℕ × Db)
unfolding unlink_at
unlink_entry_from_date_time_tree fuel db target mode =
    if not (mode == 1) && not (mode == 3)
    then some (wrong_args, db)
    else let m = if mode == 1 then Mode.tod else Mode.tusr in
      elim (get db.hours m target) [
        | none ↦ some (success, db)
        | some hour ↦ unlink_at fuel db target m
      ]
