-- ===== src/DateTree/Link.antt =====
-- link_entry_to_date_time_tree of ffp_database.c, and lookup_date_time behind it.
use ffprinter.Prelude.{
  ℕ, ◌+◌, ◌%◌, ◌^◌, ◌<◌, ◌≡◌, ◌≢◌, refl, ◌∙◌, true, false, Option, some, List, [], ◌∷◌, ◌++◌, arith,
  ◌==◌, length, success,
}
use ffprinter.Links.{null, upd, first, NotIn}
use ffprinter.DateTree.{
  Mode, mode_of, get, Tm, Db, in_bounds, place_of, link_at, link_entry_to_date_time_tree,
  lookup_date_time,
}
use ffprinter.DateTree.YearList.{YearPath, Without, reach_year_found}
use ffprinter.DateTree.Laws.{AtHour, insert_in_hour, NotFirst, IsLinked, link_at-IsLinked}

-- The number of a mode in the source.
abbrev pub number : Mode → ℕ
number Mode.tod = 1
number Mode.tom = 2
number Mode.tusr = 3

mode_of-number : (m : Mode) → mode_of (number m) ≡ some m
unfolding mode_of
mode_of-number Mode.tod = refl
mode_of-number Mode.tom = refl
mode_of-number Mode.tusr = refl

-- The year as the trees keep it.
abbrev pub full_year : Tm → ℕ
full_year tm = (tm.tm_year + 1900) % 2 ^ 32

module _ (normalise : Tm → Option Tm) (fuel : ℕ) (fresh : Option ℕ) (db : Db) (target : ℕ)
    (m : Mode) (tm : Tm) (normal : normalise (get db.utc m target) ≡ some tm) where
  link_runs :
      link_entry_to_date_time_tree normalise fuel fresh db target (number m)
      ≡ link_at normalise fuel fresh db target m tm
  unfolding link_entry_to_date_time_tree
  link_runs = rw (mode_of-number m, link_entry_to_date_time_tree, normal)

  -- For a year that is in the tree, a time within the arrays (so not the 31st of a month, since
  -- tm_mday counts from 1), and an entry that is not earlier than the first one of its hour (or an
  -- hour with no entry), the entry gets into the list of the hour
  -- by its minute, behind all that are not later; its hour pointer, flag and normal time are set,
  -- and the year is still found. The fuel is above the numbers of years and of entries walked over.
  pub link_entry_to_date_time_tree-IsLinked :
      (xs ys zs : List ℕ) (y : ℕ)
      → in_bounds tm ≡ true
      → YearPath db.years (get db.roots m) (ys ++ y ∷ zs)
      → Without db.years (full_year tm) ys
      → db.years.year y ≡ full_year tm
      → AtHour db.years (get db.sort m) (place_of y tm) xs
      → target ≢ null
      → NotIn target xs
      → NotFirst (upd (get db.utc m) target tm) target xs
      → length ys < fuel
      → length xs < fuel
      → (db' : Db) × (link_entry_to_date_time_tree normalise fuel fresh db target (number m)
          ≡ some (success, db'))
        × IsLinked db' m y tm target xs ys
  link_entry_to_date_time_tree-IsLinked xs ys zs y bounds path without is h nz out nf f g =
      let (db', runs, k) =
        link_at-IsLinked normalise fuel fresh db target m tm (get db.roots m) y db.years xs ys zs
          (reach_year_found fuel fresh db.years ys zs y (full_year tm) (get db.roots m) path without
            is f)
          path without is bounds h nz out nf g in
      (db', link_runs ∙ runs, k)

head_at :
    (db : Db) (m : Mode) (y : ℕ) (tm : Tm) (target : ℕ) (xs ys : List ℕ)
    → IsLinked db m y tm target xs ys
    → db.years.head y tm.tm_mon tm.tm_mday tm.tm_hour
      ≡ first (insert_in_hour (get db.utc m) target xs) null
head_at db m y tm target [] ys k = k.chain.1
head_at db m y tm target (x ∷ xs) ys k = k.chain.1

-- The head of the hour of an entry that is linked.
pub IsLinked-lookup :
    (db : Db) (m : Mode) (y target fuel : ℕ) (tm : Tm) (xs ys : List ℕ)
    → IsLinked db m y tm target xs ys
    → m ≢ Mode.tom
    → y ≢ null
    → in_bounds tm ≡ true
    → length ys < fuel
    → lookup_date_time fuel db (number m) (full_year tm) tm.tm_mon tm.tm_mday tm.tm_hour
      ≡ some (success, some (first (insert_in_hour (get db.utc m) target xs) null))
unfolding lookup_date_time
IsLinked-lookup db Mode.tod y target fuel tm xs ys k n nz bounds f =
    let live : (y == null) ≡ false = ground arith in
    rw (k.found fuel f, live, bounds, head_at db Mode.tod y tm target xs ys k)
IsLinked-lookup db Mode.tom y target fuel tm xs ys k n nz bounds f = absurd (n refl)
IsLinked-lookup db Mode.tusr y target fuel tm xs ys k n nz bounds f =
    let live : (y == null) ≡ false = ground arith in
    rw (k.found fuel f, live, bounds, head_at db Mode.tusr y tm target xs ys k)
