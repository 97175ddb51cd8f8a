-- ===== src/DateTree/Unlink/Whole.antt =====
-- unlink_entry_from_date_time_tree of ffp_database.c where the hour stays in use, and where nothing
-- else of the month is in use.
use ffprinter.Prelude.{
  ℕ, zero, suc, ◌<◌, ◌≡◌, ◌≢◌, refl, sym, ap, ◌∙◌, true, false, Option, none, some, List, [], ◌∷◌,
  ◌++◌, arith, ◌==◌, length, success,
}
use ffprinter.Links.{null, Links, first, last, Linked, IsChain}
use ffprinter.Links.Laws.{Linked-append}
use mathlib.Core.Path.{subst}
use ffprinter.DateTree.{Mode, get, put, Place, Years, Db, hour_used, head_of, in_bounds, place_of}
use ffprinter.DateTree.YearList.{YearPath, Without}
use ffprinter.DateTree.Laws.{AtHour, get-put}
use ffprinter.DateTree.Link.{number, full_year}
use ffprinter.DateTree.Unlink.{
  seek_year_pair, take_out, clear_day, clear_month, clear_year, unlink_at,
  unlink_entry_from_date_time_tree,
}
use ffprinter.DateTree.Unlink.Outside.{unlink_at_outside}
use ffprinter.DateTree.Unlink.Laws.{take_out_first, take_out_last}

seek_year_pair_found :
    (t : Years) (xs zs : List ℕ) (y k a fuel : ℕ) (backup : Option ℕ)
    → YearPath t a (xs ++ y ∷ zs)
    → Without t k xs
    → t.year y ≡ k
    → length xs < fuel
    → (b : Option ℕ) × (seek_year_pair fuel t backup a k ≡ some (b, y))
unfolding seek_year_pair
seek_year_pair_found t xs zs y k a zero backup p w e f = absurd (omega arith)
seek_year_pair_found t [] zs y k a (suc fuel) backup p w e f =
    let live : (y == null) ≡ false = ground (arith, p.1) in
    let yes_k : (t.year y == k) ≡ true = ground arith in (backup, rw (p.0, live, yes_k))
seek_year_pair_found t (x ∷ xs) zs y k a (suc fuel) backup p w e f =
    let live : (x == null) ≡ false = ground (arith, p.1) in
    let no_k : (t.year x == k) ≡ false = ground (arith, w.0) in
    let (b, h) =
      seek_year_pair_found t xs zs y k (t.next x) fuel (some x) p.2 w.1 e (omega arith) in
    (b, rw (p.0, live, no_k) h)

-- The flags above an hour that is in use.
pub record IsMarked (t : Years) (p : Place) : Type 0 where
  pub hour : hour_used t p ≡ true
  pub day : t.day_in_use p.in_year p.month p.day ≡ true
  pub month : t.month_in_use p.in_year p.month ≡ true

take_out_flags :
    (t : Years) (l : Links) (p : Place) (target : ℕ)
    → ((take_out t l p target).0.day_in_use ≡ t.day_in_use)
      × ((take_out t l p target).0.month_in_use ≡ t.month_in_use)
unfolding take_out
take_out_flags t l p target = (ground arith, ground arith)

-- Where the hour stays in use, only the list of the hour changes.
unlink_at_runs :
    (fuel : ℕ) (db : Db) (target : ℕ) (m : Mode) (b : Option ℕ) (y : ℕ)
    → seek_year_pair fuel db.years none (get db.roots m) (full_year (get db.utc m target))
      ≡ some (b, y)
    → y ≢ null
    → in_bounds (get db.utc m target) ≡ true
    → IsMarked db.years (place_of y (get db.utc m target))
    → hour_used
        (take_out db.years (get db.sort m) (place_of y (get db.utc m target)) target).0
        (place_of y (get db.utc m target))
      ≡ true
    → unlink_at fuel db target m
      ≡ some (
        success,
        record db {
          sort =
              put db.sort m
                (take_out db.years (get db.sort m) (place_of y (get db.utc m target)) target).1;
          years = (take_out db.years (get db.sort m) (place_of y (get db.utc m target)) target).0;
        },
      )
unfolding unlink_at clear_day take_out clear_month clear_year
unlink_at_runs fuel db target m b y found ny bounds h used =
    let p = place_of y (get db.utc m target) in
    let live : (y == null) ≡ false = ground arith in
    let t = (take_out db.years (get db.sort m) p target).0 in
    let (d, o) = take_out_flags db.years (get db.sort m) p target in
    let day : t.day_in_use y p.month p.day ≡ true = ap (λ f. f y p.month p.day) d ∙ h.day in
    let month : t.month_in_use y p.month ≡ true = ap (λ f. f y p.month) o ∙ h.month in
    rw (found, unlink_at, live, bounds, h.hour)
      (rw (used, unlink_at) (rw (day, unlink_at) (rw (month, unlink_at))))

by_mode :
    (fuel : ℕ) (db : Db) (target : ℕ) (hour : Place) (m : Mode)
    → m ≢ Mode.tom
    → get db.hours m target ≡ some hour
    → unlink_entry_from_date_time_tree fuel db target (number m) ≡ unlink_at fuel db target m
unfolding unlink_entry_from_date_time_tree
by_mode fuel db target hour Mode.tod n h = rw (h, unlink_entry_from_date_time_tree)
by_mode fuel db target hour Mode.tom n h = absurd (n refl)
by_mode fuel db target hour Mode.tusr n h = rw (h, unlink_entry_from_date_time_tree)

stays :
    (t : Years) (l : Links) (p : Place) (target d x : ℕ)
    → l.prev target ≡ d
    → d ≢ null
    → l.next target ≡ x
    → x ≢ null
    → take_out t l p target ≡ (t, l)
unfolding take_out
stays t l p target d x e nd f nx =
    let a : (l.prev target == null) ≡ false = ground arith in
    let b : (l.next target == null) ≡ false = ground arith in rw (a, b)

last-not_null :
    (l : Links) (w : ℕ) (ws : List ℕ) (b a : ℕ) → Linked l b (w ∷ ws) a → last ws w ≢ null
last-not_null l w [] b a h = h.0
last-not_null l w (x ∷ ws) b a h = last-not_null l x ws w a h.3

module _ (fuel : ℕ) (db : Db) (target : ℕ) (m : Mode) (y : ℕ) (hour : Place) (ys zs : List ℕ)
    (allowed : m ≢ Mode.tom) (linked : get db.hours m target ≡ some hour)
    (path : YearPath db.years (get db.roots m) (ys ++ y ∷ zs))
    (without : Without db.years (full_year (get db.utc m target)) ys)
    (is_year : db.years.year y ≡ full_year (get db.utc m target))
    (bounds : in_bounds (get db.utc m target) ≡ true) (enough : length ys < fuel) where
  abbrev place : Place
  place = place_of y (get db.utc m target)

  unlink_runs :
      unlink_entry_from_date_time_tree fuel db target (number m) ≡ unlink_at fuel db target m
  unlink_runs = by_mode fuel db target hour m allowed linked

  live : (xs zs : List ℕ) (a : ℕ) → YearPath db.years a (xs ++ y ∷ zs) → y ≢ null
  live [] zs a p = p.1
  live (x ∷ xs) zs a p = live xs zs (db.years.next x) p.2

  abbrev changed : Db
  changed = record db {
    sort = put db.sort m (take_out db.years (get db.sort m) place target).1;
    years = (take_out db.years (get db.sort m) place target).0;
  }

  changed_runs :
      IsMarked db.years place
      → hour_used (take_out db.years (get db.sort m) place target).0 place ≡ true
      → unlink_entry_from_date_time_tree fuel db target (number m) ≡ some (success, changed)
  changed_runs h used =
      let (b, found) =
        seek_year_pair_found db.years ys zs y (full_year (get db.utc m target)) (get db.roots m)
          fuel none path without is_year enough in
      unlink_runs
      ∙ unlink_at_runs fuel db target m b y found (live ys zs (get db.roots m) path) bounds h used

  -- For a linked entry that is the first one of several in its hour, in a tree whose flags above
  -- the hour are set, unlink_entry_from_date_time_tree takes it out of the list of the hour, which
  -- then begins with the next entry. DATE_TOM is excluded.
  pub unlink_entry_from_date_time_tree_first :
      (x : ℕ) (xs : List ℕ)
      → IsMarked db.years place
      → AtHour db.years (get db.sort m) place (target ∷ x ∷ xs)
      → (db' : Db) × (unlink_entry_from_date_time_tree fuel db target (number m)
          ≡ some (success, db'))
        × AtHour db'.years (get db'.sort m) place (x ∷ xs)
  unlink_entry_from_date_time_tree_first x xs h c =
      let k = take_out_first db.years (get db.sort m) place target x xs c in
      (
        changed,
        changed_runs h k.0,
        rw (get-put db.sort m (take_out db.years (get db.sort m) place target).1) k,
      )

  -- For one that is the last of several, the list ends with the entry before it.
  pub unlink_entry_from_date_time_tree_last :
      (d : ℕ) (xs : List ℕ)
      → IsMarked db.years place
      → (head_of db.years place ≡ first (xs ++ d ∷ []) null)
      → IsChain (get db.sort m) ((xs ++ d ∷ []) ++ target ∷ [])
      → (db' : Db) × (unlink_entry_from_date_time_tree fuel db target (number m)
          ≡ some (success, db'))
        × (head_of db'.years place ≡ first (xs ++ d ∷ []) null)
        × IsChain (get db'.sort m) (xs ++ d ∷ [])
  unlink_entry_from_date_time_tree_last d xs h at c =
      let k = take_out_last db.years (get db.sort m) place target d xs h.hour at c in
      (
        changed,
        changed_runs h k.0,
        k.1,
        rw (get-put db.sort m (take_out db.years (get db.sort m) place target).1) k.2,
      )

  -- For the only linked entry of its month, and not with DATE_TOM, which is refused, it reads behind the array of the days.
  pub unlink_entry_from_date_time_tree_outside :
      AtHour db.years (get db.sort m) place (target ∷ [])
      → ((h : ℕ) → h ≢ place.hour → db.years.hour_in_use y place.month place.day h ≡ false)
      → ((d : ℕ) → d ≢ place.day → db.years.day_in_use y place.month d ≡ false)
      → unlink_entry_from_date_time_tree fuel db target (number m) ≡ none
  unlink_entry_from_date_time_tree_outside c hours days =
      let (b, found) =
        seek_year_pair_found db.years ys zs y (full_year (get db.utc m target)) (get db.roots m)
          fuel none path without is_year enough in
      unlink_runs
      ∙ unlink_at_outside fuel db target m b y found (live ys zs (get db.roots m) path) bounds c
          hours days

  -- For a linked entry that stands between two others in its hour, it succeeds and changes nothing:
  -- the entry stays in the list.
  pub unlink_entry_from_date_time_tree_middle :
      (w x : ℕ) (ws xs : List ℕ)
      → IsMarked db.years place
      → AtHour db.years (get db.sort m) place (w ∷ ws ++ target ∷ x ∷ xs)
      → (db' : Db) × (unlink_entry_from_date_time_tree fuel db target (number m)
          ≡ some (success, db'))
        × AtHour db'.years (get db'.sort m) place (w ∷ ws ++ target ∷ x ∷ xs)
  unlink_entry_from_date_time_tree_middle w x ws xs h c =
      let l = get db.sort m in
      let (front, back) = (Linked-append l (w ∷ ws) (target ∷ x ∷ xs) null null).0 c.2.linked in
      let e =
        stays db.years l place target (last ws w) x back.1 (last-not_null l w ws null target front)
          back.2 back.3.0 in
      let at = subst (λ q. AtHour q.0 q.1 place (w ∷ ws ++ target ∷ x ∷ xs)) (sym e) c in
      (changed, changed_runs h at.0, rw (get-put db.sort m (take_out db.years l place target).1) at)
