-- ===== src/DateTree.antt =====
-- The date and time trees of ffp_database.c: link_entry_to_date_time_tree,
-- unlink_entry_from_date_time_tree and lookup_date_time.
-- timegm and gmtime are the argument `normalise` (`none` for -1); a new dtt_year object, wiped, is
-- the argument `fresh` (`none` if the pool gives none). An int is its bit pattern. `none` as a result
-- stands for an access through a null or unset pointer or out of an array, or for a walk that the
-- fuel does not bound.
pub mod Unlink
pub mod Sorted
pub mod YearList
pub mod Laws
pub mod Link
use ffprinter.Prelude.{
  ℕ, zero, suc, ◌+◌, ◌%◌, ◌^◌, Bool, true, false, not, ◌&&◌, ◌||◌, Option, none, some, List, [],
  ◌∷◌, ltb, ◌==◌, if◌then◌else◌, success, wrong_args, find_fail, invalid_date,
}
use ffprinter.Links.{null, upd, Links, set_next, set_prev}

-- DATE_TOD, DATE_TOM and DATE_TUSR.
pub data Mode : Type 0 where
  tod tom tusr : Mode

unfoldable pub mode_of : ℕ → Option Mode
mode_of mode =
    if mode == 1
    then some tod
    else if mode == 2
    then some tom
    else if mode == 3
    then some tusr
    else none

-- A value for each mode, as the fields with the prefixes tod, tom and tusr.
pub record PerMode (A : Type 0) : Type 0 where
  pub of_tod : A
  pub of_tom : A
  pub of_tusr : A

abbrev pub get : {A : Type 0} → PerMode A → Mode → A
get p tod = p.of_tod
get p tom = p.of_tom
get p tusr = p.of_tusr

abbrev pub put : {A : Type 0} → PerMode A → Mode → A → PerMode A
put p tod v = record p { of_tod = v }
put p tom v = record p { of_tom = v }
put p tusr v = record p { of_tusr = v }

pub record Tm : Type 0 where
  pub tm_min : ℕ
  pub tm_hour : ℕ
  pub tm_mday : ℕ
  pub tm_mon : ℕ
  pub tm_year : ℕ

-- The place of an hour: the dtt_year object, and the three indices.
pub record Place : Type 0 where
  pub in_year : ℕ
  pub month : ℕ
  pub day : ℕ
  pub hour : ℕ

-- The dtt_year objects by address, the in_use flags and the heads of the hours.
pub record Years : Type 0 where
  pub year : ℕ → ℕ
  pub next : ℕ → ℕ
  pub month_in_use : ℕ → ℕ → Bool
  pub day_in_use : ℕ → ℕ → ℕ → Bool
  pub hour_in_use : ℕ → ℕ → ℕ → ℕ → Bool
  pub head : ℕ → ℕ → ℕ → ℕ → ℕ

-- The fields of the entries that the trees use: the times, the links …_prev_sort_min and
-- …_next_sort_min, the pointers to the hours and the …_utc_used flags.
pub record Db : Type 0 where
  pub years : Years
  pub roots : PerMode ℕ
  pub utc : PerMode (ℕ → Tm)
  pub sort : PerMode Links
  pub hours : PerMode (ℕ → Option Place)
  pub utc_used : PerMode (ℕ → Bool)

abbrev pub hour_used : Years → Place → Bool
hour_used t p = t.hour_in_use p.in_year p.month p.day p.hour

abbrev pub head_of : Years → Place → ℕ
head_of t p = t.head p.in_year p.month p.day p.hour

abbrev pub set_hour_used : Years → Place → Bool → Years
set_hour_used t p b = record t {
  hour_in_use = upd t.hour_in_use p.in_year (
      upd (t.hour_in_use p.in_year) p.month (
        upd (t.hour_in_use p.in_year p.month) p.day
          (upd (t.hour_in_use p.in_year p.month p.day) p.hour b)));
}

abbrev pub set_head : Years → Place → ℕ → Years
set_head t p e = record t {
  head = upd t.head p.in_year (
      upd (t.head p.in_year) p.month
        (upd (t.head p.in_year p.month) p.day (upd (t.head p.in_year p.month p.day) p.hour e)));
}

abbrev pub set_month_used : Years → Place → Bool → Years
set_month_used t p b = record t {
  month_in_use = upd t.month_in_use p.in_year (upd (t.month_in_use p.in_year) p.month b);
}

abbrev pub set_day_used : Years → Place → Bool → Years
set_day_used t p b = record t {
  day_in_use =
      upd t.day_in_use p.in_year
        (upd (t.day_in_use p.in_year) p.month (upd (t.day_in_use p.in_year p.month) p.day b));
}

-- A wiped object with its year.
abbrev pub new_year : Years → ℕ → ℕ → Years
new_year t y k = record {
  year = upd t.year y k;
  next = upd t.next y null;
  month_in_use = upd t.month_in_use y (λ m. false);
  day_in_use = upd t.day_in_use y (λ m d. false);
  hour_in_use = upd t.hour_in_use y (λ m d h. false);
  head = upd t.head y (λ m d h. null);
}

-- The object with the year `k`, or the last one, from `y` on.
unfoldable pub find_year : ℕ → Years → ℕ → ℕ → Option ℕ
find_year zero t y k = none
find_year (suc fuel) t y k =
    let rest = find_year fuel t (t.next y) k in
    if t.year y == k then some y else if t.next y == null then some y else rest

-- The object of the year `k`, which is made if there is none: the roots, the years and the object.
unfoldable pub reach_year : ℕ → Option ℕ → Years → ℕ → ℕ → Option (ℕ × Years × ℕ)
unfolding find_year
reach_year fuel fresh t root k =
    if root == null
    then elim fresh [ none ↦ none | some y ↦ some (y, new_year t y k, y) ]
    else elim (find_year fuel t root k) [
      | none ↦ none
      | some last ↦ if t.year last == k then some (root, t, last) else elim fresh [
        | none ↦ none
        | some y ↦ some (root, new_year (record t { next = upd t.next last y }) y k, y)
      ]
    ]

-- The loop over the entries of an hour: `e` is the entry that is looked at, `backup` the one before
-- it, or the head.
unfoldable pub insert_by_minute : ℕ → (ℕ → Tm) → Links → ℕ → ℕ → ℕ → Option Links
insert_by_minute zero utc l backup e target = none
insert_by_minute (suc fuel) utc l backup e target =
    let more = insert_by_minute fuel utc l e (l.next e) target in
    if e == null
    then some (set_next (set_prev (set_next l backup target) target backup) target null)
    else if ltb (utc target).tm_min (utc e).tm_min
    then some
        (set_prev (set_next (set_prev (set_next l backup target) target backup) target e) e target)
    else more

-- The in_use flags above an hour.
abbrev pub mark_used : Years → Place → Years
mark_used t p = set_day_used (set_month_used t p true) p true

-- The hour: its first entry, or an insertion.
unfoldable pub link_to_hour : ℕ → (ℕ → Tm) → Years → Links → Place → ℕ → Option (Years × Links)
unfolding insert_by_minute
link_to_hour fuel utc t l p target =
    if not (hour_used t p)
    then some
        (set_hour_used (set_head t p target) p true, set_next (set_prev l target null) target null)
    else elim (insert_by_minute fuel utc l (head_of t p) (head_of t p) target) [
      | none ↦ none
      | some m ↦ some (t, m)
    ]

-- The arrays have 12 months, 31 days, which tm_mday counts from 1, and 24 hours.
abbrev pub in_bounds : Tm → Bool
in_bounds tm = ltb tm.tm_mon 12 && ltb tm.tm_mday 31 && ltb tm.tm_hour 24

abbrev pub place_of : ℕ → Tm → Place
place_of y tm = record { in_year = y; month = tm.tm_mon; day = tm.tm_mday; hour = tm.tm_hour }

module _ (normalise : Tm → Option Tm) where
  -- Behind the normalisation of the time.
  unfoldable pub link_at : ℕ → Option ℕ → Db → ℕ → Mode → Tm → Option (ℕ × Db)
  link_at fuel fresh db target mode tm =
      let utc = upd (get db.utc mode) target tm in
      elim (reach_year fuel fresh db.years (get db.roots mode) ((tm.tm_year + 1900) % 2 ^ 32)) [
        | none ↦ none
        | some (root, t, y) ↦
            let p = place_of y tm in
            if not (in_bounds tm)
            then none
            else elim (link_to_hour fuel utc (mark_used t p) (get db.sort mode) p target) [
              | none ↦ none
              | some (u, l) ↦ some (
                success,
                record {
                  years = u;
                  roots = put db.roots mode root;
                  utc = put db.utc mode utc;
                  sort = put db.sort mode l;
                  hours = put db.hours mode (upd (get db.hours mode) target (some p));
                  utc_used = put db.utc_used mode (upd (get db.utc_used mode) target true);
                },
              )
            ]
      ]

  unfoldable pub link_entry_to_date_time_tree : ℕ → Option ℕ → Db → ℕ → ℕ → Option (ℕ × Db)
  unfolding link_at mode_of
  link_entry_to_date_time_tree fuel fresh db target mode = elim (mode_of mode) [
    | none ↦ some (wrong_args, db)
    | some m ↦ elim (normalise (get db.utc m target)) [
      | none ↦ some (invalid_date, db)
      | some tm ↦ link_at fuel fresh db target m tm
    ]
  ]

-- The object with the year `k` from `y` on, or null.
unfoldable pub seek_year : ℕ → Years → ℕ → ℕ → Option ℕ
seek_year zero t y k = none
seek_year (suc fuel) t y k =
    let rest = seek_year fuel t (t.next y) k in
    if y == null then some null else if t.year y == k then some y else rest

-- The code, and `*result`; DATE_TOM is refused.
unfoldable pub lookup_date_time : ℕ → Db → ℕ → ℕ → ℕ → ℕ → ℕ → Option (ℕ × Option ℕ)
unfolding seek_year
lookup_date_time fuel db date_type year month day hour =
    if not (date_type == 1) && not (date_type == 3)
    then some (wrong_args, none)
    else elim (seek_year fuel db.years
        (if date_type == 1 then db.roots.of_tod else db.roots.of_tusr) year) [
          | none ↦ none
          | some y ↦
              if y == null
              then some (find_fail, some null)
              else if not (ltb month 12 && ltb day 31 && ltb hour 24)
              then none
              else some (success, some (db.years.head y month day hour))
        ]
