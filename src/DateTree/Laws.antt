-- ===== src/DateTree/Laws.antt =====
-- link_entry_to_date_time_tree and lookup_date_time of ffp_database.c.
use ffprinter.Prelude.{
  ℕ, ◌+◌, ◌%◌, ◌^◌, ◌<◌, ◌≤◌, ◌≡◌, ◌≢◌, refl, ap, ◌∙◌, true, false, Option, some, List, [], ◌∷◌,
  ◌++◌, arith, length, success,
}
use ffprinter.Links.{null, upd, Links, set_next, set_prev, first, NotIn, IsChain}
use ffprinter.DateTree.{
  Mode, PerMode, get, put, Tm, Place, Years, Db, hour_used, head_of, set_hour_used, set_head,
  mark_used, reach_year, link_to_hour, in_bounds, place_of, link_at, seek_year,
}
use ffprinter.DateTree.Sorted.{minute, insert_sorted, insert_by_minute-IsChain}
use ffprinter.DateTree.YearList.{YearPath, Without, seek_year_found}

-- The entries of an hour, by the links `l`.
abbrev pub AtHour : Years → Links → Place → List ℕ → Type 0
AtHour t l p [] = hour_used t p ≡ false
AtHour t l p (x ∷ xs) = (hour_used t p ≡ true) × (head_of t p ≡ x) × IsChain l (x ∷ xs)

abbrev pub insert_in_hour : (ℕ → Tm) → ℕ → List ℕ → List ℕ
insert_in_hour utc target [] = target ∷ []
insert_in_hour utc target (x ∷ xs) = x ∷ insert_sorted utc target xs

-- The entry is not earlier than the first one.
abbrev pub NotFirst : (ℕ → Tm) → ℕ → List ℕ → Type 0
NotFirst utc target [] = Unit
NotFirst utc target (x ∷ xs) = minute utc x ≤ minute utc target

-- The objects are the same years in the same order.
pub record SameYears (t u : Years) : Type 0 where
  pub years : u.year ≡ t.year
  pub order : u.next ≡ t.next

YearPath-same :
    (t u : Years) (a : ℕ) (ys : List ℕ) → SameYears t u → YearPath t a ys → YearPath u a ys
YearPath-same t u a [] s p = p
YearPath-same t u a (y ∷ ys) s p =
    (p.0, p.1, rw (ap (λ f. f y) s.order) (YearPath-same t u (t.next y) ys s p.2))

Without-same : (t u : Years) (k : ℕ) (ys : List ℕ) → SameYears t u → Without t k ys → Without u k ys
Without-same t u k [] s w = tt
Without-same t u k (y ∷ ys) s w = (rw (ap (λ f. f y) s.years) w.0, Without-same t u k ys s w.1)

link_to_hour-AtHour :
    (fuel : ℕ) (utc : ℕ → Tm) (t : Years) (l : Links) (p : Place) (target : ℕ) (xs : List ℕ)
    → AtHour t l p xs
    → target ≢ null
    → NotIn target xs
    → NotFirst utc target xs
    → length xs < fuel
    → (u : Years) × (m : Links) × (link_to_hour fuel utc t l p target ≡ some (u, m))
      × AtHour u m p (insert_in_hour utc target xs)
      × SameYears t u
unfolding link_to_hour
link_to_hour-AtHour fuel utc t l p target [] h nz out first f = (
  set_hour_used (set_head t p target) p true,
  set_next (set_prev l target null) target null,
  rw h,
  (
    ground arith,
    ground arith,
    record { linked = (nz, ground arith, ground arith, tt); distinct = (tt, tt) },
  ),
  record { years = refl; order = refl },
)
link_to_hour-AtHour fuel utc t l p target (x ∷ xs) h nz out first f =
    let (m, runs, c) = insert_by_minute-IsChain utc l x xs target fuel h.2 nz out first f in
    (t, m, rw (h.0, h.1, runs), (h.0, h.1, c), record { years = refl; order = refl })

pub get-put : {A : Type 0} (p : PerMode A) (m : Mode) (v : A) → get (put p m v) m ≡ v
get-put p Mode.tod v = refl
get-put p Mode.tom v = refl
get-put p Mode.tusr v = refl

upd_same : {A : Type 0} (f : ℕ → A) (p : ℕ) (v : A) → upd f p v p ≡ v
upd_same f p v = ground arith

at_marked :
    (t : Years) (l : Links) (p : Place) (xs : List ℕ)
    → AtHour t l p xs
    → AtHour (mark_used t p) l p xs
at_marked t l p [] h = h
at_marked t l p (x ∷ xs) h = h

-- The state behind a link, for an entry with the time `tm` in an hour that held `xs`.
pub record IsLinked (db' : Db) (m : Mode) (y : ℕ) (tm : Tm) (target : ℕ) (xs ys : List ℕ)
    : Type 0 where
  pub chain :
      AtHour db'.years (get db'.sort m) (place_of y tm) (insert_in_hour (get db'.utc m) target xs)
  pub hour : get db'.hours m target ≡ some (place_of y tm)
  pub used : get db'.utc_used m target ≡ true
  pub normal : get db'.utc m target ≡ tm
  pub found :
      (fuel : ℕ)
      → length ys < fuel
      → seek_year fuel db'.years (get db'.roots m) ((tm.tm_year + 1900) % 2 ^ 32) ≡ some y

module _ (normalise : Tm → Option Tm) (fuel : ℕ) (fresh : Option ℕ) (db : Db) (target : ℕ)
    (m : Mode) (tm : Tm) where
  abbrev utc : ℕ → Tm
  utc = upd (get db.utc m) target tm

  abbrev linked_db : ℕ → ℕ → Years → Links → Db
  linked_db root y u l = record {
    years = u;
    roots = put db.roots m root;
    utc = put db.utc m utc;
    sort = put db.sort m l;
    hours = put db.hours m (upd (get db.hours m) target (some (place_of y tm)));
    utc_used = put db.utc_used m (upd (get db.utc_used m) target true);
  }

  link_at_runs :
      (root y : ℕ) (t u : Years) (l : Links)
      → reach_year fuel fresh db.years (get db.roots m) ((tm.tm_year + 1900) % 2 ^ 32)
        ≡ some (root, t, y)
      → in_bounds tm ≡ true
      → link_to_hour fuel utc (mark_used t (place_of y tm)) (get db.sort m) (place_of y tm) target
        ≡ some (u, l)
      → link_at normalise fuel fresh db target m tm ≡ some (success, linked_db root y u l)
  unfolding link_at
  link_at_runs root y t u l reached bounds runs = rw (reached, link_at, bounds) (rw (runs, link_at))

  -- Behind the walk to the year.
  pub link_at-IsLinked :
      (root y : ℕ) (t : Years) (xs ys zs : List ℕ)
      → reach_year fuel fresh db.years (get db.roots m) ((tm.tm_year + 1900) % 2 ^ 32)
        ≡ some (root, t, y)
      → YearPath t root (ys ++ y ∷ zs)
      → Without t ((tm.tm_year + 1900) % 2 ^ 32) ys
      → t.year y ≡ (tm.tm_year + 1900) % 2 ^ 32
      → in_bounds tm ≡ true
      → AtHour t (get db.sort m) (place_of y tm) xs
      → target ≢ null
      → NotIn target xs
      → NotFirst utc target xs
      → length xs < fuel
      → (db' : Db) × (link_at normalise fuel fresh db target m tm ≡ some (success, db'))
        × IsLinked db' m y tm target xs ys
  link_at-IsLinked root y t xs ys zs reached path without is_k bounds h nz out nf f =
      let p = place_of y tm in
      let k = (tm.tm_year + 1900) % 2 ^ 32 in
      let (u, l, runs, chain, s) =
        link_to_hour-AtHour fuel utc (mark_used t p) (get db.sort m) p target xs
          (at_marked t (get db.sort m) p xs h) nz out nf f in
      let same : SameYears t u = record { years = s.years; order = s.order } in
      (
        linked_db root y u l,
        link_at_runs root y t u l reached bounds runs,
        record {
          chain = rw (get-put db.sort m l, get-put db.utc m utc) chain;
          hour =
              rw (get-put db.hours m (upd (get db.hours m) target (some p)))
                (upd_same (get db.hours m) target (some p));
          used =
              rw (get-put db.utc_used m (upd (get db.utc_used m) target true))
                (upd_same (get db.utc_used m) target true);
          normal = rw (get-put db.utc m utc) (upd_same (get db.utc m) target tm);
          found = λ n g. rw (get-put db.roots m root) (
              seek_year_found u ys zs y k root n (YearPath-same t u root (ys ++ y ∷ zs) same path)
                (Without-same t u k ys same without) (ap (λ q. q y) s.years ∙ is_k) g);
        },
      )
