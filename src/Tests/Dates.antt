-- ===== src/Tests/Dates.antt =====
-- Two years at the addresses 1 and 2; the hour 5 of a day has the entries 11, 12 and 13.
use ffprinter.Prelude.{
  ℕ, ◌+◌, ◌≡◌, refl, true, none, some, [], ◌∷◌, arith, ◌==◌, ◌&&◌, if◌then◌else◌, success,
}
use ffprinter.Links.{Links, IsChain}
use ffprinter.EntryList.{walk_next}
use ffprinter.DateTree.{
  Mode, PerMode, get, Tm, Years, Db, place_of, insert_by_minute, link_entry_to_date_time_tree,
}
use ffprinter.DateTree.Sorted.{insert_by_minute_circle}
use ffprinter.DateTree.Laws.{AtHour, IsLinked}
use ffprinter.DateTree.Link.{link_entry_to_date_time_tree-IsLinked}
use ffprinter.DateTree.Unlink.{unlink_entry_from_date_time_tree}
use ffprinter.DateTree.Unlink.Whole.{
  IsMarked, unlink_entry_from_date_time_tree_first, unlink_entry_from_date_time_tree_outside,
}

-- The fifth of February at five o'clock, 2016.
abbrev at_minute : ℕ → Tm
at_minute n = record { tm_min = n; tm_hour = 5; tm_mday = 5; tm_mon = 1; tm_year = 116 }

abbrev times : ℕ → Tm
times e = if e == 14 then at_minute 35 else at_minute (e + 20)

abbrev three_entries : Links
three_entries = record {
  next = λ p. if p == 11 then 12 else if p == 12 then 13 else 0;
  prev = λ p. if p == 12 then 11 else if p == 13 then 12 else 0;
}

three_entries-IsChain : IsChain three_entries (11 ∷ 12 ∷ 13 ∷ [])
three_entries-IsChain = record { linked = omega arith; distinct = omega arith }

abbrev two_years : Years
two_years = record {
  year = λ p. if p == 1 then 2015 else 2016;
  next = λ p. if p == 1 then 2 else 0;
  month_in_use = λ y m. (y == 2) && (m == 1);
  day_in_use = λ y m d. (y == 2) && (m == 1) && (d == 5);
  hour_in_use = λ y m d h. (y == 2) && (m == 1) && (d == 5) && (h == 5);
  head = λ y m d h. 11;
}

abbrev everywhere : {A : Type 0} → A → PerMode A
everywhere v = record { of_tod = v; of_tom = v; of_tusr = v }

abbrev db : Db
db = record {
  years = two_years;
  roots = everywhere 1;
  utc = everywhere times;
  sort = everywhere three_entries;
  hours = everywhere (λ e. some (place_of 2 (at_minute 0)));
  utc_used = everywhere (λ e. true);
}

link_entry_to_date_time_tree-IsLinked_example :
    (db' : Db) × (link_entry_to_date_time_tree some 5 none db 14 1 ≡ some (success, db'))
    × IsLinked db' Mode.tod 2 (at_minute 35) 14 (11 ∷ 12 ∷ 13 ∷ []) (1 ∷ [])
link_entry_to_date_time_tree-IsLinked_example =
    link_entry_to_date_time_tree-IsLinked some 5 none db 14 Mode.tod (at_minute 35) refl
      (11 ∷ 12 ∷ 13 ∷ []) (1 ∷ []) [] 2 refl (omega arith) (omega arith) refl
      (refl, refl, three_entries-IsChain) (omega arith) (omega arith) (omega arith) (omega arith)
      (omega arith)

abbrev next_year : Tm
next_year = record (at_minute 7) { tm_year = 117 }

insert_by_minute_circle_example :
    (m : Links) × (insert_by_minute 1 times three_entries 11 11 5 ≡ some m)
    × (m.next 11 ≡ 5)
    × (m.next 5 ≡ 11)
    × ((rounds : ℕ) → walk_next rounds m 11 ≡ none)
insert_by_minute_circle_example =
    insert_by_minute_circle times three_entries 11 5 0 (omega arith) (omega arith) (omega arith)
      (omega arith)

marked : IsMarked two_years (place_of 2 (at_minute 0))
marked = record { hour = refl; day = refl; month = refl }

unlink_entry_from_date_time_tree_first_example :
    (db' : Db) × (unlink_entry_from_date_time_tree 5 db 11 1 ≡ some (success, db'))
    × AtHour db'.years (get db'.sort Mode.tod) (place_of 2 (at_minute 31)) (12 ∷ 13 ∷ [])
unlink_entry_from_date_time_tree_first_example =
    unlink_entry_from_date_time_tree_first 5 db 11 Mode.tod 2 (place_of 2 (at_minute 0)) (1 ∷ []) []
      (λ e. cc) refl (omega arith) (omega arith) refl refl (omega arith) 12 (13 ∷ []) marked
      (refl, refl, three_entries-IsChain)

abbrev alone : Db
alone = record db { sort = everywhere (record { next = λ p. 0; prev = λ p. 0 }) }

unlink_entry_from_date_time_tree_outside_example :
    unlink_entry_from_date_time_tree 5 alone 11 1 ≡ none
unlink_entry_from_date_time_tree_outside_example =
    unlink_entry_from_date_time_tree_outside 5 alone 11 Mode.tod 2 (place_of 2 (at_minute 0))
      (1 ∷ []) [] (λ e. cc) refl (omega arith) (omega arith) refl refl (omega arith)
      (refl, refl, record { linked = omega arith; distinct = omega arith }) (λ h n. ground arith)
      (λ d n. ground arith)
