-- ===== src/DateTree/Unlink/Outside.antt =====
-- unlink_entry_from_date_time_tree of ffp_database.c for the only entry of a month.
use ffprinter.Prelude.{
  ℕ, zero, suc, ◌+◌, ◌<◌, ◌≡◌, ◌≢◌, refl, ap, ◌∙◌, Bool, true, false, Option, none, some, [], ◌∷◌,
  arith, ltb, ◌==◌, Bool-cases, inl, inr, ◌≤◌,
}
use ffprinter.Links.{null, upd, Links}
use ffprinter.DateTree.{
  Mode, get, Place, Years, Db, hour_used, set_hour_used, set_head, in_bounds, place_of,
  set_day_used,
}
use ffprinter.DateTree.Laws.{AtHour}
use ffprinter.DateTree.Link.{full_year}
use ffprinter.DateTree.Unlink.{
  any_used, seek_year_pair, take_out, clear_day, clear_month, unlink_at,
}

any_used_within :
    (flag : ℕ → Bool) (size i rounds : ℕ)
    → ((j : ℕ) → flag j ≡ false)
    → i + rounds ≤ size
    → any_used flag size i rounds ≡ some false
unfolding any_used
any_used_within flag size i zero h r = refl
any_used_within flag size i (suc rounds) h r =
    let a : ltb i size ≡ true = ground arith in
    rw (a, h i) (any_used_within flag size (i + 1) rounds h (omega arith))

any_used_outside :
    (flag : ℕ → Bool) (size i rounds : ℕ)
    → ((j : ℕ) → flag j ≡ false)
    → size < i + rounds
    → i ≤ size
    → any_used flag size i rounds ≡ none
unfolding any_used
any_used_outside flag size i zero h r le = absurd (omega arith)
any_used_outside flag size i (suc rounds) h r le = elim (Bool-cases (ltb i size)) [
  | inr a ↦ rw a
  | inl a ↦ rw (a, h i) (any_used_outside flag size (i + 1) rounds h (omega arith) (ground arith))
]

all_but_one :
    (flag : ℕ → Bool) (p : ℕ)
    → ((j : ℕ) → j ≢ p → flag j ≡ false)
    → (j : ℕ) → upd flag p false j ≡ false
all_but_one flag p h j = elim (Bool-cases (p == j)) [
  | inl e ↦ rw e
  | inr e ↦ rw e (h j (ground arith))
]

-- The hour with no entry.
abbrev emptied : Years → Place → Years
emptied t p = set_hour_used (set_head t p null) p false

take_out_empty :
    (t : Years) (l : Links) (p : Place) (target : ℕ)
    → AtHour t l p (target ∷ [])
    → take_out t l p target ≡ (emptied t p, l)
unfolding take_out
take_out_empty t l p target h =
    let a : (l.prev target == null) ≡ true = ground (arith, h.2.linked.1) in
    let b : (l.next target == null) ≡ true = ground (arith, h.2.linked.2) in rw (a, b)

upd-here : {A : Type 0} (f : ℕ → A) (p : ℕ) (v : A) → upd f p v p ≡ v
upd-here f p v = ground arith

clear_day_empty :
    (t : Years) (p : Place)
    → ((h : ℕ) → h ≢ p.hour → t.hour_in_use p.in_year p.month p.day h ≡ false)
    → clear_day (emptied t p) p ≡ some (set_day_used (emptied t p) p false)
unfolding clear_day
clear_day_empty t p hours =
    let e : (emptied t p).hour_in_use p.in_year p.month p.day
        ≡ upd (t.hour_in_use p.in_year p.month p.day) p.hour false =
      ap (λ f. f p.month p.day)
        (upd-here t.hour_in_use p.in_year (
          upd (t.hour_in_use p.in_year) p.month (
            upd (t.hour_in_use p.in_year p.month) p.day
              (upd (t.hour_in_use p.in_year p.month p.day) p.hour false))))
      ∙ ap (λ f. f p.day)
          (upd-here (t.hour_in_use p.in_year) p.month (
            upd (t.hour_in_use p.in_year p.month) p.day
              (upd (t.hour_in_use p.in_year p.month p.day) p.hour false)))
      ∙ upd-here (t.hour_in_use p.in_year p.month) p.day
          (upd (t.hour_in_use p.in_year p.month p.day) p.hour false) in
    let no : hour_used (emptied t p) p ≡ false =
      ap (λ f. f p.hour) e ∙ upd-here (t.hour_in_use p.in_year p.month p.day) p.hour false in
    let all =
      any_used_within ((emptied t p).hour_in_use p.in_year p.month p.day) 24 0 24
        (λ j. ap (λ f. f j) e ∙ all_but_one (t.hour_in_use p.in_year p.month p.day) p.hour hours j)
        (omega arith) in
    rw (no, clear_day) (rw (all, clear_day))

clear_month_outside :
    (t : Years) (p : Place)
    → ((d : ℕ) → d ≢ p.day → t.day_in_use p.in_year p.month d ≡ false)
    → clear_month (set_day_used (emptied t p) p false) p ≡ none
unfolding clear_month
clear_month_outside t p days =
    let u = set_day_used (emptied t p) p false in
    let e : u.day_in_use p.in_year p.month ≡ upd (t.day_in_use p.in_year p.month) p.day false =
      ap (λ f. f p.month)
        (upd-here t.day_in_use p.in_year
          (upd (t.day_in_use p.in_year) p.month (upd (t.day_in_use p.in_year p.month) p.day false)))
      ∙ upd-here (t.day_in_use p.in_year) p.month
          (upd (t.day_in_use p.in_year p.month) p.day false) in
    let no : u.day_in_use p.in_year p.month p.day ≡ false =
      ap (λ f. f p.day) e ∙ upd-here (t.day_in_use p.in_year p.month) p.day false in
    let all =
      any_used_outside (u.day_in_use p.in_year p.month) 31 0 32
        (λ j. ap (λ f. f j) e ∙ all_but_one (t.day_in_use p.in_year p.month) p.day days j)
        (omega arith) (omega arith) in
    rw (no, clear_month) (rw (all, clear_month))

pub unlink_at_outside :
    (fuel : ℕ) (db : Db) (target : ℕ) (m : Mode) (b : Option ℕ) (y : ℕ)
    → seek_year_pair fuel db.years none (get db.roots m) (full_year (get db.utc m target))
      ≡ some (b, y)
    → y ≢ null
    → in_bounds (get db.utc m target) ≡ true
    → AtHour db.years (get db.sort m) (place_of y (get db.utc m target)) (target ∷ [])
    → ((h : ℕ)
        → h ≢ (get db.utc m target).tm_hour
        → db.years.hour_in_use y (get db.utc m target).tm_mon (get db.utc m target).tm_mday h
          ≡ false)
    → ((d : ℕ)
        → d ≢ (get db.utc m target).tm_mday
        → db.years.day_in_use y (get db.utc m target).tm_mon d ≡ false)
    → unlink_at fuel db target m ≡ none
unfolding unlink_at
unlink_at_outside fuel db target m b y found ny bounds c hours days =
    let tm = get db.utc m target in
    let p = place_of y tm in
    let live : (y == null) ≡ false = ground arith in
    let e = take_out_empty db.years (get db.sort m) p target c in
    let f = clear_day_empty db.years p hours in
    let g = clear_month_outside db.years p days in
    rw (found, unlink_at, live, bounds, c.0)
      (rw (ap (λ q. q.0) e, unlink_at) (rw (f, unlink_at) (rw (g, unlink_at))))
