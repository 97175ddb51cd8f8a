-- ===== src/DateTree/Sorted.antt =====
-- insert_by_minute, the loop of link_entry_to_date_time_tree of ffp_database.c over an hour.
use ffprinter.Prelude.{
  ℕ, zero, suc, ◌≤◌, ◌<◌, ◌≡◌, ◌≢◌, refl, sym, true, false, none, some, List, [], ◌∷◌, ◌++◌, arith,
  ltb, ◌==◌, if◌then◌else◌, length, Bool-cases, inl, inr,
}
use mathlib.Core.Path.{subst}
use mathlib.Core.List.{append_assoc}
use ffprinter.Links.{null, Links, set_next, set_prev, first, NotIn, IsChain}
use ffprinter.Links.Laws.{Linked-append, NotIn-append, Distinct-insert}
use ffprinter.Links.Splice.{SameBut-SameOn, splice_middle, NotIn-of_Distinct}
use ffprinter.EntryList.{attach_tail, walk_next}
use ffprinter.EntryList.Attach.{attach_tail-IsChain}
use ffprinter.DateTree.{Tm, insert_by_minute}

module _ (utc : ℕ → Tm) where
  abbrev pub minute : ℕ → ℕ
  minute e = (utc e).tm_min

  -- The list with `target` behind all entries that are not later.
  abbrev pub insert_sorted : ℕ → List ℕ → List ℕ
  insert_sorted target [] = target ∷ []
  insert_sorted target (e ∷ es) =
      if ltb (minute target) (minute e) then target ∷ e ∷ es else e ∷ insert_sorted target es

  -- No entry is later than the one behind it.
  abbrev pub IsSorted : List ℕ → Type 0
  IsSorted [] = Unit
  IsSorted (e ∷ []) = Unit
  IsSorted (e ∷ e' ∷ es) = (minute e ≤ minute e') × IsSorted (e' ∷ es)

  pub insert_sorted-IsSorted :
      (e target : ℕ) (es : List ℕ)
      → IsSorted (e ∷ es)
      → minute e ≤ minute target
      → IsSorted (e ∷ insert_sorted target es)
  insert_sorted-IsSorted e target [] s h = (h, tt)
  insert_sorted-IsSorted e target (e' ∷ es) s h =
      elim (Bool-cases (ltb (minute target) (minute e'))) [
        | inl b ↦ rw b (h, (ground arith, s.1))
        | inr b ↦ rw b (s.0, insert_sorted-IsSorted e' target es s.1 (ground arith))
      ]

insert_between :
    (l : Links) (xs zs : List ℕ) (d e target : ℕ)
    → IsChain l (xs ++ d ∷ e ∷ zs)
    → target ≢ null
    → NotIn target (xs ++ d ∷ e ∷ zs)
    → IsChain
        (set_prev (set_next (set_prev (set_next l d target) target d) target e) e target)
        (xs ++ d ∷ target ∷ e ∷ zs)
insert_between l xs zs d e target c nz out =
    let m = set_prev (set_next (set_prev (set_next l d target) target d) target e) e target in
    let (fresh, fresh') = (NotIn-append target xs (d ∷ e ∷ zs)).0 out in
    let (apart, apart') = NotIn-of_Distinct xs (e ∷ zs) d c.distinct in
    let (apart_e, apart_e') = NotIn-of_Distinct (xs ++ d ∷ []) zs e (rw append_assoc c.distinct) in
    let ned : e ≢ d = apart'.0 in
    let net : e ≢ target = fresh'.1.0 in
    let ndt : d ≢ target = fresh'.0 in
    record {
      linked =
          splice_middle l m d target xs e zs null null c.linked nz
            (SameBut-SameOn l m d target e xs (λ x p q r. (ground arith, ground arith)) apart fresh
              ((NotIn-append e xs (d ∷ [])).0 apart_e).0)
            (SameBut-SameOn l m d target e zs (λ x p q r. (ground arith, ground arith)) apart'.1
              fresh'.1.1 apart_e')
            (record {
              next_d = ground arith;
              prev_d = ground arith;
              next_t = ground arith;
              prev_t = ground arith;
            })
            (ground arith) (ground arith);
      distinct = rw append_assoc at (
          (Distinct-insert (xs ++ d ∷ []) (e ∷ zs) target).1
            (rw append_assoc c.distinct, rw append_assoc out));
    }

insert_last :
    (l : Links) (xs : List ℕ) (d target : ℕ)
    → IsChain l (xs ++ d ∷ [])
    → target ≢ null
    → NotIn target (xs ++ d ∷ [])
    → IsChain
        (set_next (set_prev (set_next l d target) target d) target null)
        (xs ++ d ∷ target ∷ [])
unfolding attach_tail
insert_last l xs d target c nz out = attach_tail-IsChain l xs d target c nz out

-- The loop, with the list split behind `d`.
insert_behind :
    (utc : ℕ → Tm) (l : Links) (xs zs : List ℕ) (d target fuel : ℕ)
    → IsChain l (xs ++ d ∷ zs)
    → target ≢ null
    → NotIn target (xs ++ d ∷ zs)
    → length zs < fuel
    → (m : Links) × (insert_by_minute fuel utc l d (first zs null) target ≡ some m)
      × IsChain m (xs ++ d ∷ insert_sorted utc target zs)
unfolding insert_by_minute
insert_behind utc l xs zs d target zero c nz out f = absurd (omega arith)
insert_behind utc l xs [] d target (suc fuel) c nz out f = (
  set_next (set_prev (set_next l d target) target d) target null,
  refl,
  insert_last l xs d target c nz out,
)
insert_behind utc l xs (e ∷ zs) d target (suc fuel) c nz out f =
    let back = ((Linked-append l xs (d ∷ e ∷ zs) null null).0 c.linked).1 in
    let found : (e == null) ≡ false = ground (arith, back.3.0) in
    elim (Bool-cases (ltb (minute utc target) (minute utc e))) [
      | inl b ↦ (
        set_prev (set_next (set_prev (set_next l d target) target d) target e) e target,
        rw (found, b),
        rw b (insert_between l xs zs d e target c nz out),
      )
      | inr b ↦
          let j : (xs ++ d ∷ []) ++ e ∷ zs ≡ xs ++ d ∷ e ∷ zs = append_assoc xs (d ∷ []) (e ∷ zs) in
          let (m, runs, h) =
            insert_behind utc l (xs ++ d ∷ []) zs e target fuel (subst (IsChain l) (sym j) c) nz
              (subst (NotIn target) (sym j) out) (omega arith) in
          (
            m,
            rw (found, b, back.3.2) runs,
            rw b (subst (IsChain m) (append_assoc xs (d ∷ []) (e ∷ insert_sorted utc target zs)) h),
          )
    ]

walk_circle :
    (m : Links) (x y rounds : ℕ)
    → x ≢ null
    → y ≢ null
    → m.next x ≡ y
    → m.next y ≡ x
    → (walk_next rounds m x ≡ none) × (walk_next rounds m y ≡ none)
unfolding walk_next
walk_circle m x y zero nx ny a b = (refl, refl)
walk_circle m x y (suc rounds) nx ny a b =
    let (p, q) = walk_circle m x y rounds nx ny a b in
    let no_x : (x == null) ≡ false = ground arith in
    let no_y : (y == null) ≡ false = ground arith in (rw (a, no_y, q), rw (b, no_x, p))

-- An entry that is not earlier than the first one of an hour gets into the list of the hour behind
-- all entries that are not later than it; the others keep their order.
pub insert_by_minute-IsChain :
    (utc : ℕ → Tm) (l : Links) (x : ℕ) (xs : List ℕ) (target fuel : ℕ)
    → IsChain l (x ∷ xs)
    → target ≢ null
    → NotIn target (x ∷ xs)
    → minute utc x ≤ minute utc target
    → length (x ∷ xs) < fuel
    → (m : Links) × (insert_by_minute fuel utc l x x target ≡ some m)
      × IsChain m (x ∷ insert_sorted utc target xs)
unfolding insert_by_minute
insert_by_minute-IsChain utc l x xs target zero c nz out h f = absurd (omega arith)
insert_by_minute-IsChain utc l x xs target (suc fuel) c nz out h f =
    let found : (x == null) ≡ false = ground (arith, c.linked.0) in
    let later : ltb (minute utc target) (minute utc x) ≡ false = ground arith in
    let (m, runs, k) = insert_behind utc l [] xs x target fuel c nz out (omega arith) in
    (m, rw (found, later, c.linked.2) runs, k)

-- An entry that is earlier than the first one of an hour makes a circle of the two: no walk by
-- link_next from the first one ends, and the other entries are lost.
pub insert_by_minute_circle :
    (utc : ℕ → Tm) (l : Links) (x target fuel : ℕ)
    → x ≢ null
    → target ≢ null
    → target ≢ x
    → minute utc target < minute utc x
    → (m : Links) × (insert_by_minute (suc fuel) utc l x x target ≡ some m)
      × (m.next x ≡ target)
      × (m.next target ≡ x)
      × ((rounds : ℕ) → walk_next rounds m x ≡ none)
unfolding insert_by_minute
insert_by_minute_circle utc l x target fuel nx nt ne h =
    let found : (x == null) ≡ false = ground arith in
    let earlier : ltb (minute utc target) (minute utc x) ≡ true = ground arith in
    let m = set_prev (set_next (set_prev (set_next l x target) target x) target x) x target in
    let a : m.next x ≡ target = ground arith in
    let b : m.next target ≡ x = ground arith in
    (m, rw (found, earlier), a, b, λ rounds. (walk_circle m x target rounds nx nt a b).0)
