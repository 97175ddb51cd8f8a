-- ===== src/DateTree/Unlink/Laws.antt =====
-- take_out, the writes of unlink_entry_from_date_time_tree of ffp_database.c to an hour, and what
-- follows where the hour or the day stays in use.
use ffprinter.Prelude.{ℕ, ◌≡◌, ◌∙◌, true, false, List, [], ◌∷◌, ◌++◌, arith, ◌==◌}
use ffprinter.Links.{null, Links, set_next, set_prev, first, IsChain}
use ffprinter.Links.Laws.{
  Linked-append, relink_last, relink_first, last-append, Distinct-append, set_next-SameOn,
  set_prev-SameOn, frame,
}
use ffprinter.Links.Splice.{NotIn-of_Distinct}
use ffprinter.DateTree.{Place, Years, hour_used, head_of}
use ffprinter.DateTree.Laws.{AtHour}
use ffprinter.DateTree.Unlink.{take_out}

-- The only entry of an hour: the hour is not in use any more.
pub take_out_only :
    (t : Years) (l : Links) (p : Place) (target : ℕ)
    → AtHour t l p (target ∷ [])
    → AtHour (take_out t l p target).0 (take_out t l p target).1 p []
unfolding take_out
take_out_only t l p target h =
    let a : (l.prev target == null) ≡ true = ground (arith, h.2.linked.1) in
    let b : (l.next target == null) ≡ true = ground (arith, h.2.linked.2) in
    rw (a, b) (ground arith)

-- The first entry of several: the hour begins with the next one.
pub take_out_first :
    (t : Years) (l : Links) (p : Place) (target x : ℕ) (xs : List ℕ)
    → AtHour t l p (target ∷ x ∷ xs)
    → AtHour (take_out t l p target).0 (take_out t l p target).1 p (x ∷ xs)
unfolding take_out
take_out_first t l p target x xs h =
    let c = h.2.linked in
    let d = h.2.distinct in
    let a : (l.prev target == null) ≡ true = ground (arith, c.1) in
    let b : (l.next target == null) ≡ false = ground (arith, c.2, c.3.0) in
    let e : l.next target ≡ x = c.2 in
    let h' = relink_first l x xs target null null c.3 d.1.0 in
    rw (a, b, e)
      (
        h.0,
        ground arith,
        record {
          linked =
              frame (set_prev l x null) (set_next (set_prev l x null) target null) null null
                (x ∷ xs) h' (set_next-SameOn (set_prev l x null) target null (x ∷ xs) d.0);
          distinct = d.1;
        },
      )

-- The last entry of several: the list ends with the one before it.
pub take_out_last :
    (t : Years) (l : Links) (p : Place) (target d : ℕ) (xs : List ℕ)
    → (hour_used t p ≡ true)
    → (head_of t p ≡ first (xs ++ d ∷ []) null)
    → IsChain l ((xs ++ d ∷ []) ++ target ∷ [])
    → (hour_used (take_out t l p target).0 p ≡ true)
      × (head_of (take_out t l p target).0 p ≡ first (xs ++ d ∷ []) null)
      × IsChain (take_out t l p target).1 (xs ++ d ∷ [])
unfolding take_out
take_out_last t l p target d xs used at c =
    let (front, back) = (Linked-append l (xs ++ d ∷ []) (target ∷ []) null null).0 c.linked in
    let (apart, _) = NotIn-of_Distinct (xs ++ d ∷ []) [] target c.distinct in
    let dis = ((Distinct-append (xs ++ d ∷ []) (target ∷ [])).0 c.distinct).0 in
    let (apart_d, _) = NotIn-of_Distinct xs [] d dis in
    let nzd = ((Linked-append l xs (d ∷ []) null target).0 front).1.0 in
    let before : l.prev target ≡ d = back.1 ∙ last-append xs (d ∷ []) null in
    let a : (l.prev target == null) ≡ false = ground arith in
    let b : (l.next target == null) ≡ true = ground (arith, back.2) in
    let h' = relink_last l xs d null target null front apart_d in
    rw (a, b, before)
      (
        used,
        at,
        record {
          linked =
              frame (set_next l d null) (set_prev (set_next l d null) target null) null null
                (xs ++ d ∷ []) h'
                (set_prev-SameOn (set_next l d null) target null (xs ++ d ∷ []) apart);
          distinct = dis;
        },
      )
