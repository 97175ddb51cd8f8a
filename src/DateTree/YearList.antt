-- ===== src/DateTree/YearList.antt =====
-- The list of the years in a tree of ffp_database.c, and the walks over it.
use ffprinter.Prelude.{
  ℕ, zero, suc, ◌<◌, ◌≡◌, ◌≢◌, refl, sym, ap, true, false, Option, some, List, [], ◌∷◌, ◌++◌, arith,
  ◌==◌, length, All, length-append, inl, inr, ◌⊎◌,
}
use mathlib.Core.Path.{subst}
use ffprinter.Links.{null, upd, NotIn, Distinct}
use ffprinter.Links.Splice.{NotIn-of_Distinct}
use ffprinter.DateTree.{Years, new_year, find_year, reach_year, seek_year}

-- The objects `ys` are the years from `a` on.
abbrev pub YearPath : Years → ℕ → List ℕ → Type 0
YearPath t a [] = a ≡ null
YearPath t a (y ∷ ys) = (a ≡ y) × (y ≢ null) × YearPath t (t.next y) ys

-- None of them has the year `k`.
abbrev pub Without : Years → ℕ → List ℕ → Type 0
Without t k ys = All (λ y. t.year y ≢ k) ys

find_year_found :
    (t : Years) (xs zs : List ℕ) (y k a fuel : ℕ)
    → YearPath t a (xs ++ y ∷ zs)
    → Without t k xs
    → t.year y ≡ k
    → length xs < fuel
    → find_year fuel t a k ≡ some y
unfolding find_year
find_year_found t xs zs y k a zero p w e f = absurd (omega arith)
find_year_found t [] zs y k a (suc fuel) p w e f =
    let is : a ≡ y = p.0 in let yes_k : (t.year y == k) ≡ true = ground arith in rw (is, yes_k)
find_year_found t (x ∷ []) zs y k a (suc fuel) p w e f =
    let no_k : (t.year x == k) ≡ false = ground (arith, w.0) in
    let live : (t.next x == null) ≡ false = ground (arith, p.2.0, p.2.1) in
    rw (p.0, no_k, live) (find_year_found t [] zs y k (t.next x) fuel p.2 tt e (omega arith))
find_year_found t (x ∷ x' ∷ xs) zs y k a (suc fuel) p w e f =
    let no_k : (t.year x == k) ≡ false = ground (arith, w.0) in
    let live : (t.next x == null) ≡ false = ground (arith, p.2.0, p.2.1) in
    rw (p.0, no_k, live)
      (find_year_found t (x' ∷ xs) zs y k (t.next x) fuel p.2 w.1 e (omega arith))

pub seek_year_found :
    (t : Years) (xs zs : List ℕ) (y k a fuel : ℕ)
    → YearPath t a (xs ++ y ∷ zs)
    → Without t k xs
    → t.year y ≡ k
    → length xs < fuel
    → seek_year fuel t a k ≡ some y
unfolding seek_year
seek_year_found t xs zs y k a zero p w e f = absurd (omega arith)
seek_year_found t [] zs y k a (suc fuel) p w e f =
    let live : (y == null) ≡ false = ground (arith, p.1) in
    let yes_k : (t.year y == k) ≡ true = ground arith in rw (p.0, live, yes_k)
seek_year_found t (x ∷ xs) zs y k a (suc fuel) p w e f =
    let live : (x == null) ≡ false = ground (arith, p.1) in
    let no_k : (t.year x == k) ≡ false = ground (arith, w.0) in
    rw (p.0, live, no_k) (seek_year_found t xs zs y k (t.next x) fuel p.2 w.1 e (omega arith))

-- The walk ends at the last object if no other has the year.
find_year_last :
    (t : Years) (xs : List ℕ) (y k a fuel : ℕ)
    → YearPath t a (xs ++ y ∷ [])
    → Without t k xs
    → t.year y ≢ k
    → length xs < fuel
    → find_year fuel t a k ≡ some y
unfolding find_year
find_year_last t xs y k a zero p w e f = absurd (omega arith)
find_year_last t [] y k a (suc fuel) p w e f =
    let no_k : (t.year y == k) ≡ false = ground arith in
    let last : (t.next y == null) ≡ true = ground (arith, p.2) in rw (p.0, no_k, last)
find_year_last t (x ∷ []) y k a (suc fuel) p w e f =
    let no_k : (t.year x == k) ≡ false = ground (arith, w.0) in
    let live : (t.next x == null) ≡ false = ground (arith, p.2.0, p.2.1) in
    rw (p.0, no_k, live) (find_year_last t [] y k (t.next x) fuel p.2 tt e (omega arith))
find_year_last t (x ∷ x' ∷ xs) y k a (suc fuel) p w e f =
    let no_k : (t.year x == k) ≡ false = ground (arith, w.0) in
    let live : (t.next x == null) ≡ false = ground (arith, p.2.0, p.2.1) in
    rw (p.0, no_k, live) (find_year_last t (x' ∷ xs) y k (t.next x) fuel p.2 w.1 e (omega arith))

path_live :
    (t : Years) (xs zs : List ℕ) (y a : ℕ) → YearPath t a (xs ++ y ∷ zs) → (a == null) ≡ false
path_live t [] zs y a p = ground (arith, p.0, p.1)
path_live t (x ∷ xs) zs y a p = ground (arith, p.0, p.1)

-- A year that is there is reached, and nothing changes.
pub reach_year_found :
    (fuel : ℕ) (fresh : Option ℕ) (t : Years) (xs zs : List ℕ) (y k root : ℕ)
    → YearPath t root (xs ++ y ∷ zs)
    → Without t k xs
    → t.year y ≡ k
    → length xs < fuel
    → reach_year fuel fresh t root k ≡ some (root, t, y)
unfolding reach_year
reach_year_found fuel fresh t xs zs y k root p w e f =
    let live = path_live t xs zs y root p in
    let yes_k : (t.year y == k) ≡ true = ground arith in
    rw (live, find_year_found t xs zs y k root fuel p w e f, yes_k)

-- The object `y` behind the last one, `z`.
abbrev appended : Years → ℕ → ℕ → ℕ → Years
appended t z y k = new_year (record t { next = upd t.next z y }) y k

appended-YearPath :
    (t : Years) (xs : List ℕ) (z y k a : ℕ)
    → YearPath t a (xs ++ z ∷ [])
    → NotIn y (xs ++ z ∷ [])
    → NotIn z xs
    → y ≢ null
    → YearPath (appended t z y k) a ((xs ++ z ∷ []) ++ y ∷ [])
appended-YearPath t [] z y k a p out apart nz =
    let e : (appended t z y k).next z ≡ y = ground (arith, out.0) in
    let f : (appended t z y k).next y ≡ null = ground arith in (p.0, p.1, (e, nz, f))
appended-YearPath t (x ∷ xs) z y k a p out apart nz =
    let e : (appended t z y k).next x ≡ t.next x = ground (arith, out.0, apart.0) in
    (p.0, p.1, rw e (appended-YearPath t xs z y k (t.next x) p.2 out.1 apart.1 nz))

new_year-Without :
    (t : Years) (n : ℕ → ℕ) (ys : List ℕ) (y k : ℕ)
    → NotIn y ys
    → Without t k ys
    → Without (new_year (record t { next = n }) y k) k ys
new_year-Without t n [] y k out w = tt
new_year-Without t n (x ∷ ys) y k out w =
    let e : (new_year (record t { next = n }) y k).year x ≡ t.year x = ground (arith, out.0) in
    (rw e w.0, new_year-Without t n ys y k out.1 w.1)

-- What is reached for a year that is not there: a new object behind the others, with no hour in use.
pub record Reached (t : Years) (ys : List ℕ) (y k root' : ℕ) (t' : Years) : Type 0 where
  pub path : YearPath t' root' (ys ++ y ∷ [])
  pub without : Without t' k ys
  pub is_year : t'.year y ≡ k
  pub unused : (m d h : ℕ) → t'.hour_in_use y m d h ≡ false

snoc_cases : (ys : List ℕ) → (ys ≡ []) ⊎ ((xs : List ℕ) × (z : ℕ) × (ys ≡ xs ++ z ∷ []))
snoc_cases [] = inl refl
snoc_cases (y ∷ ys) = elim (snoc_cases ys) [
  | inl e ↦ inr ([], y, ap (λ l. y ∷ l) e)
  | inr (xs, z, e) ↦ inr (y ∷ xs, z, ap (λ l. y ∷ l) e)
]

reach_first :
    (fuel : ℕ) (t : Years) (ys : List ℕ) (y k root : ℕ)
    → YearPath t root ys
    → ys ≡ []
    → y ≢ null
    → (root' : ℕ) × (t' : Years) × (reach_year fuel (some y) t root k ≡ some (root', t', y))
      × Reached t ys y k root' t'
unfolding reach_year
reach_first fuel t ys y k root p e nz =
    let z : root ≡ null = subst (YearPath t root) e p in
    let empty : (root == null) ≡ true = ground arith in
    let f : (new_year t y k).next y ≡ null = ground arith in
    (
      y,
      new_year t y k,
      rw empty,
      record {
        path = subst (λ l. YearPath (new_year t y k) y (l ++ y ∷ [])) (sym e) (refl, nz, f);
        without = subst (Without (new_year t y k) k) (sym e) tt;
        is_year = ground arith;
        unused = λ m d h. ground arith;
      },
    )

all_of_snoc :
    (t : Years) (k : ℕ) (xs : List ℕ) (z : ℕ)
    → Without t k (xs ++ z ∷ [])
    → Without t k xs × (t.year z ≢ k)
all_of_snoc t k [] z w = (tt, w.0)
all_of_snoc t k (x ∷ xs) z w = let (a, b) = all_of_snoc t k xs z w.1 in ((w.0, a), b)

reach_last :
    (fuel : ℕ) (t : Years) (xs : List ℕ) (z y k root : ℕ)
    → YearPath t root (xs ++ z ∷ [])
    → Without t k (xs ++ z ∷ [])
    → length xs < fuel
    → reach_year fuel (some y) t root k ≡ some (root, appended t z y k, y)
unfolding reach_year
reach_last fuel t xs z y k root p w f =
    let (a, b) = all_of_snoc t k xs z w in
    let live = path_live t xs [] z root p in
    let no_k : (t.year z == k) ≡ false = ground arith in
    rw (live, find_year_last t xs z k root fuel p a b f, no_k)

pub reach_year_new :
    (fuel : ℕ) (t : Years) (ys : List ℕ) (y k root : ℕ)
    → YearPath t root ys
    → Distinct ys
    → NotIn y ys
    → y ≢ null
    → Without t k ys
    → length ys < fuel
    → (root' : ℕ) × (t' : Years) × (reach_year fuel (some y) t root k ≡ some (root', t', y))
      × Reached t ys y k root' t'
reach_year_new fuel t ys y k root p dis out nz w f = elim (snoc_cases ys) [
  | inl e ↦ reach_first fuel t ys y k root p e nz
  | inr (xs, z, e) ↦
      let p' = subst (YearPath t root) e p in
      let out' = subst (NotIn y) e out in
      let w' = subst (Without t k) e w in
      let (apart, _) = NotIn-of_Distinct xs [] z (subst Distinct e dis) in
      let n = ap length e in
      (
        root,
        appended t z y k,
        reach_last fuel t xs z y k root p' w' (omega (arith, length-append xs (z ∷ []))),
        record {
          path =
              subst (λ l. YearPath (appended t z y k) root (l ++ y ∷ [])) (sym e)
                (appended-YearPath t xs z y k root p' out' apart nz);
          without = new_year-Without t (upd t.next z y) ys y k out w;
          is_year = ground arith;
          unused = λ m d h. ground arith;
        },
      )
]
