-- ===== src/Links/Splice.antt =====
-- A new node between two others, whatever the order of the writes: every insertion of the program
-- leaves the fields that are asked for here.
use ffprinter.Prelude.{ℕ, ◌≡◌, ◌≢◌, ◌∙◌, List, [], ◌∷◌, ◌++◌}
use ffprinter.Links.{Links, first, Linked, NotIn, Distinct}
use ffprinter.Links.Laws.{SameOn, frame, Linked-append, Apart-cons, Distinct-append}

-- Nothing but the nodes `p`, `q` and `r` is written.
abbrev pub SameBut : Links → Links → ℕ → ℕ → ℕ → Type 0
SameBut l m p q r = (x : ℕ) → x ≢ p → x ≢ q → x ≢ r → (m.next x ≡ l.next x) × (m.prev x ≡ l.prev x)

pub SameBut-SameOn :
    (l m : Links) (p q r : ℕ) (xs : List ℕ)
    → SameBut l m p q r
    → NotIn p xs
    → NotIn q xs
    → NotIn r xs
    → SameOn l m xs
SameBut-SameOn l m p q r [] s hp hq hr = tt
SameBut-SameOn l m p q r (x ∷ xs) s hp hq hr =
    (s x hp.0 hq.0 hr.0, SameBut-SameOn l m p q r xs s hp.1 hq.1 hr.1)

-- The fields of `d`, of the new node `t` and of the node behind it.
pub record Spliced (l m : Links) (d t : ℕ) (ys : List ℕ) (a : ℕ) : Type 0 where
  pub next_d : m.next d ≡ t
  pub prev_d : m.prev d ≡ l.prev d
  pub next_t : m.next t ≡ first ys a
  pub prev_t : m.prev t ≡ d

module _ (l m : Links) (d t : ℕ) where
  pub splice_end :
      (xs : List ℕ) (b a : ℕ)
      → Linked l b (xs ++ d ∷ []) a
      → t ≢ 0
      → SameOn l m xs
      → Spliced l m d t [] a
      → Linked m b (xs ++ d ∷ t ∷ []) a
  splice_end xs b a h nz same s =
      let (front, back) = (Linked-append l xs (d ∷ []) b a).0 h in
      (Linked-append m xs (d ∷ t ∷ []) b a).1 (
        frame l m b d xs front same,
        (back.0, s.prev_d ∙ back.1, s.next_d, (nz, s.prev_t, s.next_t, tt)),
      )

  pub splice_middle :
      (xs : List ℕ) (y : ℕ) (ys : List ℕ) (b a : ℕ)
      → Linked l b (xs ++ d ∷ y ∷ ys) a
      → t ≢ 0
      → SameOn l m xs
      → SameOn l m ys
      → Spliced l m d t (y ∷ ys) a
      → m.prev y ≡ t
      → m.next y ≡ l.next y
      → Linked m b (xs ++ d ∷ t ∷ y ∷ ys) a
  splice_middle xs y ys b a h nz same same' s py ny =
      let (front, back) = (Linked-append l xs (d ∷ y ∷ ys) b a).0 h in
      let (nzy, _, nexty, rest) = back.3 in
      (Linked-append m xs (d ∷ t ∷ y ∷ ys) b a).1 (
        frame l m b d xs front same,
        (
          back.0,
          s.prev_d ∙ back.1,
          s.next_d,
          (nz, s.prev_t, s.next_t, (nzy, py, ny ∙ nexty, frame l m y a ys rest same')),
        ),
      )

-- What distinctness says of one node of a list.
pub NotIn-of_Distinct : (xs ys : List ℕ) (d : ℕ) → Distinct (xs ++ d ∷ ys) → NotIn d xs × NotIn d ys
NotIn-of_Distinct xs ys d h =
    let (a, b, c) = (Distinct-append xs (d ∷ ys)).0 h in (((Apart-cons xs ys d).0 c).0, b.0)
