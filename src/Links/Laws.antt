-- ===== src/Links/Laws.antt =====
-- Lists that are split and joined, and writes outside of them.
use ffprinter.Prelude.{ℕ, ◌≢◌, ◌≡◌, ◌↔◌, refl, sym, ◌∙◌, List, [], ◌∷◌, ◌++◌, arith, All}
use ffprinter.Links.{upd, Links, set_next, set_prev, first, last, Linked, NotIn, Distinct}

pub upd-ne : (f : ℕ → ℕ) (p v q : ℕ) → p ≢ q → upd f p v q ≡ f q
upd-ne f p v q h = ground arith

pub upd_self : (f : ℕ → ℕ) (p v : ℕ) → upd f p v p ≡ v
upd_self f p v = ground arith

-- The fields of the nodes `xs` are the same in both.
abbrev pub SameOn : Links → Links → List ℕ → Type 0
SameOn l m xs = All (λ x. (m.next x ≡ l.next x) × (m.prev x ≡ l.prev x)) xs

pub frame :
    (l m : Links) (b a : ℕ) (xs : List ℕ) → Linked l b xs a → SameOn l m xs → Linked m b xs a
frame l m b a [] h s = tt
frame l m b a (x ∷ xs) h s = (h.0, s.0.1 ∙ h.1, s.0.0 ∙ h.2, frame l m x a xs h.3 s.1)

module _ (l : Links) (p v : ℕ) where
  pub set_next-SameOn : (xs : List ℕ) → NotIn p xs → SameOn l (set_next l p v) xs
  set_next-SameOn [] h = tt
  set_next-SameOn (x ∷ xs) h = ((ground arith, refl), set_next-SameOn xs h.1)

  pub set_prev-SameOn : (xs : List ℕ) → NotIn p xs → SameOn l (set_prev l p v) xs
  set_prev-SameOn [] h = tt
  set_prev-SameOn (x ∷ xs) h = ((refl, ground arith), set_prev-SameOn xs h.1)

pub SameOn-trans : (l m n : Links) (xs : List ℕ) → SameOn l m xs → SameOn m n xs → SameOn l n xs
SameOn-trans l m n [] h k = tt
SameOn-trans l m n (x ∷ xs) h k = ((k.0.0 ∙ h.0.0, k.0.1 ∙ h.0.1), SameOn-trans l m n xs h.1 k.1)

pub first-append : (xs ys : List ℕ) (a : ℕ) → first (xs ++ ys) a ≡ first xs (first ys a)
first-append [] ys a = refl
first-append (x ∷ xs) ys a = refl

pub last-append : (xs ys : List ℕ) (b : ℕ) → last (xs ++ ys) b ≡ last ys (last xs b)
last-append [] ys b = refl
last-append (x ∷ xs) ys b = last-append xs ys x

pub Linked-append :
    (l : Links) (xs ys : List ℕ) (b a : ℕ)
    → Linked l b (xs ++ ys) a ↔ (Linked l b xs (first ys a) × Linked l (last xs b) ys a)
Linked-append l [] ys b a = (λ h. (tt, h), λ h. h.1)
Linked-append l (x ∷ xs) ys b a =
    let ih = Linked-append l xs ys x a in
    let e = first-append xs ys a in
    (
      λ h. let (left, right) = ih.0 h.3 in ((h.0, h.1, h.2 ∙ e, left), right),
      λ h. (h.0.0, h.0.1, h.0.2 ∙ sym e, ih.1 (h.0.3, h.1)),
    )

pub NotIn-append : (p : ℕ) (xs ys : List ℕ) → NotIn p (xs ++ ys) ↔ (NotIn p xs × NotIn p ys)
NotIn-append p [] ys = (λ h. (tt, h), λ h. h.1)
NotIn-append p (x ∷ xs) ys =
    let ih = NotIn-append p xs ys in
    (λ h. let (a, b) = ih.0 h.1 in ((h.0, a), b), λ h. (h.0.0, ih.1 (h.0.1, h.1)))

-- Distinctness of `xs ++ p ∷ ys` does not depend on where `p` stands.
abbrev pub Apart : List ℕ → List ℕ → Type 0
Apart xs ys = All (λ x. NotIn x ys) xs

pub Distinct-append :
    (xs ys : List ℕ) → Distinct (xs ++ ys) ↔ (Distinct xs × Distinct ys × Apart xs ys)
Distinct-append [] ys = (λ h. (tt, h, tt), λ h. h.1)
Distinct-append (x ∷ xs) ys =
    let ih = Distinct-append xs ys in
    let n = NotIn-append x xs ys in
    (
      λ h. let (a, b, c) = ih.0 h.1 in let (u, v) = n.0 h.0 in ((u, a), b, (v, c)),
      λ h. (n.1 (h.0.0, h.2.0), ih.1 (h.0.1, h.1, h.2.1)),
    )

pub Apart-cons : (xs ys : List ℕ) (p : ℕ) → Apart xs (p ∷ ys) ↔ (NotIn p xs × Apart xs ys)
Apart-cons [] ys p = (λ h. (tt, tt), λ h. tt)
Apart-cons (x ∷ xs) ys p =
    let ih = Apart-cons xs ys p in
    (
      λ h. let (a, b) = ih.0 h.1 in ((λ e. h.0.0 (sym e), a), (h.0.1, b)),
      λ h. ((λ e. h.0.0 (sym e), h.1.0), ih.1 (h.0.1, h.1.1)),
    )

-- A fresh node may be put anywhere.
pub Distinct-insert :
    (xs ys : List ℕ) (p : ℕ) → Distinct (xs ++ p ∷ ys) ↔ (Distinct (xs ++ ys) × NotIn p (xs ++ ys))
Distinct-insert xs ys p =
    let whole = Distinct-append xs (p ∷ ys) in
    let parts = Distinct-append xs ys in
    let apart = Apart-cons xs ys p in
    let mem = NotIn-append p xs ys in
    (
      λ h.
          let (a, b, c) = whole.0 h in
          let (u, v) = apart.0 c in (parts.1 (a, b.1, v), mem.1 (u, b.0)),
      λ h.
          let (a, b, c) = parts.0 h.0 in
          let (u, v) = mem.0 h.1 in whole.1 (a, (v, b), apart.1 (u, c)),
    )

-- A new successor for the last node, and a new predecessor for the first one.
pub relink_last :
    (l : Links) (xs : List ℕ) (d b a t : ℕ)
    → Linked l b (xs ++ d ∷ []) a
    → NotIn d xs
    → Linked (set_next l d t) b (xs ++ d ∷ []) t
relink_last l xs d b a t h out =
    let (front, back) = (Linked-append l xs (d ∷ []) b a).0 h in
    (Linked-append (set_next l d t) xs (d ∷ []) b t).1 (
      frame l (set_next l d t) b d xs front (set_next-SameOn l d t xs out),
      (back.0, back.1, ground arith, tt),
    )

pub relink_first :
    (l : Links) (y : ℕ) (ys : List ℕ) (b a t : ℕ)
    → Linked l b (y ∷ ys) a
    → NotIn y ys
    → Linked (set_prev l y t) t (y ∷ ys) a
relink_first l y ys b a t h out =
    (h.0, ground arith, h.2, frame l (set_prev l y t) y a ys h.3 (set_prev-SameOn l y t ys out))
