-- ===== src/Arrays/Put.antt =====
-- put_into_children_array, put_into_section_array and put_into_sect_field_array on their stores.
use ffprinter.Prelude.{
  ℕ, ◌+◌, ◌%◌, ◌^◌, ◌<◌, ◌≡◌, ◌≢◌, ◌⊎◌, inl, inr, Option, some, arith, length, success, malloc_fail,
  ◌==◌, false,
}
use ffprinter.Links.{null, upd}
use ffprinter.Arrays.{
  Pointers, Tree, put_into_children_array, Files, put_into_section_array, put_into_sect_field_array,
}
use ffprinter.Arrays.Slots.{IsSized}
use ffprinter.Arrays.Laws.{Put, Refused, put_into_array-Put}

upd-same {ℓ} : {A : Type ℓ} (f : ℕ → A) (p : ℕ) (v : A) → upd f p v p ≡ v
upd-same f p v = ground arith

upd-other {ℓ} : {A : Type ℓ} (f : ℕ → A) (p q : ℕ) (v : A) → q ≢ p → upd f p v q ≡ f q
upd-other f p q v h = ground arith

-- The array at `p` has one item more, and the other arrays are as they were.
pub record PutAt (f g : ℕ → Pointers) (p x : ℕ) : Type 0 where
  pub put : Put (f p) (g p) x
  pub others : (q : ℕ) → q ≢ p → g q ≡ f q

-- `x` has the value `v` now, and nothing else has changed.
pub record SetAt (f g : ℕ → ℕ) (x v : ℕ) : Type 0 where
  pub here : g x ≡ v
  pub rest : (q : ℕ) → q ≢ x → g q ≡ f q

upd-PutAt : (f : ℕ → Pointers) (p x : ℕ) (a : Pointers) → Put (f p) a x → PutAt f (upd f p a) p x
upd-PutAt f p x a h = record { put = rw (upd-same f p a) h; others = λ q n. upd-other f p q a n }

upd-SetAt : (f : ℕ → ℕ) (x v : ℕ) → SetAt f (upd f x v) x v
upd-SetAt f x v = record { here = upd-same f x v; rest = λ q n. upd-other f x q v n }

-- The new child is the last one of its parent, which it points to, and is one level deeper.
pub record Adopted (t u : Tree) (parent entry : ℕ) : Type 0 where
  pub children : PutAt t.child u.child parent entry
  pub parents : SetAt t.parent u.parent entry parent
  pub depths : SetAt t.depth u.depth entry ((t.depth parent + 1) % 2 ^ 64)

-- On an array whose numbers add up to its size, put_into_children_array fails only if the array is
-- full and there is no memory, and then changes nothing; else the entry is the last child, its
-- parent and depth are set, and no other entry changes.
pub put_into_children_array-Adopted :
    (mem : Option (ℕ → ℕ)) (t : Tree) (parent entry : ℕ)
    → parent ≢ null
    → entry ≢ null
    → IsSized (t.child parent)
    → length (t.child parent).arr + 1 < 2 ^ 64
    → (Refused mem (t.child parent)
        × (put_into_children_array mem t parent entry ≡ some (malloc_fail, t)))
      ⊎ ((u : Tree) × (put_into_children_array mem t parent entry ≡ some (success, u))
          × Adopted t u parent entry)
unfolding put_into_children_array
put_into_children_array-Adopted mem t parent entry p e s few =
    let live : (parent == null) ≡ false = ground arith in
    let live' : (entry == null) ≡ false = ground arith in
    elim (put_into_array-Put mem entry (t.child parent) s few) [
      | inl (r, h) ↦ inl (r, rw (live, h))
      | inr (a, h, w) ↦ inr (
        record {
          child = upd t.child parent a;
          parent = upd t.parent entry parent;
          depth = upd t.depth entry ((t.depth parent + 1) % 2 ^ 64);
        },
        rw (live, h, live'),
        record {
          children = upd-PutAt t.child parent entry a w;
          parents = upd-SetAt t.parent entry parent;
          depths = upd-SetAt t.depth entry ((t.depth parent + 1) % 2 ^ 64);
        },
      )
    ]

-- On an array whose numbers add up to its size, put_into_section_array fails only if the array is
-- full and there is no memory, and then changes nothing; else the section is the last one of its
-- file, which it points to, and no other file or section changes.
pub put_into_section_array-PutAt :
    (mem : Option (ℕ → ℕ)) (f : Files) (target sect : ℕ)
    → target ≢ null
    → sect ≢ null
    → IsSized (f.sections target)
    → length (f.sections target).arr + 1 < 2 ^ 64
    → (Refused mem (f.sections target)
        × (put_into_section_array mem f target sect ≡ some (malloc_fail, f)))
      ⊎ ((g : Files) × (put_into_section_array mem f target sect ≡ some (success, g))
          × PutAt f.sections g.sections target sect
          × SetAt f.parent_file_data g.parent_file_data sect target)
unfolding put_into_section_array
put_into_section_array-PutAt mem f target sect p e s few =
    let live : (target == null) ≡ false = ground arith in
    let live' : (sect == null) ≡ false = ground arith in
    elim (put_into_array-Put mem sect (f.sections target) s few) [
      | inl (r, h) ↦ inl (r, rw (live, h))
      | inr (a, h, w) ↦ inr (
        record {
          sections = upd f.sections target a;
          parent_file_data = upd f.parent_file_data sect target;
        },
        rw (live, h, live'),
        upd-PutAt f.sections target sect a w,
        upd-SetAt f.parent_file_data sect target,
      )
    ]

-- On an array whose numbers add up to its size, put_into_sect_field_array fails only if the array
-- is full and there is no memory, and then changes nothing; else the field is the last one of its
-- record, and no other record changes.
pub put_into_sect_field_array-PutAt :
    (mem : Option (ℕ → ℕ)) (recs : ℕ → Pointers) (rec sect : ℕ)
    → rec ≢ null
    → IsSized (recs rec)
    → length (recs rec).arr + 1 < 2 ^ 64
    → (Refused mem (recs rec) × (put_into_sect_field_array mem recs rec sect ≡ (malloc_fail, recs)))
      ⊎ ((g : ℕ → Pointers) × (put_into_sect_field_array mem recs rec sect ≡ (success, g))
          × PutAt recs g rec sect)
unfolding put_into_sect_field_array
put_into_sect_field_array-PutAt mem recs rec sect p s few =
    let live : (rec == null) ≡ false = ground arith in
    elim (put_into_array-Put mem sect (recs rec) s few) [
      | inl (r, h) ↦ inl (r, rw (live, h))
      | inr (a, h, w) ↦ inr (upd recs rec a, rw (live, h), upd-PutAt recs rec sect a w)
    ]
