-- ===== src/Links.antt =====
-- Doubly linked lists in memory: two pointer fields of the nodes, as functions of the address.
-- The entries of ffprinter stand in several such lists at once (link_prev and link_next,
-- tod_prev_sort_min and tod_next_sort_min, prev_same_fn and next_same_fn, …); a null pointer is 0.
pub mod Laws
pub mod Splice
use ffprinter.Prelude.{ℕ, ◌≡◌, ◌≢◌, Bool, List, [], ◌∷◌, ◌==◌, if◌then◌else◌, All}

abbrev pub null : ℕ
null = 0

abbrev pub upd {ℓ} : {A : Type ℓ} → (ℕ → A) → ℕ → A → ℕ → A
upd f p v q = if p == q then v else f q

pub record Links : Type 0 where
  pub next : ℕ → ℕ
  pub prev : ℕ → ℕ

abbrev pub set_next : Links → ℕ → ℕ → Links
set_next l p v = record l { next = upd l.next p v }

abbrev pub set_prev : Links → ℕ → ℕ → Links
set_prev l p v = record l { prev = upd l.prev p v }

-- The first address of a list, or what follows it; the last one, or what stands before it.
abbrev pub first : List ℕ → ℕ → ℕ
first [] a = a
first (x ∷ xs) a = x

abbrev pub last : List ℕ → ℕ → ℕ
last [] b = b
last (x ∷ xs) b = last xs x

-- The nodes `xs` are linked both ways, from `b` before the first to `a` behind the last.
abbrev pub Linked : Links → ℕ → List ℕ → ℕ → Type 0
Linked l b [] a = Unit
Linked l b (x ∷ xs) a = (x ≢ 0) × (l.prev x ≡ b) × (l.next x ≡ first xs a) × Linked l x xs a

abbrev pub NotIn : ℕ → List ℕ → Type 0
NotIn p xs = All (λ x. x ≢ p) xs

abbrev pub Distinct : List ℕ → Type 0
Distinct [] = Unit
Distinct (x ∷ xs) = NotIn x xs × Distinct xs

-- A whole list: it begins and ends with a null pointer, and no node occurs twice.
pub record IsChain (l : Links) (xs : List ℕ) : Type 0 where
  pub linked : Linked l null xs null
  pub distinct : Distinct xs
