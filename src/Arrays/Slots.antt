-- ===== src/Arrays/Slots.antt =====
-- The used cells of an array of pointers, and what growth and a write do to them.
use ffprinter.Prelude.{
  take, take-set_ge, ℕ, zero, suc, ◌+◌, ◌≤◌, ◌≡◌, refl, ap, ◌∙◌, List, arith, length, set,
  length-set,
}
use ffprinter.Arrays.{Pointers, cells, wipe}
use ffprinter.Links.{null}

-- The pointers that the array holds.
abbrev pub items : Pointers → List ℕ
items a = take a.num a.arr

-- The two numbers add up to the size of the allocation.
pub record IsSized (a : Pointers) : Type 0 where
  pub sized : a.num + a.free_num ≡ length a.arr

pub length-cells : (junk : ℕ → ℕ) (n : ℕ) → length (cells junk n) ≡ n
unfolding cells
length-cells junk zero = refl
length-cells junk (suc n) = ap suc (length-cells junk n)

pub length-wipe : (xs : List ℕ) (k n : ℕ) → length (wipe xs k n) ≡ length xs
unfolding wipe
length-wipe xs k zero = refl
length-wipe xs k (suc n) = length-wipe (set xs k null) (suc k) n ∙ length-set xs k null

pub take-wipe : (m k n : ℕ) (xs : List ℕ) → m ≤ k → take m (wipe xs k n) ≡ take m xs
unfolding wipe
take-wipe m k zero xs h = refl
take-wipe m k (suc n) xs h =
    take-wipe m (suc k) n (set xs k null) (omega arith) ∙ take-set_ge m k xs null h
