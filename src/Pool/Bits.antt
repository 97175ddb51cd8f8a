-- ===== src/Pool/Bits.antt =====
-- The bitmap library under lib/, by what its header documents: a bitmap is a row of bits that is
-- read and written by index and searched for its first zero. It is a parameter of the model.
use ffprinter.Prelude.{
  ℕ, zero, suc, ◌+◌, ◌-◌, ◌/◌, ◌≤◌, ◌<◌, ◌≡◌, refl, ap, Bool, true, false, Option, none, some, List,
  [], ◌∷◌, ◌++◌, arith, length, get_elem?, set, replicate,
}
use mathlib.Core.Option

unfoldable pub count_zeros : List Bool → ℕ
count_zeros [] = 0
count_zeros (true ∷ bs) = count_zeros bs
count_zeros (false ∷ bs) = suc (count_zeros bs)

unfoldable pub find_zero : List Bool → Option ℕ
find_zero [] = none
find_zero (true ∷ bs) = Option.map suc (find_zero bs)
find_zero (false ∷ bs) = some 0

pub record Bitmap : Type 1 where
  pub Map : Type 0
  pub bits : Map → List Bool
  pub init : ℕ → Bool → Map
  pub length : Map → ℕ
  pub number_of_zeros : Map → ℕ
  pub read : Map → ℕ → Option Bool
  pub write : Map → ℕ → Bool → Map
  pub first_zero : Map → Option ℕ
  pub grow : Map → ℕ → Bool → Map
  pub blocks : ℕ → ℕ
  pub bits-init : (n : ℕ) (v : Bool) → bits (init n v) ≡ replicate n v
  pub length_lem : (m : Map) → length m ≡ ffprinter.Prelude.length (bits m)
  pub number_of_zeros_lem : (m : Map) → number_of_zeros m ≡ count_zeros (bits m)
  pub read_lem : (m : Map) (i : ℕ) → read m i ≡ get_elem? (bits m) i
  pub bits-write : (m : Map) (i : ℕ) (v : Bool) → bits (write m i v) ≡ set (bits m) i v
  pub first_zero_lem : (m : Map) → first_zero m ≡ find_zero (bits m)
  pub bits-grow :
      (m : Map) (k : ℕ) (v : Bool) → bits (grow m (length m + k) v) ≡ bits m ++ replicate k v

-- A bitmap that is a list of bits meets the assumptions.
unfoldable pub grow_list : List Bool → ℕ → Bool → List Bool
grow_list bs n v = bs ++ replicate (n - length bs) v

pub grow_list_lem :
    (bs : List Bool) (k : ℕ) (v : Bool) → grow_list bs (length bs + k) v ≡ bs ++ replicate k v
unfolding grow_list
grow_list_lem bs k v = let e : length bs + k - length bs ≡ k = omega arith in rw e

abbrev pub list_bitmap : Bitmap
list_bitmap = record {
  Map = List Bool;
  bits = λ m. m;
  init = λ n v. replicate n v;
  length = λ m. length m;
  number_of_zeros = count_zeros;
  read = get_elem?;
  write = set;
  first_zero = find_zero;
  grow = grow_list;
  blocks = λ n. (n + 63) / 64;
  bits-init = λ n v. refl;
  length_lem = λ m. refl;
  number_of_zeros_lem = λ m. refl;
  read_lem = λ m i. refl;
  bits-write = λ m i v. refl;
  first_zero_lem = λ m. refl;
  bits-grow = grow_list_lem;
}
