-- ===== src/Pool/View.antt =====
-- What a pool means: the objects by index. And when it is well formed.
use ffprinter.Prelude.{
  ℕ, zero, suc, ◌+◌, ◌*◌, ◌/◌, ◌%◌, ◌^◌, ◌<◌, ◌≡◌, ◌≢◌, refl, Bool, true, false, Option, none, some,
  List, [], ◌∷◌, arith, ◌==◌, length, get_elem?,
}
use ffprinter.Pool.Bits.{Bitmap, count_zeros, find_zero}
use ffprinter.Pool.{Objects, Layer1, Layer2}

pub find_zero_lem :
    (bs : List Bool)
    → count_zeros bs ≢ 0
    → (k : ℕ) × (find_zero bs ≡ some k) × (get_elem? bs k ≡ some false)
unfolding count_zeros find_zero
find_zero_lem [] h = absurd (h refl)
find_zero_lem (true ∷ bs) h = let (k, e, g) = find_zero_lem bs h in (suc k, rw e, g)
find_zero_lem (false ∷ bs) h = (0, refl, refl)

pub count_zeros-get_elem? :
    (bs : List Bool) (k : ℕ) → get_elem? bs k ≡ some false → count_zeros bs ≢ 0
unfolding count_zeros
count_zeros-get_elem? [] k h e = cc
count_zeros-get_elem? (true ∷ bs) zero h e = cc
count_zeros-get_elem? (true ∷ bs) (suc k) h e = count_zeros-get_elem? bs k h e
count_zeros-get_elem? (false ∷ bs) k h e = omega arith

pub slot_index : (n k j : ℕ) → j < n → ((k * n + j) / n ≡ k) × ((k * n + j) % n ≡ j)
slot_index n k j h = (grind arith, grind arith)

pub slot_unique : (n q k j : ℕ) → 0 < n → q / n ≡ k → q % n ≡ j → q ≡ k * n + j
slot_unique n q k j h e f = grind arith

module _ (B : Bitmap) (O : Objects) (l1_arr_size : ℕ) where
  open B use {Map, bits}
  open O use {Obj}

  -- The object of a slot, from its bit and its cell.
  abbrev pub view_cell : Option Bool → Option Obj → Option Obj
  view_cell none o = none
  view_cell (some false) o = none
  view_cell (some true) o = o

  abbrev pub view_in : Layer1 Map Obj → ℕ → Option Obj
  view_in l1 j = view_cell (get_elem? (bits l1.usage_map) j) (get_elem? l1.arr j)

  abbrev pub view_array : Option (Layer1 Map Obj) → ℕ → Option Obj
  view_array none j = none
  view_array (some l1) j = view_in l1 j

  -- The object at an index, if the slot is in use.
  abbrev pub view : Layer2 Map Obj → ℕ → Option Obj
  view l2 i = view_array (get_elem? l2.l1_arr (i / l1_arr_size)) (i % l1_arr_size)

  -- Every array has its size, and is marked full exactly when it has no free slot.
  pub record IsValid (l2 : Layer2 Map Obj) : Type 0 where
    pub sized : 0 < l1_arr_size
    pub small : l1_arr_size < 2 ^ 64
    pub live : l2.live ≡ true
    pub mapped : length (bits l2.l1_arr_map) ≡ length l2.l1_arr
    pub some_array : 0 < length l2.l1_arr
    pub few : length l2.l1_arr < 2 ^ 64
    pub wide :
        (k : ℕ) (l1 : Layer1 Map Obj)
        → get_elem? l2.l1_arr k ≡ some l1
        → (length l1.arr ≡ l1_arr_size) × (length (bits l1.usage_map) ≡ l1_arr_size)
    pub marked :
        (k : ℕ) (l1 : Layer1 Map Obj)
        → get_elem? l2.l1_arr k ≡ some l1
        → get_elem? (bits l2.l1_arr_map) k ≡ some (count_zeros (bits l1.usage_map) == 0)
