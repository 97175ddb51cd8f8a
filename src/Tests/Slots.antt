-- ===== src/Tests/Slots.antt =====
-- The pool allocator with two slots in an array and the bitmap that is a list of bits.
use ffprinter.Prelude.{
  ℕ, zero, suc, ◌≡◌, ◌≢◌, ◌↔◌, inr, refl, Bool, true, none, some, List, [], ◌∷◌, arith, ◌==◌,
  length, get_elem?, success, some_inj,
}
use mathlib.Core.Path.{subst}
use ffprinter.Pool.Bits.{list_bitmap, count_zeros}
use ffprinter.Pool.{
  Objects, Layer1, Layer2, add_to_layer2_arr, del_from_layer2_arr, get_from_layer2_arr,
}
use ffprinter.Pool.View.{view, IsValid}
use ffprinter.Pool.Add.{Took, add_to_layer2_arr-Took}
use ffprinter.Pool.Del.{Deleted, get_from_layer2_arr-view, del_from_layer2_arr-Deleted}

-- An object that is only its index.
abbrev numbers : Objects
numbers = record { Obj = ℕ; wiped = 0; set_index = λ o i. i }

abbrev full_array : Layer1 (List Bool) ℕ
full_array = record { arr = 0 ∷ 1 ∷ []; usage_map = true ∷ true ∷ [] }

-- Both slots of the one array are in use: the next object needs a second array.
abbrev full_pool : Layer2 (List Bool) ℕ
full_pool = record { l1_arr = full_array ∷ []; l1_arr_map = true ∷ []; live = true }

full_wide :
    (k : ℕ) (l1 : Layer1 (List Bool) ℕ)
    → get_elem? full_pool.l1_arr k ≡ some l1
    → (length l1.arr ≡ 2) × (length l1.usage_map ≡ 2)
full_wide zero l1 e =
    subst (λ (m : Layer1 (List Bool) ℕ). (length m.arr ≡ 2) × (length m.usage_map ≡ 2)) (some_inj e)
      (refl, refl)
full_wide (suc k) l1 e = absurd (cc)

full_marked :
    (k : ℕ) (l1 : Layer1 (List Bool) ℕ)
    → get_elem? full_pool.l1_arr k ≡ some l1
    → get_elem? full_pool.l1_arr_map k ≡ some (count_zeros l1.usage_map == 0)
unfolding count_zeros
full_marked zero l1 e =
    subst (λ (m : Layer1 (List Bool) ℕ). some true ≡ some (count_zeros m.usage_map == 0))
      (some_inj e) refl
full_marked (suc k) l1 e = absurd (cc)

full_pool-IsValid : IsValid list_bitmap numbers 2 full_pool
full_pool-IsValid = record {
  sized = omega arith;
  small = omega arith;
  live = refl;
  mapped = refl;
  some_array = omega arith;
  few = omega arith;
  wide = full_wide;
  marked = full_marked;
}

add_to_layer2_arr-Took_example :
    Took list_bitmap numbers 2 1 1 full_pool
      (add_to_layer2_arr list_bitmap numbers 2 1 1 true true true full_pool)
add_to_layer2_arr-Took_example =
    add_to_layer2_arr-Took list_bitmap numbers 2 1 1 full_pool true true true full_pool-IsValid
      (omega arith) (omega arith) (inr (refl, refl, refl))

del_from_layer2_arr-Deleted_example :
    Deleted list_bitmap numbers 2 1 1 full_pool 1
      (del_from_layer2_arr list_bitmap numbers 2 1 1 full_pool 1)
del_from_layer2_arr-Deleted_example =
    del_from_layer2_arr-Deleted list_bitmap numbers 2 1 1 full_pool 1 full_pool-IsValid

get_from_layer2_arr-view_example :
    (code : ℕ) × (get_from_layer2_arr list_bitmap numbers 2 1 1 full_pool 1
      ≡ some (code, view list_bitmap numbers 2 full_pool 1))
    × ((code ≡ success) ↔ (view list_bitmap numbers 2 full_pool 1 ≢ none))
get_from_layer2_arr-view_example =
    get_from_layer2_arr-view list_bitmap numbers 2 1 1 full_pool 1 full_pool-IsValid
