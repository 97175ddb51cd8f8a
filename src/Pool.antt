-- ===== src/Pool.antt =====
-- The pool allocator of ffprinter_function_template.h (layer 1 and layer 2 arrays), for one object
-- type: init_layer1_…_arr, init_layer2_…_arr, add_…_to_layer2_arr, del_…_from_layer2_arr,
-- get_…_from_layer2_arr and get_l1_…_from_layer2_arr, with ffp_grow_bitmap of ffprinter.c.
-- The macro parameters L1_ARR_SIZE, L2_ARR_INIT_SIZE and L2_ARR_GROW_SIZE and the object type are
-- those of the section. The bitmaps are those of the library under lib/.
pub mod Bits
pub mod View
pub mod Valid
pub mod Write
pub mod Add
pub mod Del
use ffprinter.Prelude.{
  ℕ, zero, suc, ◌+◌, ◌-◌, ◌*◌, ◌/◌, ◌%◌, ◌^◌, Bool, true, false, not, ◌&&◌, ◌||◌, Option, none,
  some, List, [], ◌∷◌, ◌++◌, ltb, ◌==◌, if◌then◌else◌, length, get_elem?, set, replicate, success,
  wrong_args, malloc_fail, find_fail, index_out_of_range,
}
use ffprinter.Pool.Bits.{Bitmap}

-- An object with the field of obj_meta_data_fields; `wiped` is all zero bytes.
pub record Objects : Type 1 where
  pub Obj : Type 0
  pub wiped : Obj
  pub set_index : Obj → ℕ → Obj

pub record Layer1 (Map Obj : Type 0) : Type 0 where
  pub arr : List Obj
  pub usage_map : Map

-- `live` says that `l1_arr` points to memory that is still allocated.
pub record Layer2 (Map Obj : Type 0) : Type 0 where
  pub l1_arr : List (Layer1 Map Obj)
  pub l1_arr_map : Map
  pub live : Bool

-- What `add` returns: the code, and `*ret_obj` and `*index` as the index of the object.
pub record Added (Map Obj : Type 0) : Type 0 where
  pub code : ℕ
  pub index : Option ℕ
  pub pool : Layer2 Map Obj

-- `n - 1` on uint64_t.
abbrev pub pred_64 : ℕ → ℕ
pred_64 n = (n + 2 ^ 64 - 1) % 2 ^ 64

-- The map grows only if the realloc that it may need succeeds.
unfoldable pub ffp_grow_bitmap : (B : Bitmap) → Bool → B.Map → ℕ → ℕ × B.Map
ffp_grow_bitmap B mem map new_length =
    if ltb (B.length map) new_length
    then if not (B.blocks new_length == B.blocks (B.length map)) && not mem
      then (malloc_fail, map)
      else (success, B.grow map new_length false)
    else (success, map)

module _ (B : Bitmap) (O : Objects) (l1_arr_size l2_arr_init_size l2_arr_grow_size : ℕ) where
  open B use {Map}
  open O use {Obj, wiped, set_index}

  pub init_layer1_arr : Layer1 Map Obj
  init_layer1_arr = record {
    arr = replicate l1_arr_size wiped;
    usage_map = B.init l1_arr_size false;
  }

  -- With `sizeof(map_block)` and the answers of the three calls of malloc. The map gets as many
  -- bytes as it has blocks: `none` stands for bitmap_init writing blocks behind them.
  pub init_layer2_arr : ℕ → Bool → Bool → Bool → Option (ℕ × Option (Layer2 Map Obj))
  init_layer2_arr map_block_size mem_pointers mem_arrays mem_map =
      if not (mem_pointers && mem_arrays && mem_map)
      then some (malloc_fail, none)
      else if ltb (B.blocks l2_arr_init_size) (B.blocks l2_arr_init_size * map_block_size)
      then none
      else some (
        success,
        some (record {
          l1_arr = replicate l2_arr_init_size init_layer1_arr;
          l1_arr_map = B.init l2_arr_init_size false;
          live = true;
        }),
      )

  -- Behind the growth: the first usable array, its first usable slot, the wipe and the marks.
  -- `none` stands for a bitmap without a zero: its index would not be set.
  pub take_slot : Layer2 Map Obj → Option (Added Map Obj)
  take_slot l2 = elim (B.first_zero l2.l1_arr_map) [
    | none ↦ none
    | some k ↦ elim (get_elem? l2.l1_arr k) [
      | none ↦ none
      | some l1 ↦ elim (B.first_zero l1.usage_map) [
        | none ↦ none
        | some j ↦
            let usage = B.write l1.usage_map j true in
            let index = k * l1_arr_size + j in
            let l1' : Layer1 Map Obj = record {
              arr = set l1.arr j (set_index wiped index);
              usage_map = usage;
            } in
            some (record {
              code = success;
              index = some index;
              pool = record l2 {
                l1_arr = set l2.l1_arr k l1';
                l1_arr_map =
                    if B.number_of_zeros usage == 0
                    then B.write l2.l1_arr_map k true
                    else l2.l1_arr_map;
              };
            })
      ]
    ]
  ]

  -- The new arrays, and the longer map.
  pub grow_layer2 : Bool → Layer2 Map Obj → Layer2 Map Obj
  unfolding ffp_grow_bitmap init_layer1_arr
  grow_layer2 mem_map l2 = record {
    l1_arr = l2.l1_arr ++ replicate l2_arr_grow_size init_layer1_arr;
    l1_arr_map =
        (ffp_grow_bitmap B mem_map l2.l1_arr_map (B.length l2.l1_arr_map + l2_arr_grow_size)).1;
    live = true;
  }

  -- The result of ffp_grow_bitmap is not looked at. Where malloc fails behind the realloc, the
  -- pool keeps the pointer that realloc freed. `none` stands for its use.
  pub add_to_layer2_arr : Bool → Bool → Bool → Layer2 Map Obj → Option (Added Map Obj)
  unfolding take_slot grow_layer2
  add_to_layer2_arr mem_pointers mem_arrays mem_map l2 =
      if not l2.live
      then none
      else if B.number_of_zeros l2.l1_arr_map == 0
      then if not mem_pointers
        then some (record { code = malloc_fail; index = none; pool = l2 })
        else if not mem_arrays
        then some (record { code = malloc_fail; index = none; pool = record l2 { live = false } })
        else take_slot (grow_layer2 mem_map l2)
      else take_slot l2

  -- The check of an index, which `del` and `get` share: the code, or the array and the two indices.
  -- `none` stands for an array that is not there or is freed.
  pub data Slot : Type 0 where
    bad : ℕ → Slot
    good : ℕ → ℕ → Layer1 Map Obj → Slot

  pub find_slot : Layer2 Map Obj → ℕ → Option Slot
  find_slot l2 index =
      let k = index / l1_arr_size in
      let j = index % l1_arr_size in
      if ltb (pred_64 (B.length l2.l1_arr_map)) k
      then some (bad index_out_of_range)
      else if not l2.live
      then none
      else elim (get_elem? l2.l1_arr k) [
        | none ↦ none
        | some l1 ↦
            if ltb (pred_64 (B.length l1.usage_map)) j
            then some (bad index_out_of_range)
            else elim (B.read l1.usage_map j) [
              | none ↦ none
              | some used ↦ if used then some (good k j l1) else some (bad find_fail)
            ]
      ]

  pub del_from_layer2_arr : Layer2 Map Obj → ℕ → Option (ℕ × Layer2 Map Obj)
  unfolding find_slot
  del_from_layer2_arr l2 index = elim (find_slot l2 index) [
    | none ↦ none
    | some (bad code) ↦ some (code, l2)
    | some (good k j l1) ↦
        let l1' : Layer1 Map Obj = record {
          arr = set l1.arr j wiped;
          usage_map = B.write l1.usage_map j false;
        } in
        elim (B.read l2.l1_arr_map k) [
          | none ↦ none
          | some full ↦ some (
            success,
            record l2 {
              l1_arr = set l2.l1_arr k l1';
              l1_arr_map = if full then B.write l2.l1_arr_map k false else l2.l1_arr_map;
            },
          )
        ]
  ]

  -- The code and `*ret_obj`.
  pub get_from_layer2_arr : Layer2 Map Obj → ℕ → Option (ℕ × Option Obj)
  unfolding find_slot
  get_from_layer2_arr l2 index = elim (find_slot l2 index) [
    | none ↦ none
    | some (bad code) ↦ some (code, none)
    | some (good k j l1) ↦ some (success, get_elem? l1.arr j)
  ]

  pub get_l1_from_layer2_arr : Layer2 Map Obj → ℕ → Option (ℕ × Option (Layer1 Map Obj))
  get_l1_from_layer2_arr l2 k =
      if ltb (pred_64 (B.length l2.l1_arr_map)) k
      then some (index_out_of_range, none)
      else if not l2.live
      then none
      else elim (get_elem? l2.l1_arr k) [ none ↦ none | some l1 ↦ some (success, some l1) ]
