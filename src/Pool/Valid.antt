-- ===== src/Pool/Valid.antt =====
-- The check of an index, and get_…_from_layer2_arr.
use ffprinter.Prelude.{
  get_elem?-ge, ℕ, ◌+◌, ◌/◌, ◌%◌, ◌^◌, ◌<◌, ◌≤◌, ◌≡◌, ◌≢◌, ◌⊎◌, inl, inr, ◌∙◌, Bool, true, false,
  none, some, arith, ltb, length, get_elem?, Option-cases, get_elem?-lt, get_elem?-of_lt, success,
  find_fail, index_out_of_range, if◌then◌else◌,
}
use ffprinter.Pool.Bits.{Bitmap}
use ffprinter.Pool.{Objects, Layer1, Layer2, Slot, find_slot, pred_64}
use ffprinter.Pool.View.{view, IsValid}

module _ (B : Bitmap) (O : Objects) (n init grow : ℕ) where
  open B use {Map, bits}
  open O use {Obj}

  -- An index that names no object in use.
  pub record Absent (l2 : Layer2 Map Obj) (i code : ℕ) : Type 0 where
    pub found : find_slot B O n init grow l2 i ≡ some (Slot.bad code)
    pub error : code ≢ success
    pub unused : view B O n l2 i ≡ none

  -- The slot of an object in use.
  pub record Present (l2 : Layer2 Map Obj) (i : ℕ) (l1 : Layer1 Map Obj) : Type 0 where
    pub found : find_slot B O n init grow l2 i ≡ some (Slot.good (i / n) (i % n) l1)
    pub array : get_elem? l2.l1_arr (i / n) ≡ some l1
    pub used : get_elem? (bits l1.usage_map) (i % n) ≡ some true

  abbrev pub Found : Layer2 Map Obj → ℕ → Type 0
  Found l2 i = ((code : ℕ) × Absent l2 i code) ⊎ ((l1 : Layer1 Map Obj) × Present l2 i l1)

  past : (m k : ℕ) → 0 < m → m < 2 ^ 64 → m ≤ k → ltb (pred_64 m) k ≡ true
  past m k p q h = let e : pred_64 m + 1 ≡ m = omega arith in ground arith

  within : (m k : ℕ) → m < 2 ^ 64 → k < m → ltb (pred_64 m) k ≡ false
  within m k q h = let e : pred_64 m + 1 ≡ m = omega arith in ground arith

  module _ (l2 : Layer2 Map Obj) (i : ℕ) (v : IsValid B O n l2) where
    map_length : B.length l2.l1_arr_map ≡ length l2.l1_arr
    map_length = B.length_lem l2.l1_arr_map ∙ v.mapped

    find_slot_past :
        get_elem? l2.l1_arr (i / n) ≡ none
        → find_slot B O n init grow l2 i ≡ some (Slot.bad index_out_of_range)
    unfolding find_slot
    find_slot_past e = rw (
      map_length,
      past (length l2.l1_arr) (i / n) v.some_array v.few (get_elem?-ge l2.l1_arr (i / n) e),
    )

    module _ (l1 : Layer1 Map Obj) (e : get_elem? l2.l1_arr (i / n) ≡ some l1) where
      slot_lt : i % n < length (bits l1.usage_map)
      slot_lt = let w = (v.wide (i / n) l1 e).1 in rw w (let p = v.sized in omega arith)

      usage_length : B.length l1.usage_map ≡ n
      usage_length = B.length_lem l1.usage_map ∙ (v.wide (i / n) l1 e).1

      find_slot_within :
          (b : Bool)
          → get_elem? (bits l1.usage_map) (i % n) ≡ some b
          → find_slot B O n init grow l2 i
            ≡ (if b then some (Slot.good (i / n) (i % n) l1) else some (Slot.bad find_fail))
      unfolding find_slot
      find_slot_within b r =
          let near = within (length l2.l1_arr) (i / n) v.few (get_elem?-lt l2.l1_arr (i / n) e) in
          let near' = within n (i % n) v.small (let p = v.sized in omega arith) in
          let read : B.read l1.usage_map (i % n) ≡ some b = B.read_lem l1.usage_map (i % n) ∙ r in
          rw (map_length, near, v.live, e, find_slot)
            (rw (usage_length, near') (rw (read, find_slot)))

      Found-within : (b : Bool) → get_elem? (bits l1.usage_map) (i % n) ≡ some b → Found l2 i
      Found-within true r =
          inr (l1, record { found = find_slot_within true r; array = e; used = r })
      Found-within false r = inl (
        find_fail,
        record { found = find_slot_within false r; error = omega arith; unused = rw (e, r) },
      )

    pub find_slot_cases : Found l2 i
    find_slot_cases = elim (Option-cases (get_elem? l2.l1_arr (i / n))) [
      | inl e ↦ inl (
        index_out_of_range,
        record { found = find_slot_past e; error = omega arith; unused = rw e },
      )
      | inr (l1, e) ↦
          let (b, r) = get_elem?-of_lt (bits l1.usage_map) (i % n) (slot_lt l1 e) in
          Found-within l1 e b r
    ]
