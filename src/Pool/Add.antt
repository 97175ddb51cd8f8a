-- ===== src/Pool/Add.antt =====
-- add_…_to_layer2_arr against the objects by index, with and without growth.
use ffprinter.Prelude.{
  some_inj, ℕ, ◌+◌, ◌-◌, ◌*◌, ◌/◌, ◌%◌, ◌^◌, ◌<◌, ◌≤◌, ◌≡◌, ◌≢◌, ◌⊎◌, inl, inr, refl, sym, ◌∙◌,
  Bool, true, false, not, Option, none, some, ◌++◌, arith, ◌==◌, ltb, length, get_elem?, set,
  replicate, Option-cases, Bool-cases, get_elem?-lt, get_elem?-of_lt, get_elem?-ge,
  get_elem?-eq-none, get_elem?-append_left, get_elem?-append_right, get_elem?-replicate,
  length-append, length-replicate, if◌then◌else◌, ==_iff, success, set-same,
}
use ffprinter.Pool.Bits.{Bitmap, count_zeros}
use ffprinter.Pool.{
  Objects, Layer1, Layer2, Added, init_layer1_arr, take_slot, grow_layer2, add_to_layer2_arr,
}
use ffprinter.Pool.View.{view, IsValid, slot_index, find_zero_lem, count_zeros-get_elem?}
use ffprinter.Pool.Write.{Written, Written-view_self, Written-view_ne, Written-IsValid}
use mathlib.Core.Path.{subst}

module _ (B : Bitmap) (O : Objects) (n init grow : ℕ) where
  open B use {Map, bits}
  open O use {Obj, wiped, set_index}

  -- A fresh index now names a wiped object that knows its index, and all others are as they were.
  pub data Took (l2 : Layer2 Map Obj) (r : Option (Added Map Obj)) : Type 0 where
    took :
        (i : ℕ) (l2' : Layer2 Map Obj)
        → r ≡ some (record { code = success; index = some i; pool = l2' })
        → view B O n l2 i ≡ none
        → view B O n l2' i ≡ some (set_index wiped i)
        → ((q : ℕ) → q ≢ i → view B O n l2' q ≡ view B O n l2 q)
        → IsValid B O n l2'
        → Took l2 r

  abbrev filled : Layer1 Map Obj → ℕ → ℕ → Layer1 Map Obj
  filled l1 k j = record {
    arr = set l1.arr j (set_index wiped (k * n + j));
    usage_map = B.write l1.usage_map j true;
  }

  abbrev with_slot : Layer2 Map Obj → ℕ → ℕ → Layer1 Map Obj → Layer2 Map Obj
  with_slot l2 k j l1 = record l2 {
    l1_arr = set l2.l1_arr k (filled l1 k j);
    l1_arr_map =
        if B.number_of_zeros (B.write l1.usage_map j true) == 0
        then B.write l2.l1_arr_map k true
        else l2.l1_arr_map;
  }

  -- The array and the slot that the two searches find.
  record Free (l2 : Layer2 Map Obj) (k j : ℕ) (l1 : Layer1 Map Obj) : Type 0 where
    first : B.first_zero l2.l1_arr_map ≡ some k
    open_array : get_elem? (bits l2.l1_arr_map) k ≡ some false
    array : get_elem? l2.l1_arr k ≡ some l1
    first' : B.first_zero l1.usage_map ≡ some j
    free : get_elem? (bits l1.usage_map) j ≡ some false

  find-Free :
      (l2 : Layer2 Map Obj)
      → IsValid B O n l2
      → count_zeros (bits l2.l1_arr_map) ≢ 0
      → (k : ℕ) × (j : ℕ) × (l1 : Layer1 Map Obj) × Free l2 k j l1
  find-Free l2 v room =
      let (k, e, g) = find_zero_lem (bits l2.l1_arr_map) room in
      let (l1, a) =
        get_elem?-of_lt l2.l1_arr k (rw (← v.mapped) (get_elem?-lt (bits l2.l1_arr_map) k g)) in
      let (j, e', g') =
        find_zero_lem (bits l1.usage_map) (unmarked (some_inj (sym (v.marked k l1 a) ∙ g))) in
      (
        k,
        j,
        l1,
        record {
          first = B.first_zero_lem l2.l1_arr_map ∙ e;
          open_array = g;
          array = a;
          first' = B.first_zero_lem l1.usage_map ∙ e';
          free = g';
        },
      )
    where
      unmarked : {m : ℕ} → (m == 0) ≡ false → m ≢ 0
      unmarked e = ground arith

  module _ (l2 : Layer2 Map Obj) (k j : ℕ) (l1 : Layer1 Map Obj) (v : IsValid B O n l2)
      (f : Free l2 k j l1) where
    take_slot-runs :
        take_slot B O n init grow l2
        ≡ some (record { code = success; index = some (k * n + j); pool = with_slot l2 k j l1 })
    unfolding take_slot
    take_slot-runs = rw (f.first, take_slot) (rw (f.array, take_slot) (rw (f.first', take_slot)))

    filled-Written :
        Written B O n l2
          (with_slot l2 k j l1)
          k
          j
          l1
          (filled l1 k j)
          (set_index wiped (k * n + j))
          true
    filled-Written = record {
      array = f.array;
      slot = rw (v.wide k l1 f.array).1 at (get_elem?-lt (bits l1.usage_map) j f.free);
      live' = refl;
      array' = refl;
      object = refl;
      bit = B.bits-write l1.usage_map j true;
    }

    map_bits :
        bits (with_slot l2 k j l1).l1_arr_map
        ≡ set (bits l2.l1_arr_map) k (count_zeros (bits (filled l1 k j).usage_map) == 0)
    map_bits = elim (Bool-cases (count_zeros (bits (B.write l1.usage_map j true)) == 0)) [
      | inl full ↦
          rw (B.number_of_zeros_lem (B.write l1.usage_map j true), full)
            (B.bits-write l2.l1_arr_map k true)
      | inr room ↦
          rw (B.number_of_zeros_lem (B.write l1.usage_map j true), room)
            (sym (set-same (bits l2.l1_arr_map) k false f.open_array))
    ]

    was_free : view B O n l2 (k * n + j) ≡ none
    was_free = let at = slot_index n k j filled-Written.slot in rw (at.0, at.1, f.array, f.free)

    taken : Took l2 (take_slot B O n init grow l2)
    taken =
        took (k * n + j) (with_slot l2 k j l1) take_slot-runs was_free
          (Written-view_self B O n l2 (with_slot l2 k j l1) k j l1 (filled l1 k j) _ true v
            filled-Written)
          (Written-view_ne B O n l2 (with_slot l2 k j l1) k j l1 (filled l1 k j) _ true v
            filled-Written)
          (Written-IsValid B O n l2 (with_slot l2 k j l1) k j l1 (filled l1 k j) _ true v
            filled-Written map_bits)

  take_slot-Took :
      (l2 : Layer2 Map Obj)
      → IsValid B O n l2
      → count_zeros (bits l2.l1_arr_map) ≢ 0
      → Took l2 (take_slot B O n init grow l2)
  take_slot-Took l2 v room = let (k, j, l1, f) = find-Free l2 v room in taken l2 k j l1 v f

  -- Behind a growth whose allocations succeed.
  module _ (l2 : Layer2 Map Obj) (v : IsValid B O n l2) (more : 0 < grow)
      (fits : length l2.l1_arr + grow < 2 ^ 64) where
    abbrev grown : Layer2 Map Obj
    grown = grow_layer2 B O n init grow true l2

    abbrev fresh : Layer1 Map Obj
    fresh = init_layer1_arr B O n init grow

    grown_arr : grown.l1_arr ≡ l2.l1_arr ++ replicate grow fresh
    unfolding grow_layer2
    grown_arr = refl

    grown_live : grown.live ≡ true
    unfolding grow_layer2
    grown_live = refl

    grown_map : bits grown.l1_arr_map ≡ bits l2.l1_arr_map ++ replicate grow false
    unfolding grow_layer2
    grown_map =
        let longer : ltb (B.length l2.l1_arr_map) (B.length l2.l1_arr_map + grow) ≡ true =
          ground arith in
        let g = B.bits-grow l2.l1_arr_map grow false in
        rw longer
          (elim (Bool-cases
            (B.blocks (B.length l2.l1_arr_map + grow) == B.blocks (B.length l2.l1_arr_map))) [
              | inl same ↦ rw same g
              | inr differ ↦ rw differ g
            ])

    -- An array of the grown pool is an old one or a new one.
    old_or_new :
        (q : ℕ) (m : Layer1 Map Obj)
        → get_elem? grown.l1_arr q ≡ some m
        → ((q < length l2.l1_arr) × (get_elem? l2.l1_arr q ≡ some m))
          ⊎ ((r : ℕ) × (q ≡ length l2.l1_arr + r) × (r < grow) × (m ≡ fresh))
    old_or_new q m e = elim (Bool-cases (ltb q (length l2.l1_arr))) [
      | inl old ↦
          let lt : q < length l2.l1_arr = ground arith in
          inl (
            lt,
            sym (get_elem?-append_left l2.l1_arr (replicate grow fresh) q lt) ∙ rw grown_arr at e,
          )
      | inr new ↦
          let s : q ≡ length l2.l1_arr + (q - length l2.l1_arr) = ground arith in
          let e' : get_elem? (l2.l1_arr ++ replicate grow fresh) q ≡ some m = rw grown_arr at e in
          let e'' : get_elem? (replicate grow fresh) (q - length l2.l1_arr) ≡ some m =
            sym (get_elem?-append_right l2.l1_arr (replicate grow fresh) (q - length l2.l1_arr))
            ∙ (rw s at e') in
          let lt : q - length l2.l1_arr < grow =
            rw length-replicate at
              (get_elem?-lt (replicate grow fresh) (q - length l2.l1_arr) e'') in
          inr (
            q - length l2.l1_arr,
            s,
            lt,
            some_inj (sym e'' ∙ get_elem?-replicate grow (q - length l2.l1_arr) fresh lt),
          )
    ]

    fresh_bits : bits fresh.usage_map ≡ replicate n false
    unfolding init_layer1_arr
    fresh_bits = B.bits-init n false

    fresh_open : (count_zeros (bits fresh.usage_map) == 0) ≡ false
    fresh_open =
        let free =
          count_zeros-get_elem? (replicate n false) 0 (get_elem?-replicate n 0 false v.sized) in
        rw fresh_bits (ground arith)

    grown_length : length grown.l1_arr ≡ length l2.l1_arr + grow
    grown_length = rw (grown_arr, length-append, length-replicate)

    grown-wide :
        (q : ℕ) (m : Layer1 Map Obj)
        → get_elem? grown.l1_arr q ≡ some m
        → (length m.arr ≡ n) × (length (bits m.usage_map) ≡ n)
    grown-wide q m e = elim (old_or_new q m e) [
      | inl (lt, old) ↦ v.wide q m old
      | inr (r, s, lt, is) ↦
          rw (is, fresh_bits)
            (unfold init_layer1_arr in length-replicate n wiped, length-replicate n false)
    ]

    grown-marked :
        (q : ℕ) (m : Layer1 Map Obj)
        → get_elem? grown.l1_arr q ≡ some m
        → get_elem? (bits grown.l1_arr_map) q ≡ some (count_zeros (bits m.usage_map) == 0)
    grown-marked q m e = elim (old_or_new q m e) [
      | inl (lt, old) ↦ rw grown_map (
          get_elem?-append_left (bits l2.l1_arr_map) (replicate grow false) q (rw v.mapped lt)
          ∙ v.marked q m old)
      | inr (r, s, lt, is) ↦
          let s' : q ≡ length (bits l2.l1_arr_map) + r = rw v.mapped s in
          rw (is, fresh_open, grown_map, s')
            (get_elem?-append_right (bits l2.l1_arr_map) (replicate grow false) r
              ∙ get_elem?-replicate grow r false lt)
    ]

    grown-IsValid : IsValid B O n grown
    grown-IsValid = record {
      sized = v.sized;
      small = v.small;
      live = grown_live;
      mapped = rw (grown_map, grown_length, length-append, length-replicate, v.mapped);
      some_array = rw grown_length (omega arith);
      few = rw grown_length fits;
      wide = grown-wide;
      marked = grown-marked;
    }

    grown_room : count_zeros (bits grown.l1_arr_map) ≢ 0
    grown_room =
        let at : length (bits l2.l1_arr_map) + 0 ≡ length (bits l2.l1_arr_map) = omega arith in
        count_zeros-get_elem? (bits grown.l1_arr_map) (length (bits l2.l1_arr_map) + 0) (
          rw grown_map (
            get_elem?-append_right (bits l2.l1_arr_map) (replicate grow false) 0
            ∙ get_elem?-replicate grow 0 false more))

    -- The new arrays hold no object.
    grown-view : (q : ℕ) → view B O n grown q ≡ view B O n l2 q
    grown-view q = elim (Option-cases (get_elem? grown.l1_arr (q / n))) [
      | inl e ↦
          let far : length l2.l1_arr ≤ q / n =
            omega (arith, grown_length, get_elem?-ge grown.l1_arr (q / n) e) in
          rw (e, get_elem?-eq-none l2.l1_arr (q / n) far)
      | inr (m, e) ↦ elim (old_or_new (q / n) m e) [
        | inl (lt, old) ↦ rw (e, old)
        | inr (r, s, lt, is) ↦
            let pos = v.sized in
            let bit : get_elem? (bits m.usage_map) (q % n) ≡ some false =
              rw (is, fresh_bits) (get_elem?-replicate n (q % n) false (omega arith)) in
            rw (e, get_elem?-eq-none l2.l1_arr (q / n) (omega arith), bit)
      ]
    ]

    grown-Took : Took l2 (take_slot B O n init grow grown)
    grown-Took = elim (take_slot-Took grown grown-IsValid grown_room) [
      | took i l2' run free new rest valid ↦
          took i l2' run (sym (grown-view i) ∙ free) new (λ q ne. rest q ne ∙ grown-view q) valid
    ]

  if_live : {A : Type 0} (b : Bool) (r : Option A) → b ≡ true → (if not b then none else r) ≡ r
  if_live true r e = refl
  if_live false r e = absurd (cc)

  -- On a well-formed pool that has a free slot, or can allocate more arrays (their number staying
  -- below 2 ^ 64), adding an object succeeds: the index it gives named no object, now it names a
  -- wiped object that holds this index, every other index means what it meant, and the pool is
  -- well formed again.
  pub add_to_layer2_arr-Took :
      (l2 : Layer2 Map Obj) (mem_pointers mem_arrays mem_map : Bool)
      → IsValid B O n l2
      → 0 < grow
      → length l2.l1_arr + grow < 2 ^ 64
      → (count_zeros (bits l2.l1_arr_map) ≢ 0)
        ⊎ ((mem_pointers ≡ true) × (mem_arrays ≡ true) × (mem_map ≡ true))
      → Took l2 (add_to_layer2_arr B O n init grow mem_pointers mem_arrays mem_map l2)
  unfolding add_to_layer2_arr
  add_to_layer2_arr-Took l2 mp ma mm v more fits room =
      subst (Took l2) (sym (if_live l2.live _ v.live))
        (elim (Bool-cases (B.number_of_zeros l2.l1_arr_map == 0)) [
          | inr free ↦
              let some_free : count_zeros (bits l2.l1_arr_map) ≢ 0 =
                rw (← B.number_of_zeros_lem l2.l1_arr_map) (ground arith) in
              rw free (take_slot-Took l2 v some_free)
          | inl full ↦ elim room [
            | inl free ↦ absurd (
                free (
                  sym (B.number_of_zeros_lem l2.l1_arr_map)
                  ∙ (==_iff (B.number_of_zeros l2.l1_arr_map) 0).0 full))
            | inr (p, a, m) ↦ rw (full, p, a, m) (grown-Took l2 v more fits)
          ]
        ])
