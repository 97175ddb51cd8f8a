-- ===== src/Pool/Del.antt =====
-- get_…_from_layer2_arr and del_…_from_layer2_arr against the objects by index.
use ffprinter.Prelude.{
  ℕ, ◌+◌, ◌*◌, ◌/◌, ◌%◌, ◌<◌, ◌≡◌, ◌≢◌, ◌↔◌, inl, inr, refl, sym, ap, ◌∙◌, Bool, true, false,
  Option, none, some, arith, ◌==◌, length, get_elem?, set, get_elem?-lt, get_elem?-of_lt,
  get_elem?-set_self, if◌then◌else◌, success, set-same,
}
use ffprinter.Pool.Bits.{Bitmap, count_zeros}
use ffprinter.Pool.{Objects, Layer1, Layer2, get_from_layer2_arr, del_from_layer2_arr}
use ffprinter.Pool.View.{view, IsValid, slot_unique, count_zeros-get_elem?}
use ffprinter.Pool.Valid.{Present, find_slot_cases}
use ffprinter.Pool.Write.{Written, Written-view_self, Written-view_ne, Written-IsValid}

module _ (B : Bitmap) (O : Objects) (n init grow : ℕ) where
  open B use {Map, bits}
  open O use {Obj, wiped}

  -- On a well-formed pool `get` gives the object at the index, and it succeeds exactly when there is one.
  pub get_from_layer2_arr-view :
      (l2 : Layer2 Map Obj) (i : ℕ)
      → IsValid B O n l2
      → (code : ℕ) × (get_from_layer2_arr B O n init grow l2 i ≡ some (code, view B O n l2 i))
        × ((code ≡ success) ↔ (view B O n l2 i ≢ none))
  unfolding get_from_layer2_arr
  get_from_layer2_arr-view l2 i v = elim (find_slot_cases B O n init grow l2 i v) [
    | inl (code, a) ↦ (
      code,
      rw (a.found, get_from_layer2_arr) (rw a.unused),
      (λ e. absurd (a.error e), λ ne. absurd (ne a.unused)),
    )
    | inr (l1, p) ↦
        let inside : i % n < length l1.arr =
          let w = (v.wide (i / n) l1 p.array).0 in let pos = v.sized in omega arith in
        let (o, cell) = get_elem?-of_lt l1.arr (i % n) inside in
        (
          success,
          rw (p.found, get_from_layer2_arr) (rw (p.array, p.used)),
          (λ e. rw (p.array, p.used, cell) (λ f. cc), λ ne. refl),
        )
  ]

  -- The array and the map behind a deletion.
  abbrev cleared : Layer1 Map Obj → ℕ → Layer1 Map Obj
  cleared l1 j = record { arr = set l1.arr j wiped; usage_map = B.write l1.usage_map j false }

  abbrev without : Layer2 Map Obj → ℕ → ℕ → Layer1 Map Obj → Bool → Layer2 Map Obj
  without l2 k j l1 full = record l2 {
    l1_arr = set l2.l1_arr k (cleared l1 j);
    l1_arr_map = if full then B.write l2.l1_arr_map k false else l2.l1_arr_map;
  }

  -- Either the index names no object, and nothing changes, or that object alone is gone.
  pub data Deleted (l2 : Layer2 Map Obj) (i : ℕ) (r : Option (ℕ × Layer2 Map Obj)) : Type 0 where
    refused :
        (code : ℕ) → code ≢ success → view B O n l2 i ≡ none → r ≡ some (code, l2) → Deleted l2 i r
    removed :
        (l2' : Layer2 Map Obj)
        → view B O n l2 i ≢ none
        → r ≡ some (success, l2')
        → IsValid B O n l2'
        → view B O n l2' i ≡ none
        → ((q : ℕ) → q ≢ i → view B O n l2' q ≡ view B O n l2 q)
        → Deleted l2 i r

  module _ (l2 : Layer2 Map Obj) (i : ℕ) (v : IsValid B O n l2) (l1 : Layer1 Map Obj)
      (p : Present B O n init grow l2 i l1) where
    after : Bool → Layer2 Map Obj
    after full = without l2 (i / n) (i % n) l1 full

    cleared-Written :
        (full : Bool)
        → Written B O n l2 (after full) (i / n) (i % n) l1 (cleared l1 (i % n)) wiped false
    unfolding after
    cleared-Written full = record {
      array = p.array;
      slot = let pos = v.sized in omega arith;
      live' = refl;
      array' = refl;
      object = refl;
      bit = B.bits-write l1.usage_map (i % n) false;
    }

    -- A free slot appears, so the array is not marked full behind it.
    not_full : (count_zeros (bits (cleared l1 (i % n)).usage_map) == 0) ≡ false
    not_full =
        let hit = get_elem?-lt (bits l1.usage_map) (i % n) p.used in
        let free =
          count_zeros-get_elem? (set (bits l1.usage_map) (i % n) false) (i % n)
            (get_elem?-set_self (bits l1.usage_map) (i % n) false hit) in
        rw (B.bits-write l1.usage_map (i % n) false) (ground arith)

    map_bits :
        (full : Bool)
        → get_elem? (bits l2.l1_arr_map) (i / n) ≡ some full
        → bits (after full).l1_arr_map
          ≡ set
              (bits l2.l1_arr_map)
              (i / n)
              (count_zeros (bits (cleared l1 (i % n)).usage_map) == 0)
    unfolding after
    map_bits true e = rw not_full (B.bits-write l2.l1_arr_map (i / n) false)
    map_bits false e = rw not_full (sym (set-same (bits l2.l1_arr_map) (i / n) false e))

    del_runs :
        (full : Bool)
        → get_elem? (bits l2.l1_arr_map) (i / n) ≡ some full
        → del_from_layer2_arr B O n init grow l2 i ≡ some (success, after full)
    unfolding del_from_layer2_arr after
    del_runs full e =
        let read : B.read l2.l1_arr_map (i / n) ≡ some full =
          B.read_lem l2.l1_arr_map (i / n) ∙ e in
        rw (p.found, del_from_layer2_arr) (rw (read, del_from_layer2_arr))

    here : i ≡ i / n * n + i % n
    here = slot_unique n i (i / n) (i % n) v.sized refl refl

    del-removed : view B O n l2 i ≢ none → Deleted l2 i (del_from_layer2_arr B O n init grow l2 i)
    del-removed some_obj =
        let e = v.marked (i / n) l1 p.array in
        let full = count_zeros (bits l1.usage_map) == 0 in
        let w = cleared-Written full in
        removed (after full) some_obj (del_runs full e)
          (Written-IsValid B O n l2 (after full) (i / n) (i % n) l1 _ wiped false v w
            (map_bits full e))
          (ap (view B O n (after full)) here
            ∙ Written-view_self B O n l2 (after full) (i / n) (i % n) l1 _ wiped false v w)
          (λ q ne.
            Written-view_ne B O n l2 (after full) (i / n) (i % n) l1 _ wiped false v w q
              (λ e. ne (e ∙ sym here)))

  -- Deletion from a well-formed pool: an index that names no object is refused and nothing changes;
  -- else that object alone is gone, and the pool is well formed again.
  pub del_from_layer2_arr-Deleted :
      (l2 : Layer2 Map Obj) (i : ℕ)
      → IsValid B O n l2
      → Deleted l2 i (del_from_layer2_arr B O n init grow l2 i)
  unfolding del_from_layer2_arr
  del_from_layer2_arr-Deleted l2 i v = elim (find_slot_cases B O n init grow l2 i v) [
    | inl (code, a) ↦ refused code a.error a.unused (rw (a.found, del_from_layer2_arr))
    | inr (l1, p) ↦
        let inside : i % n < length l1.arr =
          let w = (v.wide (i / n) l1 p.array).0 in let pos = v.sized in omega arith in
        let (o, cell) = get_elem?-of_lt l1.arr (i % n) inside in
        del-removed l2 i v l1 p (rw (p.array, p.used, cell) (λ f. cc))
  ]
