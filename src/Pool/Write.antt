-- ===== src/Pool/Write.antt =====
-- One slot of one array is written: what the pool means behind it, and that it stays well formed.
use ffprinter.Prelude.{
  some_inj, length-set, ◌∙◌, length, ℕ, ◌+◌, ◌*◌, ◌/◌, ◌%◌, ◌<◌, ◌≡◌, ◌≢◌, inl, inr, sym, Bool,
  none, some, arith, ◌==◌, get_elem?, set, Bool-cases, get_elem?-lt, get_elem?-set_self,
  get_elem?-set_ne, if◌then◌else◌, ==_iff,
}
use mathlib.Core.Path.{subst₂}
use ffprinter.Pool.Bits.{Bitmap, count_zeros}
use ffprinter.Pool.{Objects, Layer1, Layer2}
use ffprinter.Pool.View.{view_in, view, IsValid, slot_index, slot_unique}

module _ (B : Bitmap) (O : Objects) (n : ℕ) where
  open B use {Map, bits}
  open O use {Obj}

  -- `l2'` is `l2` with the slot `j` of the array `k` set to `o` and its bit to `b`.
  pub record Written (l2 l2' : Layer2 Map Obj) (k j : ℕ) (l1 l1' : Layer1 Map Obj) (o : Obj)
      (b : Bool) : Type 0 where
    pub array : get_elem? l2.l1_arr k ≡ some l1
    pub slot : j < n
    pub live' : l2'.live ≡ l2.live
    pub array' : l2'.l1_arr ≡ set l2.l1_arr k l1'
    pub object : l1'.arr ≡ set l1.arr j o
    pub bit : bits l1'.usage_map ≡ set (bits l1.usage_map) j b

  module _ (l2 l2' : Layer2 Map Obj) (k j : ℕ) (l1 l1' : Layer1 Map Obj) (o : Obj) (b : Bool)
      (v : IsValid B O n l2) (w : Written l2 l2' k j l1 l1' o b) where
    same_slot : view_in B O n l1' j ≡ (if b then some o else none)
    same_slot =
        let lens = v.wide k l1 w.array in
        let got = get_elem?-set_self (bits l1.usage_map) j b (rw lens.1 w.slot) in
        let got' = get_elem?-set_self l1.arr j o (rw lens.0 w.slot) in
        elim (Bool-cases b) [
          | inl t ↦ rw (w.bit, w.object, got, got', t)
          | inr f ↦ rw (w.bit, got, f)
        ]

    other_slot : (q : ℕ) → j ≢ q → view_in B O n l1' q ≡ view_in B O n l1 q
    other_slot q ne = rw (
      w.bit,
      w.object,
      get_elem?-set_ne (bits l1.usage_map) j q b ne,
      get_elem?-set_ne l1.arr j q o ne,
    )

    in_array : get_elem? l2'.l1_arr k ≡ some l1'
    in_array = rw w.array' (get_elem?-set_self l2.l1_arr k l1' (get_elem?-lt l2.l1_arr k w.array))

    in_other : (q : ℕ) → k ≢ q → get_elem? l2'.l1_arr q ≡ get_elem? l2.l1_arr q
    in_other q ne = rw w.array' (get_elem?-set_ne l2.l1_arr k q l1' ne)

    -- The index that is written means the new object, every other one what it meant.
    pub Written-view_self : view B O n l2' (k * n + j) ≡ (if b then some o else none)
    Written-view_self = let at = slot_index n k j w.slot in rw (at.0, at.1, in_array) same_slot

    pub Written-view_ne : (q : ℕ) → q ≢ k * n + j → view B O n l2' q ≡ view B O n l2 q
    Written-view_ne q ne = elim (Bool-cases (k == q / n)) [
      | inr far ↦ rw (in_other (q / n) (ground arith))
      | inl near ↦
          let e : k ≡ q / n = (==_iff k (q / n)).0 near in
          let ne' : j ≢ q % n = λ f. ne (slot_unique n q k j v.sized (sym e) (sym f)) in
          let got : get_elem? l2'.l1_arr (q / n) ≡ some l1' = rw (← e) in_array in
          let got' : get_elem? l2.l1_arr (q / n) ≡ some l1 = rw (← e) w.array in
          rw (got, got') (other_slot (q % n) ne')
    ]

    new_lengths : (length l1'.arr ≡ n) × (length (bits l1'.usage_map) ≡ n)
    new_lengths =
        let lens = v.wide k l1 w.array in
        (
          rw w.object (length-set l1.arr j o ∙ lens.0),
          rw w.bit (length-set (bits l1.usage_map) j b ∙ lens.1),
        )

    module _
        (map_bits : bits l2'.l1_arr_map
          ≡ set (bits l2.l1_arr_map) k (count_zeros (bits l1'.usage_map) == 0)) where
      new_mapped : length (bits l2'.l1_arr_map) ≡ length l2'.l1_arr
      new_mapped =
          rw (map_bits, w.array')
            (length-set (bits l2.l1_arr_map) k _ ∙ v.mapped ∙ sym (length-set l2.l1_arr k l1'))

      -- What holds of the array written and of all others holds of every array.
      each_array :
          (P : ℕ → Layer1 Map Obj → Type 0)
          → P k l1'
          → ((q : ℕ) (m : Layer1 Map Obj) → k ≢ q → get_elem? l2.l1_arr q ≡ some m → P q m)
          → (q : ℕ) (m : Layer1 Map Obj) → get_elem? l2'.l1_arr q ≡ some m
          → P q m
      each_array P here there q m e = elim (Bool-cases (k == q)) [
        | inr far ↦ there q m (ground arith) (sym (in_other q (ground arith)) ∙ e)
        | inl near ↦
            let p : k ≡ q = (==_iff k q).0 near in
            let f : l1' ≡ m = some_inj (sym (rw (← p) in_array) ∙ e) in subst₂ P p f here
      ]

      pub Written-IsValid : IsValid B O n l2'
      Written-IsValid = record {
        sized = v.sized;
        small = v.small;
        live = w.live' ∙ v.live;
        mapped = new_mapped;
        some_array = rw (w.array', length-set) v.some_array;
        few = rw (w.array', length-set) v.few;
        wide =
            each_array (λ q m. (length m.arr ≡ n) × (length (bits m.usage_map) ≡ n)) new_lengths
              (λ q m ne e. v.wide q m e);
        marked =
            each_array
              (λ q m.
                get_elem? (bits l2'.l1_arr_map) q ≡ some (count_zeros (bits m.usage_map) == 0))
              (rw map_bits (
                get_elem?-set_self (bits l2.l1_arr_map) k _
                  (rw v.mapped (get_elem?-lt l2.l1_arr k w.array))))
              (λ q m ne e.
                rw map_bits (get_elem?-set_ne (bits l2.l1_arr_map) k q _ ne ∙ v.marked q m e));
      }
