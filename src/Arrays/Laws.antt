-- ===== src/Arrays/Laws.antt =====
-- Growth keeps the items, and a put adds one behind them.
use ffprinter.Prelude.{
  take-append, take-set_self, ℕ, suc, ◌+◌, ◌%◌, ◌^◌, ◌<◌, ◌≡◌, ◌⊎◌, inl, inr, refl, ◌∙◌, true, ◌&&◌,
  Option, none, some, List, [], ◌∷◌, ◌++◌, arith, length, length-append, length-set, success,
  malloc_fail, Bool-cases, ◌==◌,
}
use ffprinter.Arrays.{Pointers, cells, wipe, grow_array, put_into_slot, put_into_array}
use ffprinter.Arrays.Slots.{IsSized, items, length-cells, length-wipe, take-wipe}

-- The array `b` has the items of `a` and `n` more free cells.
pub record Grown (a b : Pointers) (n : ℕ) : Type 0 where
  pub sized : IsSized b
  pub kept : items b ≡ items a
  pub same : b.num ≡ a.num
  pub free : b.free_num ≡ a.free_num + n

-- The array `b` has the items of `a` and then `x`.
pub record Put (a b : Pointers) (x : ℕ) : Type 0 where
  pub sized : IsSized b
  pub added : items b ≡ items a ++ (x ∷ [])

length-new : (junk : ℕ → ℕ) (n : ℕ) → length (wipe (cells junk n) 0 n) ≡ n
length-new junk n = length-wipe (cells junk n) 0 n ∙ length-cells junk n

length-longer :
    (junk : ℕ → ℕ) (xs : List ℕ) (k n : ℕ) → length (wipe (xs ++ cells junk n) k n) ≡ length xs + n
length-longer junk xs k n =
    rw (length-wipe (xs ++ cells junk n) k n, length-append xs (cells junk n), length-cells junk n)

module _ (junk : ℕ → ℕ) (n : ℕ) (a : Pointers) (s : IsSized a) where
  is_new : ((a.num == 0) && (a.free_num == 0)) ≡ true → (a.num ≡ 0) × (a.free_num ≡ 0)
  is_new e = ground arith

  -- An array grows by the number of cells asked for, keeps what it holds, and its numbers still
  -- add up to its size, whatever the new memory holds.
  pub grow_array-Grown :
      length a.arr + n < 2 ^ 64
      → ((grow_array (some junk) n a).0 ≡ success) × Grown a (grow_array (some junk) n a).1 n
  unfolding grow_array
  grow_array-Grown few = elim (Bool-cases ((a.num == 0) && (a.free_num == 0))) [
    | inl e ↦
        let (z, f) = is_new e in
        let l = length-new junk n in
        rw e (
          refl,
          record {
            sized = record { sized = omega arith };
            kept = rw z;
            same = refl;
            free = omega arith;
          },
        )
    | inr e ↦
        let t = s.sized in
        let l = length-longer junk a.arr a.num n in
        rw e (
          refl,
          record {
            sized = record { sized = omega arith };
            kept =
                take-wipe a.num a.num n (a.arr ++ cells junk n) (omega arith)
                ∙ take-append a.num a.arr (cells junk n) (omega arith);
            same = refl;
            free = omega arith;
          },
        )
  ]

put_into_slot-Put :
    (x : ℕ) (a : Pointers)
    → IsSized a
    → 0 < a.free_num
    → length a.arr < 2 ^ 64
    → Put a (put_into_slot x a) x
unfolding put_into_slot
put_into_slot-Put x a s h few =
    let t = s.sized in
    let l = length-set a.arr a.num x in
    let e : (a.num + 1) % 2 ^ 64 ≡ suc a.num = omega arith in
    record {
      sized = record { sized = omega arith };
      added = rw e (take-set_self a.num a.arr x (omega arith));
    }

-- A put fails only on a full array for which there is no memory.
abbrev pub Refused : Option (ℕ → ℕ) → Pointers → Type 0
Refused mem a = (mem ≡ none) × (a.free_num ≡ 0)

put_into_array-Put_full :
    (mem : Option (ℕ → ℕ)) (x : ℕ) (a : Pointers)
    → IsSized a
    → length a.arr + 1 < 2 ^ 64
    → a.free_num ≡ 0
    → (a.free_num == 0) ≡ true
    → (Refused mem a × (put_into_array mem x a ≡ (malloc_fail, a)))
      ⊎ ((b : Pointers) × (put_into_array mem x a ≡ (success, b)) × Put a b x)
unfolding put_into_array grow_array
put_into_array-Put_full none x a s few z e = inl ((refl, z), rw e)
put_into_array-Put_full (some junk) x a s few z e =
    let (c, g) = grow_array-Grown junk 1 a s few in
    let b = (grow_array (some junk) 1 a).1 in
    let f = g.free in
    let t = s.sized in
    let u = g.sized.sized in
    let m = g.same in
    let p = put_into_slot-Put x b g.sized (omega arith) (omega arith) in
    inr (put_into_slot x b, rw (e, c), record { sized = p.sized; added = rw (p.added, g.kept) })

pub put_into_array-Put :
    (mem : Option (ℕ → ℕ)) (x : ℕ) (a : Pointers)
    → IsSized a
    → length a.arr + 1 < 2 ^ 64
    → (Refused mem a × (put_into_array mem x a ≡ (malloc_fail, a)))
      ⊎ ((b : Pointers) × (put_into_array mem x a ≡ (success, b)) × Put a b x)
unfolding put_into_array grow_array
put_into_array-Put mem x a s few = elim (Bool-cases (a.free_num == 0)) [
  | inr e ↦ inr (put_into_slot x a, rw e, put_into_slot-Put x a s (ground arith) (omega arith))
  | inl e ↦ let z : a.free_num ≡ 0 = ground arith in put_into_array-Put_full mem x a s few z e
]
