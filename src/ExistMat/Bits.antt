-- ===== src/ExistMat/Bits.antt =====
-- The bits of a layer 1 array map, as the existence matrix of ffprinter_function_template.h writes them.
use ffprinter.Prelude.{
  ℕ, zero, suc, ◌+◌, ◌-◌, ◌<◌, ◌≤◌, ◌≡◌, refl, sym, ap, ◌∙◌, Bool, true, false, ◌||◌, List, [], ◌∷◌,
  ◌++◌, arith, ltb, ◌==◌, length, set, replicate, length-append, length-replicate, Bool-cases, inl,
  inr, ltb→lt,
}
use ffprinter.Pool.Bits.{Bitmap}
use ffprinter.Pool.{ffp_grow_bitmap}

abbrev pub bit : List Bool → ℕ → Bool
bit [] j = false
bit (b ∷ bs) zero = b
bit (b ∷ bs) (suc j) = bit bs j

bit-set :
    (bs : List Bool) (k j : ℕ) → k < length bs → bit (set bs k true) j ≡ (bit bs j || (j == k))
bit-set [] k j lt = absurd (omega arith)
bit-set (b ∷ bs) zero zero lt = ground arith
bit-set (b ∷ bs) zero (suc j) lt = ground arith
bit-set (b ∷ bs) (suc k) zero lt = ground arith
bit-set (b ∷ bs) (suc k) (suc j) lt =
    let e : (suc j == suc k) ≡ (j == k) = ground arith in
    bit-set bs k j (omega arith) ∙ ap (λ x. bit bs j || x) (sym e)

bit-replicate : (n j : ℕ) → bit (replicate n false) j ≡ false
bit-replicate zero j = refl
bit-replicate (suc n) zero = refl
bit-replicate (suc n) (suc j) = bit-replicate n j

bit-append : (bs : List Bool) (n j : ℕ) → bit (bs ++ replicate n false) j ≡ bit bs j
bit-append [] n j = bit-replicate n j
bit-append (b ∷ bs) n zero = refl
bit-append (b ∷ bs) n (suc j) = bit-append bs n j

module _ (B : Bitmap) where
  -- A new map with its bit.
  pub write-init : (k j : ℕ) → bit (B.bits (B.write (B.init (k + 1) false) k true)) j ≡ (j == k)
  write-init k j =
      let fits : k < length (replicate (k + 1) false) =
        omega (arith, length-replicate (k + 1) false) in
      rw
        (
          B.bits-write,
          B.bits-init,
          bit-set (replicate (k + 1) false) k j fits,
          bit-replicate (k + 1) j,
        )
        refl

  grow-bits :
      (map : B.Map) (n : ℕ)
      → B.length map < n
      → B.bits (B.grow map n false) ≡ B.bits map ++ replicate (n - B.length map) false
  grow-bits map n lt =
      let e : n ≡ B.length map + (n - B.length map) = omega arith in
      ap (λ m. B.bits (B.grow map m false)) e ∙ B.bits-grow map (n - B.length map) false

  -- `m` has the bits of `map`, zeros, and room for `n` bits.
  abbrev Extends : B.Map → ℕ → B.Map → Type 0
  Extends map n m = ((j : ℕ) → bit (B.bits m) j ≡ bit (B.bits map) j) × (n ≤ length (B.bits m))

  grow-Extends : (map : B.Map) (n : ℕ) → B.length map < n → Extends map n (B.grow map n false)
  grow-Extends map n lt =
      let zeros : List Bool = replicate (n - B.length map) false in
      let room : n ≤ length (B.bits map ++ zeros) = omega (
        arith,
        B.length_lem map,
        length-append (B.bits map) zeros,
        length-replicate (n - B.length map) false,
      ) in
      rw (grow-bits map n lt) (λ j. bit-append (B.bits map) (n - B.length map) j, room)

  growth : (map : B.Map) (n : ℕ) → Extends map n (ffp_grow_bitmap B true map n).1
  unfolding ffp_grow_bitmap
  growth map n = elim (Bool-cases (ltb (B.length map) n)) [
    | inr fits ↦
        let room : n ≤ length (B.bits map) = ground (arith, B.length_lem map) in
        rw fits (λ j. refl, room)
    | inl lt ↦ elim (Bool-cases (B.blocks n == B.blocks (B.length map))) [
      | inl same ↦ rw (lt, same) (grow-Extends map n (ltb→lt (B.length map) n lt))
      | inr other ↦ rw (lt, other) (grow-Extends map n (ltb→lt (B.length map) n lt))
    ]
  ]

  -- A map that grew, if need be, with its bit.
  pub write-grow :
      (map : B.Map) (k j : ℕ)
      → bit (B.bits (B.write (ffp_grow_bitmap B true map (k + 1)).1 k true)) j
        ≡ (bit (B.bits map) j || (j == k))
  write-grow map k j =
      let g = growth map (k + 1) in
      let fits : k < length (B.bits (ffp_grow_bitmap B true map (k + 1)).1) = omega (arith, g.1) in
      rw (B.bits-write, bit-set (B.bits (ffp_grow_bitmap B true map (k + 1)).1) k j fits, g.0 j)
        refl
