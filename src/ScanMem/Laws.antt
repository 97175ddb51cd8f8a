-- ===== src/ScanMem/Laws.antt =====
-- What mem_scan of ffp_scanmem.c finds.
use Prim.Native.Nat.{min}
use ffprinter.Prelude.{
  ℕ, zero, suc, ◌+◌, ◌-◌, ◌≤◌, ◌<◌, ◌≡◌, refl, true, false, some, List, [], ◌∷◌, ◌++◌, arith, ltb,
  leb, ◌==◌, if◌then◌else◌, length, length-append, replicate, Bool-cases, inl, inr, success,
  buffer_full,
}
use mathlib.Core.List.{append-nil, append_assoc}
use ffprinter.ScanMem.{same_bytes, scan_loop, mem_scan}

scan_loop_none :
    (mem pattern : List ℕ) (buf_size : ℕ) (found : List ℕ) (rounds : ℕ)
    → same_bytes mem pattern ≡ false
    → scan_loop mem pattern buf_size found rounds ≡ (success, found)
unfolding scan_loop
scan_loop_none mem pattern n found zero h = refl
scan_loop_none mem pattern n found (suc rounds) h =
    rw (h, scan_loop) (scan_loop_none mem pattern n found rounds h)

scan_loop_start :
    (mem pattern : List ℕ) (buf_size : ℕ) (found : List ℕ) (rounds : ℕ)
    → same_bytes mem pattern ≡ true
    → length found < buf_size
    → scan_loop mem pattern buf_size found rounds ≡ (
      (if leb buf_size (length found + rounds) then buffer_full else success),
      found ++ replicate (min rounds (buf_size - length found)) 0,
    )
unfolding scan_loop
scan_loop_start mem pattern n found zero h lt =
    let e : leb n (length found + 0) ≡ false = ground arith in
    let m : min 0 (n - length found) ≡ 0 = omega arith in rw (e, m, append-nil found)
scan_loop_start mem pattern n found (suc rounds) h lt =
    let l : length (found ++ 0 ∷ []) ≡ length found + 1 = length-append found (0 ∷ []) in
    elim (Bool-cases (length found + 1 == n)) [
      | inl e ↦
          let full : leb n (length found + suc rounds) ≡ true = ground arith in
          let m : min (suc rounds) (n - length found) ≡ 1 = ground arith in
          rw (h, scan_loop, e) (rw (full, m))
      | inr e ↦
          let a : length found + suc rounds ≡ length found + 1 + rounds = omega arith in
          let m : min (suc rounds) (n - length found) ≡ suc (min rounds (n - (length found + 1))) =
            ground arith in
          rw (h, scan_loop, e)
            (rw (
              scan_loop_start mem pattern n (found ++ 0 ∷ []) rounds h (ground arith),
              l,
              a,
              m,
              append_assoc,
            ))
    ]

-- With a buffer that is not empty and a pattern that is not longer than the memory, mem_scan never
-- looks past the start: if the pattern stands there, it reports the start once for every position,
-- as often as the buffer allows, and else nothing, wherever the pattern stands.
pub mem_scan_lem :
    (haystack pattern : List ℕ) (buf_size : ℕ)
    → 0 < buf_size
    → length pattern ≤ length haystack
    → mem_scan haystack pattern buf_size ≡ (
        if same_bytes haystack pattern
        then (
          (if leb buf_size (length haystack - length pattern + 1) then buffer_full else success),
          some (replicate (min (length haystack - length pattern + 1) buf_size) 0),
        )
        else (success, some []))
unfolding mem_scan
mem_scan_lem haystack pattern n pos fits =
    let a : ltb (length haystack) (length pattern) ≡ false = ground arith in
    let b : (n == 0) ≡ false = ground arith in
    let rounds = length haystack - length pattern + 1 in
    elim (Bool-cases (same_bytes haystack pattern)) [
      | inl e ↦
          let c : n - 0 ≡ n = omega arith in
          let d : 0 + rounds ≡ rounds = omega arith in
          let s = scan_loop_start haystack pattern n [] rounds e pos in rw (a, b, e, s, c, d)
      | inr e ↦ rw (a, b, e, scan_loop_none haystack pattern n [] rounds e)
    ]
