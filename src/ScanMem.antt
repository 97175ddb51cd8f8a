-- ===== src/ScanMem.antt =====
-- mem_scan of ffp_scanmem.c. The memory from `start` on is a list of bytes; an address is an offset
-- from `start`.
pub mod Laws
use ffprinter.Prelude.{
  ℕ, zero, suc, ◌+◌, ◌-◌, Bool, true, false, ◌&&◌, Option, none, some, List, [], ◌∷◌, ◌++◌, ltb,
  ◌==◌, if◌then◌else◌, length, success, wrong_args, buffer_full,
}

-- `memcmp` of the whole pattern gives 0.
unfoldable pub same_bytes : List ℕ → List ℕ → Bool
same_bytes mem [] = true
same_bytes [] (c ∷ pattern) = false
same_bytes (d ∷ mem) (c ∷ pattern) = (d == c) && same_bytes mem pattern

-- The code and the addresses in the buffer; `ptr` stays at the start.
unfoldable pub scan_loop : List ℕ → List ℕ → ℕ → List ℕ → ℕ → ℕ × List ℕ
unfolding same_bytes
scan_loop mem pattern buf_size found zero = (success, found)
scan_loop mem pattern buf_size found (suc rounds) = elim (same_bytes mem pattern) [
  | false ↦ scan_loop mem pattern buf_size found rounds
  | true ↦ elim (length found + 1 == buf_size) [
    | true ↦ (buffer_full, found ++ 0 ∷ [])
    | false ↦ scan_loop mem pattern buf_size (found ++ 0 ∷ []) rounds
  ]
]

-- The code, and the addresses with their number, or `none` where `*num_used` is not written.
unfoldable pub mem_scan : List ℕ → List ℕ → ℕ → ℕ × Option (List ℕ)
unfolding scan_loop
mem_scan haystack pattern buf_size =
    if ltb (length haystack) (length pattern)
    then (success, none)
    else if buf_size == 0
    then (wrong_args, none)
    else let (code, found) =
        scan_loop haystack pattern buf_size [] (length haystack - length pattern + 1) in
      (code, some found)
