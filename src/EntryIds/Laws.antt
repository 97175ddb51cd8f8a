-- ===== src/EntryIds/Laws.antt =====
-- set_new_entry_id and set_entry_general_info of ffp_database.c.
use ffprinter.Prelude.{
  ℕ, zero, suc, ◌+◌, ◌*◌, ◌%◌, ◌^◌, ◌<◌, ◌≤◌, ◌≡◌, ◌≢◌, refl, sym, ap, ◌∙◌, Bool, true, false, not,
  List, arith, ◌==◌, if◌then◌else◌, success, gen_id_fail,
}
use ffprinter.Links.{upd}
use ffprinter.Text.Hex.{bytes_to_hex_str}
use ffprinter.EntryIds.{candidate, try_ids, Info, set_new_entry_id, set_branch}

-- The candidate of a round, and whether an entry has it.
abbrev pub nth : (ℕ → ℕ) → ℕ → ℕ → List ℕ
nth rand n k = candidate rand (n + 8 * k)

abbrev pub is_taken : (ℕ → ℕ) → (List ℕ → Bool) → ℕ → ℕ → Bool
is_taken rand taken n k = taken (bytes_to_hex_str (nth rand n k))

try_more :
    (rand : ℕ → ℕ) (taken : List ℕ → Bool) (rounds count n : ℕ)
    → taken (bytes_to_hex_str (candidate rand n)) ≡ true
    → try_ids rand taken (suc rounds) count n ≡ try_ids rand taken rounds (count + 1) (n + 8)
unfolding try_ids
try_more rand taken rounds count n h = rw (h, try_ids)

try_done :
    (rand : ℕ → ℕ) (taken : List ℕ → Bool) (rounds count n : ℕ)
    → taken (bytes_to_hex_str (candidate rand n)) ≡ false
    → try_ids rand taken rounds count n ≡ (count + 1, candidate rand n, n + 8)
unfolding try_ids
try_done rand taken zero count n h = refl
try_done rand taken (suc rounds) count n h = rw (h, try_ids)

shifted : (n j : ℕ) → n + 8 * suc j ≡ n + 8 + 8 * j
shifted n j = omega arith

try_ids_free :
    (rand : ℕ → ℕ) (taken : List ℕ → Bool) (rounds count n k : ℕ)
    → k ≤ rounds
    → ((j : ℕ) → j < k → is_taken rand taken n j ≡ true)
    → is_taken rand taken n k ≡ false
    → try_ids rand taken rounds count n ≡ (count + k + 1, nth rand n k, n + 8 * k + 8)
try_ids_free rand taken rounds count n zero le used free =
    let z : n + 8 * 0 ≡ n = omega arith in
    let c : count + 0 + 1 ≡ count + 1 = omega arith in
    let free' : taken (bytes_to_hex_str (candidate rand n)) ≡ false =
      ap (λ m. taken (bytes_to_hex_str (candidate rand m))) (sym z) ∙ free in
    rw (z, c) (try_done rand taken rounds count n free')
try_ids_free rand taken zero count n (suc k) le used free = absurd (omega arith)
try_ids_free rand taken (suc rounds) count n (suc k) le used free =
    let z : n + 8 * 0 ≡ n = omega arith in
    let s = shifted n k in
    let c : count + 1 + k + 1 ≡ count + suc k + 1 = omega arith in
    let first : taken (bytes_to_hex_str (candidate rand n)) ≡ true =
      ap (λ m. taken (bytes_to_hex_str (candidate rand m))) (sym z) ∙ used 0 (omega arith) in
    let ih =
      try_ids_free rand taken rounds (count + 1) (n + 8) k (omega arith)
        (λ j lt.
          ap (λ m. taken (bytes_to_hex_str (candidate rand m))) (sym (shifted n j))
          ∙ used (suc j) (omega arith))
        (ap (λ m. taken (bytes_to_hex_str (candidate rand m))) (sym s) ∙ free) in
    try_more rand taken rounds count n first ∙ rw (s, sym c) ih

try_ids_count :
    (rand : ℕ → ℕ) (taken : List ℕ → Bool) (rounds count n : ℕ)
    → ((j : ℕ) → j < rounds → is_taken rand taken n j ≡ true)
    → (try_ids rand taken rounds count n).0 ≡ count + rounds + 1
unfolding try_ids
try_ids_count rand taken zero count n used = omega arith
try_ids_count rand taken (suc rounds) count n used =
    let z : n + 8 * 0 ≡ n = omega arith in
    let c : count + 1 + rounds + 1 ≡ count + suc rounds + 1 = omega arith in
    let first : taken (bytes_to_hex_str (candidate rand n)) ≡ true =
      ap (λ m. taken (bytes_to_hex_str (candidate rand m))) (sym z) ∙ used 0 (omega arith) in
    ap (λ r. r.0) (try_more rand taken rounds count n first)
    ∙ try_ids_count rand taken rounds (count + 1) (n + 8) (λ j lt.
      ap (λ m. taken (bytes_to_hex_str (candidate rand m))) (sym (shifted n j))
      ∙ used (suc j) (omega arith))
    ∙ c

below_tries : (k : ℕ) → k < 999 → (0 + k + 1 == 1000) ≡ false
below_tries k lt = ground arith

-- The first of the candidates that no entry has, if it is among the first 999, becomes the id of the
-- entry, with its hexadecimal text, and nothing else changes.
pub set_new_entry_id_free :
    (rand : ℕ → ℕ) (n : ℕ) (taken : List ℕ → Bool) (info : Info) (entry k : ℕ)
    → k < 999
    → ((j : ℕ) → j < k → is_taken rand taken n j ≡ true)
    → is_taken rand taken n k ≡ false
    → set_new_entry_id rand n taken info entry ≡ (
      success,
      record info {
        entry_id = upd info.entry_id entry (nth rand n k);
        entry_id_str = upd info.entry_id_str entry (bytes_to_hex_str (nth rand n k));
      },
    )
unfolding set_new_entry_id
set_new_entry_id_free rand n taken info entry k lt used free =
    let runs = try_ids_free rand taken 999 0 n k (omega arith) used free in
    rw (runs, below_tries k lt)

-- If entries have the first 999 candidates, set_new_entry_id fails and changes nothing, also where
-- the thousandth candidate, which it tries too, is free.
pub set_new_entry_id_fails :
    (rand : ℕ → ℕ) (n : ℕ) (taken : List ℕ → Bool) (info : Info) (entry : ℕ)
    → ((j : ℕ) → j < 999 → is_taken rand taken n j ≡ true)
    → set_new_entry_id rand n taken info entry ≡ (gen_id_fail, info)
unfolding set_new_entry_id
set_new_entry_id_fails rand n taken info entry used =
    let c = try_ids_count rand taken 999 0 n used in
    let full : ((try_ids rand taken 999 0 n).0 == 1000) ≡ true = ground arith in rw full

-- An entry below the root begins a branch; any other belongs to the branch of its parent.
pub record IsBranched (info : Info) (tree entry : ℕ) : Type 0 where
  pub top :
      info.parent entry ≡ tree
      → (info.has_parent entry ≡ false)
        × (info.branch_id entry ≡ info.entry_id entry)
        × (info.branch_id_str entry ≡ info.entry_id_str entry)
  pub below :
      info.parent entry ≢ tree
      → (info.has_parent entry ≡ true)
        × (info.branch_id entry ≡ info.branch_id (info.parent entry))
        × (info.branch_id_str entry ≡ info.branch_id_str (info.parent entry))
  pub deeper : info.depth entry ≡ (info.depth (info.parent entry) + 1) % 2 ^ 64

at_entry {ℓ} : {A : Type ℓ} (f : ℕ → A) (p : ℕ) (v : A) → upd f p v p ≡ v
at_entry f p v = ground arith

at_other {ℓ} : {A : Type ℓ} (f : ℕ → A) (p q : ℕ) (v : A) → p ≢ q → upd f p v q ≡ f q
at_other f p q v h = ground arith

-- For an entry with a parent other than itself, set_branch puts it into its branch, one level below
-- its parent.
set_branch-IsBranched :
    (info : Info) (tree entry : ℕ)
    → entry ≢ info.parent entry
    → IsBranched (set_branch info tree entry) tree entry
unfolding set_branch
set_branch-IsBranched info tree entry ne =
    let above = info.parent entry in
    record {
      top = λ e.
          let is : (above == tree) ≡ true = ground arith in
          (
            at_entry info.has_parent entry (not (above == tree)) ∙ rw is,
            at_entry info.branch_id entry
                  (if not (above == tree) then info.branch_id above else info.entry_id entry)
                ∙ rw is,
            at_entry info.branch_id_str entry (
                  if not (above == tree) then info.branch_id_str above else info.entry_id_str entry)
                ∙ rw is,
          );
      below = λ e.
          let is : (above == tree) ≡ false = ground arith in
          (
            at_entry info.has_parent entry (not (above == tree)) ∙ rw is,
            at_entry info.branch_id entry
                  (if not (above == tree) then info.branch_id above else info.entry_id entry)
                ∙ rw is (sym (at_other info.branch_id entry above (info.branch_id above) ne)),
            at_entry info.branch_id_str entry (
                  if not (above == tree) then info.branch_id_str above else info.entry_id_str entry)
                ∙ rw is
                    (sym (at_other info.branch_id_str entry above (info.branch_id_str above) ne)),
          );
      deeper =
          at_entry info.depth entry ((info.depth above + 1) % 2 ^ 64)
          ∙ ap (λ d. (d + 1) % 2 ^ 64)
              (sym (at_other info.depth entry above ((info.depth above + 1) % 2 ^ 64) ne));
    }
