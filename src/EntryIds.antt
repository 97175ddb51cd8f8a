-- ===== src/EntryIds.antt =====
-- Entry ids of ffp_database.c: gen_entry_id, set_new_entry_id and set_entry_general_info.
-- `rand` gives the values of the calls of rand in their order; `taken` says whether
-- lookup_entry_id_via_dh finds an entry with an id. `none` stands for an access through a null pointer.
pub mod Laws
use ffprinter.Prelude.{
  ℕ, zero, suc, ◌+◌, ◌-◌, ◌%◌, ◌^◌, Bool, true, false, not, ◌&&◌, Option, none, some, List, [], ◌∷◌,
  ltb, ◌==◌, if◌then◌else◌, success, wrong_args, gen_id_fail,
}
use ffprinter.Links.{null, upd}
use ffprinter.Text.Hex.{bytes_to_hex_str}
use ffprinter.DateTree.{Mode, get, put, Tm, Db, link_entry_to_date_time_tree}

abbrev pub eid_len : ℕ
eid_len = 8

abbrev pub id_gen_max_tries : ℕ
id_gen_max_tries = 1000

-- `count` bytes from the call `n` on.
unfoldable pub rand_bytes : (ℕ → ℕ) → ℕ → ℕ → List ℕ
rand_bytes rand n zero = []
rand_bytes rand n (suc count) = rand n % 256 ∷ rand_bytes rand (n + 1) count

abbrev pub candidate : (ℕ → ℕ) → ℕ → List ℕ
candidate rand n = rand_bytes rand n eid_len

-- The code, what is written to `entry_id` and to `entry_id_str` where these are not null, and the
-- number of calls of rand so far.
unfoldable pub gen_entry_id : (ℕ → ℕ) → ℕ → Bool → Bool → ℕ × Option (List ℕ) × Option (List ℕ) × ℕ
unfolding rand_bytes
gen_entry_id rand n entry_id entry_id_str =
    if not entry_id && not entry_id_str
    then (wrong_args, none, none, n)
    else let eid = candidate rand n in
      (
        success,
        if entry_id then some eid else none,
        if entry_id_str then some (bytes_to_hex_str eid) else none,
        n + eid_len,
      )

-- The loop: `rounds` more are allowed behind this one. The count, the last id and the calls of rand.
unfoldable pub try_ids : (ℕ → ℕ) → (List ℕ → Bool) → ℕ → ℕ → ℕ → ℕ × List ℕ × ℕ
try_ids rand taken zero count n = (count + 1, candidate rand n, n + eid_len)
try_ids rand taken (suc rounds) count n = elim (taken (bytes_to_hex_str (candidate rand n))) [
  | true ↦ try_ids rand taken rounds (count + 1) (n + eid_len)
  | false ↦ (count + 1, candidate rand n, n + eid_len)
]

-- The fields of linked_entry that the functions set, by address.
pub record Info : Type 0 where
  pub entry_id : ℕ → List ℕ
  pub entry_id_str : ℕ → List ℕ
  pub branch_id : ℕ → List ℕ
  pub branch_id_str : ℕ → List ℕ
  pub parent : ℕ → ℕ
  pub depth : ℕ → ℕ
  pub has_parent : ℕ → Bool

unfoldable pub set_new_entry_id : (ℕ → ℕ) → ℕ → (List ℕ → Bool) → Info → ℕ → ℕ × Info
unfolding try_ids
set_new_entry_id rand n taken info entry =
    let (count, eid, _) = try_ids rand taken (id_gen_max_tries - 1) 0 n in
    if count == id_gen_max_tries then (gen_id_fail, info) else (
      success,
      record info {
        entry_id = upd info.entry_id entry eid;
        entry_id_str = upd info.entry_id_str entry (bytes_to_hex_str eid);
      },
    )

-- The flag, the branch id and the depth; `tree` is the address of `dh->tree`.
unfoldable pub set_branch : Info → ℕ → ℕ → Info
set_branch info tree entry =
    let above = info.parent entry in
    let has = not (above == tree) in
    record info {
      has_parent = upd info.has_parent entry has;
      branch_id =
          upd info.branch_id entry (if has then info.branch_id above else info.entry_id entry);
      branch_id_str =
          upd info.branch_id_str entry
            (if has then info.branch_id_str above else info.entry_id_str entry);
      depth = upd info.depth entry ((info.depth above + 1) % 2 ^ 64);
    }

-- One time set to `now`, and the link to its tree, whose code is not looked at.
unfoldable pub set_time : (Tm → Option Tm) → ℕ → Option ℕ → Db → ℕ → Mode → ℕ → Tm → Option Db
set_time normalise fuel fresh db entry m mode now =
    elim (link_entry_to_date_time_tree normalise fuel fresh
      (record db { utc = put db.utc m (upd (get db.utc m) entry now) }) entry mode) [
        | none ↦ none
        | some (code, db') ↦ some db'
      ]

-- The time of addition, then the time of modification; the pool gives `fresh` and `fresh'`.
unfoldable pub set_entry_general_info :
    (Tm → Option Tm) → ℕ → Option ℕ → Option ℕ → Tm → Db → Info → ℕ → ℕ → Option (ℕ × Db × Info)
unfolding set_branch set_time
set_entry_general_info normalise fuel fresh fresh' now db info tree entry =
    if info.parent entry == null
    then none
    else elim (set_time normalise fuel fresh db entry Mode.tod 1 now) [
      | none ↦ none
      | some db₁ ↦ elim (set_time normalise fuel fresh' db₁ entry Mode.tom 2 now) [
        | none ↦ none
        | some db₂ ↦ some (success, db₂, set_branch info tree entry)
      ]
    ]
