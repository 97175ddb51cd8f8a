-- ===== src/VerifyEntry.antt =====
-- verify_entry of ffp_database.c.
-- It looks at the data of an entry, which are those of a database file, and at the pointers beside
-- them. A pointer that is followed without a use of what it points to is not modelled, nor is the NUL
-- behind a text with a length; the texts in fixed arrays are those before their NUL. `none` stands for
-- an access through a null pointer.
pub mod Tags
pub mod Sections
use ffprinter.Prelude.{
  ℕ, zero, suc, ◌+◌, ◌-◌, ◌%◌, ◌^◌, Bool, true, false, not, ◌&&◌, ◌||◌, Option, none, some, List,
  [], ◌∷◌, ◌++◌, ltb, leb, ◌==◌, if◌then◌else◌, length, get_elem?, success, verify_fail, wrong_args,
}
use ffprinter.Chains.{same_str}
use ffprinter.Text.Str.{verify_str_terminated}
use ffprinter.Text.Grab.{tag_count}
use ffprinter.Text.Hex.{bytes_to_hex_str}
use ffprinter.FileFormat.Records.{Time, ChecksumResult, ExtractSample, Section, FileData, Entry}
use ffprinter.FileFormat.Save.{checksum_unused}
use ffprinter.FileFormat.Load.{all_zero}

pub record Parent : Type 0 where
  pub branch_id : List ℕ
  pub depth : ℕ

-- What an entry has beside its data. `child` are the cells of its array, each with whether it is not
-- null; the other Booleans say that a pointer is not null.
pub record Linked : Type 0 where
  pub is_root : Bool
  pub parent : Option Parent
  pub has_parent : Bool
  pub depth : ℕ
  pub branch_id_str : List ℕ
  pub entry_id_str : List ℕ
  pub child_num : ℕ
  pub child_free_num : ℕ
  pub child : Option (List Bool)
  pub fn_to_e : Bool
  pub tag_to_e : Bool
  pub tod_hour : Bool
  pub tom_hour : Bool
  pub tusr_hour : Bool
  pub section : Bool
  pub section_free_num : ℕ

-- A test that returns with the code if it fails.
abbrev pub test : Bool → ℕ → Option ℕ
test b code = some (if b then success else code)

-- The tests in their order, up to the first that fails.
unfoldable pub all_of : List (Option ℕ) → Option ℕ
all_of [] = some success
all_of (t ∷ ts) = elim t [
  | none ↦ none
  | some code ↦ if code == success then all_of ts else some code
]

unfoldable pub terminated : List ℕ → ℕ → Bool
terminated s max_len = elim (verify_str_terminated (some (s ++ 0 ∷ [])) max_len 0) [
  | none ↦ false
  | some (code, len) ↦ code == success
]

-- `a - 1` on uint64_t.
abbrev pub pred_64 : ℕ → ℕ
pred_64 a = (a + 2 ^ 64 - 1) % 2 ^ 64

-- The loop over the children.
abbrev pub follow_children : Bool → List Bool → ℕ → Option ℕ
follow_children allow cells zero = some success
follow_children allow [] (suc num) = none
follow_children allow (c ∷ cells) (suc num) =
    let rest = follow_children allow cells num in if c || allow then rest else none

unfoldable pub verify_children : Bool → Linked → Option ℕ
verify_children allow l =
    if (l.child_num == 0) && (l.child_free_num == 0)
    then elim l.child [ none ↦ some success | some cells ↦ some verify_fail ]
    else elim l.child [
      | none ↦ some verify_fail
      | some cells ↦ follow_children allow cells l.child_num
    ]

unfoldable pub verify_hour : Bool → Option Time → Option ℕ
verify_hour hour none = some success
verify_hour hour (some t) = test hour verify_fail

abbrev pub same_branch : Linked → Entry → Option ℕ
same_branch l e =
    if l.has_parent
    then elim l.parent [
      | none ↦ none
      | some p ↦ test (same_str e.branch_id p.branch_id) verify_fail
    ]
    else some success

abbrev pub right_depth : Linked → Option ℕ
right_depth l =
    if l.has_parent
    then elim l.parent [
      | none ↦ none
      | some p ↦ test (l.depth == (p.depth + 1) % 2 ^ 64) verify_fail
    ]
    else test (l.depth == 1) verify_fail

abbrev pub char_at : List ℕ → ℕ → ℕ → Bool
char_at s i c = elim (get_elem? s i) [ none ↦ false | some d ↦ d == c ]

-- TAG_MAX_NUM and TAG_LEN_MAX are 40.
abbrev pub few_tags : List ℕ → Option ℕ
few_tags tag = elim (tag_count tag) [
  | none ↦ none
  | some c ↦ all_of (test (leb c.tag_num 40) verify_fail ∷ test (leb c.max_len 40) wrong_args ∷ [])
]

unfoldable pub verify_tag : List ℕ → Option ℕ
verify_tag tag =
    let len = length tag in
    if len == 0
    then some success
    else all_of (
        test (ltb 2 len) verify_fail
        ∷ test (leb len 1641) verify_fail
        ∷ test (char_at tag 0 b'|') verify_fail
        ∷ test (char_at tag (len - 1) b'|') verify_fail
        ∷ test (not (char_at tag (len - 2) b'\\')) verify_fail
        ∷ few_tags tag
        ∷ [])

-- An int that is negative is 2 ^ 31 or more.
abbrev pub at_most : ℕ → ℕ → Bool
at_most n max = leb n max || leb (2 ^ 31) n

unfoldable pub verify_time : Option Time → Option ℕ
verify_time none = some success
verify_time (some t) = all_of (
    test (at_most t.tm_mon 11) verify_fail
    ∷ test (ltb 0 t.tm_mday && leb t.tm_mday 31) verify_fail
    ∷ test (at_most t.tm_hour 23) verify_fail
    ∷ test (at_most t.tm_min 59) verify_fail
    ∷ [])

unfoldable pub verify_checksums : List ChecksumResult → Option ℕ
verify_checksums [] = some success
verify_checksums (c ∷ cs) =
    if c.type == checksum_unused
    then verify_checksums cs
    else all_of (
        test (leb c.type 3) verify_fail
        ∷ test (leb c.len 64) verify_fail
        ∷ test (terminated (bytes_to_hex_str c.checksum) 128) verify_fail
        ∷ verify_checksums cs
        ∷ [])

-- A sample within the bytes 0 to file_size - 1.
abbrev pub in_file : ℕ → ExtractSample → Option ℕ
in_file file_size x = all_of (
    test (leb x.position (pred_64 file_size)) verify_fail
    ∷ test (leb (pred_64 (x.position + length x.extract)) (pred_64 file_size)) verify_fail
    ∷ [])

abbrev pub verify_each : {A : Type 0} → (A → Option ℕ) → List A → List (Option ℕ)
verify_each f [] = []
verify_each f (x ∷ xs) = f x ∷ verify_each f xs

unfoldable pub verify_extracts : ℕ → List ExtractSample → Option ℕ
verify_extracts file_size xs = all_of (
    test (leb (length xs) 5) verify_fail
    ∷ verify_each
        (λ x. all_of (test (leb (length x.extract) 4) verify_fail ∷ in_file file_size x ∷ [])) xs)

abbrev pub section_extract : ℕ → Section → ExtractSample → Option ℕ
section_extract file_size s x = all_of (
    test (leb (length x.extract) 4) verify_fail
    ∷ test (not (length x.extract == 0)) verify_fail
    ∷ in_file file_size x
    ∷ test (leb s.start_pos x.position) verify_fail
    ∷ test (leb x.position s.end_pos) verify_fail
    ∷ test (leb (pred_64 (x.position + length x.extract)) s.end_pos) verify_fail
    ∷ [])

-- The sections from one on, with the one before it.
unfoldable pub verify_sections : FileData → Option Section → List Section → Option ℕ
verify_sections d before [] = some success
verify_sections d before (s ∷ ss) = all_of (
    test (ltb s.start_pos s.end_pos) verify_fail
    ∷ test (ltb s.start_pos d.file_size) verify_fail
    ∷ test (ltb s.end_pos d.file_size) verify_fail
    ∷ (if ltb 0 d.norm_sect_size
        then elim before [
          | none ↦ some success
          | some p ↦ test (ltb p.end_pos s.start_pos) verify_fail
        ]
        else some success)
    ∷ verify_checksums s.checksum
    ∷ test (leb (length s.extract) 5) verify_fail
    ∷ all_of (verify_each (section_extract d.file_size s) s.extract)
    ∷ verify_sections d (some s) ss
    ∷ [])

unfoldable pub verify_file_data : Linked → Option FileData → Option ℕ
verify_file_data l none = some success
verify_file_data l (some d) = all_of (
    verify_checksums d.checksum
    ∷ verify_extracts d.file_size d.extract
    ∷ (let norm = d.norm_sect_size in
        let last = d.last_sect_size in
        let num = length d.section in
        if (num == 0) && (l.section_free_num == 0)
        then all_of
            (test (not l.section) verify_fail ∷ test ((norm == 0) && (last == 0)) verify_fail ∷ [])
        else all_of (
            test l.section verify_fail
            ∷ test (leb norm d.file_size) verify_fail
            ∷ test (leb last norm) verify_fail
            ∷ test (not ((num == 1) && not (last == norm))) verify_fail
            ∷ test (not ((norm == 0) && not (last == 0))) verify_fail
            ∷ verify_sections d none d.section
            ∷ []))
    ∷ [])

abbrev pub has_name : Entry → Option ℕ
has_name e = test (ltb 0 (length e.file_name) && leb (length e.file_name) 260) verify_fail

-- The type is that of a file or a group.
unfoldable pub verify_data : Linked → Entry → Option ℕ
verify_data l e = all_of (
    test ((e.type == 0x11) || (e.type == 0x22)) verify_fail
    ∷ test ((e.created_by == 0x02) || (e.created_by == 0x04)) verify_fail
    ∷ has_name e
    ∷ verify_tag e.tag_str
    ∷ test (leb (length e.user_msg) 200) verify_fail
    ∷ verify_time e.tod_utc
    ∷ verify_time e.tusr_utc
    ∷ verify_file_data l e.file_data
    ∷ [])

-- The pointers and the ids.
unfoldable pub verify_links : Bool → Linked → Entry → Option ℕ
verify_links allow l e = all_of (
    elim l.parent [ none ↦ some verify_fail | some p ↦ some success ]
    ∷ verify_children allow l
    ∷ test l.fn_to_e verify_fail
    ∷ (if length e.tag_str == 0 then some success else test l.tag_to_e verify_fail)
    ∷ verify_hour l.tod_hour e.tod_utc
    ∷ verify_hour l.tom_hour e.tom_utc
    ∷ verify_hour l.tusr_hour e.tusr_utc
    ∷ test (not (all_zero e.branch_id)) verify_fail
    ∷ test (same_str (bytes_to_hex_str e.branch_id) l.branch_id_str) verify_fail
    ∷ same_branch l e
    ∷ right_depth l
    ∷ test (not (all_zero e.entry_id)) verify_fail
    ∷ test (same_str (bytes_to_hex_str e.entry_id) l.entry_id_str) verify_fail
    ∷ [])

-- `allow` is ALLOW_NULL_CHILD_PTR; a root is tested for its id only.
unfoldable pub verify_entry : Bool → Linked → Entry → Option ℕ
verify_entry allow l e = all_of (
    test (terminated l.entry_id_str 16) verify_fail
    ∷ (if l.is_root
        then all_of (
            test (all_zero e.entry_id) verify_fail
            ∷ test (same_str (bytes_to_hex_str e.entry_id) l.entry_id_str) verify_fail
            ∷ [])
        else all_of (verify_links allow l e ∷ verify_data l e ∷ []))
    ∷ [])
