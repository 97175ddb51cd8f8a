-- ===== src/Arrays.antt =====
-- The growing arrays of pointers of ffp_database.c: the children of an entry, the sections of a file
-- and the section fields of a record. The three pairs of functions differ in their types only:
-- grow_children_array, grow_section_array and grow_sect_field_array, put_into_children_array,
-- put_into_section_array and put_into_sect_field_array.
-- The answer of malloc or realloc is `none`, or the contents of the new cells.
pub mod Slots
pub mod Laws
pub mod Put
use ffprinter.Prelude.{
  ℕ, zero, suc, ◌+◌, ◌-◌, ◌%◌, ◌^◌, Bool, true, false, not, ◌&&◌, Option, none, some, List, [], ◌∷◌,
  ◌++◌, ◌==◌, if◌then◌else◌, set, success, wrong_args, malloc_fail,
}
use ffprinter.Links.{null, upd}

-- The pointer to the cells, the number of used ones and that of free ones.
pub record Pointers : Type 0 where
  pub arr : List ℕ
  pub num : ℕ
  pub free_num : ℕ

unfoldable pub cells : (ℕ → ℕ) → ℕ → List ℕ
cells junk zero = []
cells junk (suc n) = junk n ∷ cells junk n

-- `mem_wipe_sec` on `n` cells from the index `k` on.
unfoldable pub wipe : List ℕ → ℕ → ℕ → List ℕ
wipe xs k zero = xs
wipe xs k (suc n) = wipe (set xs k null) (suc k) n

unfoldable pub grow_array : Option (ℕ → ℕ) → ℕ → Pointers → ℕ × Pointers
unfolding cells wipe
grow_array none increment a = (malloc_fail, a)
grow_array (some junk) increment a = (
  success,
  record {
    arr =
        if (a.num == 0) && (a.free_num == 0)
        then wipe (cells junk increment) 0 increment
        else wipe (a.arr ++ cells junk increment) a.num increment;
    num = a.num;
    free_num = (a.free_num + increment) % 2 ^ 64;
  },
)

unfoldable pub put_into_slot : ℕ → Pointers → Pointers
put_into_slot x a = record {
  arr = set a.arr a.num x;
  num = (a.num + 1) % 2 ^ 64;
  free_num = (a.free_num + 2 ^ 64 - 1) % 2 ^ 64;
}

unfoldable pub put_into_array : Option (ℕ → ℕ) → ℕ → Pointers → ℕ × Pointers
unfolding grow_array put_into_slot
put_into_array mem x a =
    if not (a.free_num == 0)
    then (success, put_into_slot x a)
    else let (code, b) = grow_array mem 1 a in
      if code == success then (success, put_into_slot x b) else (code, b)

-- The fields of linked_entry that the children array has to do with, by address.
pub record Tree : Type 0 where
  pub child : ℕ → Pointers
  pub parent : ℕ → ℕ
  pub depth : ℕ → ℕ

-- `none` stands for a write through a null pointer.
unfoldable pub put_into_children_array : Option (ℕ → ℕ) → Tree → ℕ → ℕ → Option (ℕ × Tree)
unfolding put_into_array
put_into_children_array mem t parent entry =
    if parent == null
    then some (wrong_args, t)
    else let (code, a) = put_into_array mem entry (t.child parent) in
      if not (code == success)
      then some (code, t)
      else if entry == null
      then none
      else some (
        success,
        record {
          child = upd t.child parent a;
          parent = upd t.parent entry parent;
          depth = upd t.depth entry ((t.depth parent + 1) % 2 ^ 64);
        },
      )

-- The section array of each file_data, and the parent_file_data of each section.
pub record Files : Type 0 where
  pub sections : ℕ → Pointers
  pub parent_file_data : ℕ → ℕ

unfoldable pub put_into_section_array : Option (ℕ → ℕ) → Files → ℕ → ℕ → Option (ℕ × Files)
unfolding put_into_array
put_into_section_array mem f target sect =
    if target == null
    then some (wrong_args, f)
    else let (code, a) = put_into_array mem sect (f.sections target) in
      if not (code == success)
      then some (code, f)
      else if sect == null
      then none
      else some (
        success,
        record {
          sections = upd f.sections target a;
          parent_file_data = upd f.parent_file_data sect target;
        },
      )

-- On the section field array of each field_record.
unfoldable pub put_into_sect_field_array :
    Option (ℕ → ℕ) → (ℕ → Pointers) → ℕ → ℕ → ℕ × (ℕ → Pointers)
unfolding put_into_array
put_into_sect_field_array mem recs rec sect =
    if rec == null
    then (wrong_args, recs)
    else let (code, a) = put_into_array mem sect (recs rec) in
      if not (code == success) then (code, recs) else (success, upd recs rec a)
