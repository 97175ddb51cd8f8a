-- ===== src/FileFormat/Load/Entries.antt =====
-- load_file of ffp_file.c: the entries, and the file around them.
-- Of the work on the database the model has the lookup of the parent and that of a duplicate among the
-- entries that were loaded before (`known`), what the links to the date trees write to the times, with
-- timegm and gmtime as the argument `normalise`, and what verify_entry then looks at. Memory does not
-- run out, and the links to the date trees stay within their arrays (the
-- 31st of a month is behind them).
use ffprinter.Prelude.{
  ℕ, zero, suc, ◌+◌, ◌-◌, ◌%◌, ◌^◌, Bool, true, false, not, ◌&&◌, ◌||◌, Option, none, some, List,
  [], ◌∷◌, ltb, leb, ◌==◌, if◌then◌else◌, length, get_elem?, replicate, success, find_fail,
  file_broken, duplicate_error, file_nosupport,
}
use ffprinter.Chains.{same_str}
use ffprinter.Text.Hex.{bytes_to_hex_str}
use ffprinter.FileBuffer.{HostOrder}
use ffprinter.FileFormat.{
  Outcome, goes_on, ends, File, pure, ◌>>=◌, ◌>>◌, guard, read_number, read_string,
}
use ffprinter.FileFormat.Records.{Time, Entry, Database}
use ffprinter.FileFormat.Save.{preamble, version, is_some}
use ffprinter.VerifyEntry.{Parent, Linked, verify_entry}
use ffprinter.FileFormat.Load.{read_if, has_bit, all_zero, settled, read_time, read_file_data}

-- An entry that was loaded before.
pub record Known : Type 0 where
  pub id_str : List ℕ
  pub branch_id : List ℕ
  pub depth : ℕ

-- lookup_entry_id_via_dh.
unfoldable pub lookup_entry_id : List Known → List ℕ → Option Known
lookup_entry_id [] id_str = none
lookup_entry_id (k ∷ known) id_str =
    if same_str k.id_str id_str then some k else lookup_entry_id known id_str

abbrev pub is_known : List Known → List ℕ → Bool
is_known known id_str = is_some (lookup_entry_id known id_str)

-- The root of the tree, or the entry with the id of the parent.
unfoldable pub parent_of : List Known → Entry → Option Parent
parent_of known e =
    if all_zero e.parent_id
    then some (record { branch_id = replicate 8 0; depth = 0 })
    else elim (lookup_entry_id known (bytes_to_hex_str e.parent_id)) [
      | none ↦ none
      | some k ↦ some (record { branch_id = k.branch_id; depth = k.depth })
    ]

unfoldable pub depth_below : Option Parent → ℕ
depth_below none = 0
depth_below (some p) = (p.depth + 1) % 2 ^ 64

-- The hour is set if the time is accepted.
abbrev pub hour_set : (Time → Option Time) → Option Time → Bool
hour_set normalise none = false
hour_set normalise (some t) = is_some (normalise t)

-- What load_file has set beside the data when it calls verify_entry: no child is loaded yet, and the
-- array of the children has the space that the file asks for.
unfoldable pub loaded_links : (Time → Option Time) → List Known → ℕ → Entry → Linked
loaded_links normalise known space e =
    let parent = parent_of known e in
    record {
      is_root = false;
      parent = parent;
      has_parent = not (all_zero e.parent_id);
      depth = depth_below parent;
      branch_id_str = bytes_to_hex_str e.branch_id;
      entry_id_str = bytes_to_hex_str e.entry_id;
      child_num = 0;
      child_free_num = space;
      child = if space == 0 then none else some [];
      fn_to_e = true;
      tag_to_e = ltb 0 (length e.tag_str);
      tod_hour = hour_set normalise e.tod_utc;
      tom_hour = hour_set normalise e.tom_utc;
      tusr_hour = hour_set normalise e.tusr_utc;
      section = elim e.file_data [ none ↦ false | some d ↦ ltb 0 (length d.section) ];
      section_free_num = 0;
    }

abbrev pub now_known : List Known → Entry → List Known
now_known known e =
    record {
      id_str = bytes_to_hex_str e.entry_id;
      branch_id = e.branch_id;
      depth = depth_below (parent_of known e);
    }
    ∷ known

-- Whether put_into_children_array puts an entry into the array of the one with this id, and how many
-- of the entries it puts there. (The array grows where its space is used up.)
unfoldable pub is_child_of : List ℕ → Entry → Bool
is_child_of id_str e = not (all_zero e.parent_id) && same_str id_str (bytes_to_hex_str e.parent_id)

unfoldable pub children_of : List ℕ → List Entry → ℕ
children_of id_str [] = 0
children_of id_str (e ∷ es) =
    if is_child_of id_str e then suc (children_of id_str es) else children_of id_str es

-- The entries that it puts into the array of the tree.
unfoldable pub branches : List Entry → ℕ
branches [] = 0
branches (e ∷ es) = if all_zero e.parent_id then suc (branches es) else branches es

-- An entry with the number of its children among those behind it.
abbrev pub count_children : Entry → List Entry → Entry
count_children e es = record e { child_num = children_of (bytes_to_hex_str e.entry_id) es }

-- The result of verify_entry.
unfoldable pub verified : Option ℕ → File (Unit {0})
verified none info = Outcome.fault
verified (some code) info = if code == success then goes_on tt info else ends file_broken

abbrev pub has_at : List ℕ → ℕ → ℕ → Bool
has_at s i c = elim (get_elem? s i) [ none ↦ false | some d ↦ d == c ]

-- A tag string begins and ends with '|'.
abbrev pub framed : List ℕ → Bool
framed s = (length s == 0) || (has_at s 0 b'|' && has_at s (length s - 1) b'|')

abbrev pub is_type : ℕ → Bool
is_type type = (type == 0x09) || ((type == 0x11) || (type == 0x22))

abbrev pub is_creator : ℕ → Bool
is_creator created_by = (created_by == 0x02) || (created_by == 0x04)

module _ (order : HostOrder) (io : ℕ) where
  -- A text with its length, up to a limit.
  unfoldable pub read_text : ℕ → File (List ℕ)
  read_text limit = do
    len ← read_number order io 8
    guard (leb len limit) file_broken
    read_string order io len

  unfoldable pub read_tag : File (List ℕ)
  read_tag = do tag ← read_text 1641; guard (framed tag) file_broken; pure tag

  unfoldable pub read_optional : {A : Type 0} → Bool → File A → File (Option A)
  read_optional b r = if b then (do a ← r; pure (some a)) else pure none

  -- All of the file is read.
  unfoldable pub check_end : File (Unit {0})
  check_end info =
      if not (info.file_pos == info.file_size)
        || (info.buffer_eol && not (info.buffer_pos == info.buffer_alt_size))
      then ends file_broken
      else goes_on tt info

  module _ (normalise : Time → Option Time) where
    -- The child number of the file, which only gives the space of the array of the children
    -- (grow_children_array), and the entry, which has no child yet.
    unfoldable pub read_entry : List Known → File (ℕ × Entry)
    read_entry known = do
      branch_id ← read_string order io 8
      entry_id ← read_string order io 8
      guard (not (all_zero entry_id)) file_broken
      parent_id ← read_string order io 8
      guard (all_zero parent_id || is_known known (bytes_to_hex_str parent_id)) find_fail
      type ← read_number order io 1
      guard (is_type type) file_broken
      space ← read_number order io 8
      created_by ← read_number order io 1
      guard (is_creator created_by) file_broken
      name_len ← read_number order io 8
      guard (leb name_len 260) file_broken
      file_name ← read_string order io name_len
      map ← read_number order io 8
      tag_str ← read_if (has_bit map 1) read_tag []
      user_msg ← read_if (has_bit map 2) (read_text 200) []
      tod_utc ←
          read_optional (has_bit map 4) (do t ← read_time order io true; pure (settled normalise t))
      tom_utc ←
          read_optional (has_bit map 8) (do t ← read_time order io true; pure (settled normalise t))
      tusr_utc ←
          read_optional (has_bit map 16)
            (do t ← read_time order io false; pure (settled normalise t))
      file_data ← read_optional (has_bit map 32) (read_file_data order io)
      pure (
        space,
        record {
          branch_id = branch_id;
          entry_id = entry_id;
          parent_id = parent_id;
          type = type;
          child_num = 0;
          created_by = created_by;
          file_name = file_name;
          tag_str = tag_str;
          user_msg = user_msg;
          tod_utc = tod_utc;
          tom_utc = tom_utc;
          tusr_utc = tusr_utc;
          file_data = file_data;
        },
      )

    -- An entry with the children that come behind it.
    unfoldable pub read_entries : List Known → ℕ → File (List Entry)
    read_entries known zero = pure []
    read_entries known (suc num) = do
      r ← read_entry known
      verified (verify_entry true (loaded_links normalise known r.0 r.1) r.1)
      guard (not (is_known known (bytes_to_hex_str r.1.entry_id))) duplicate_error
      es ← read_entries (now_known known r.1) num
      pure (count_children r.1 es ∷ es)

    -- Behind the opening of the file, into a database without entries. The number of branches in the
    -- file only gives the space of the array of the tree.
    unfoldable pub load_file : File Database
    load_file = do
      head ← read_string order io 15
      guard (same_str head preamble) file_broken
      version_buf ← read_string order io 5
      guard (same_str version_buf version) file_nosupport
      space ← read_number order io 8
      total ← read_number order io 8
      entries ← read_entries [] total
      tail ← read_string order io 15
      guard (same_str tail preamble) file_broken
      check_end
      pure (record { branch_num = branches entries; entries = entries })
