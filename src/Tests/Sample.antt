-- ===== src/Tests/Sample.antt =====
-- Two entries of a database file, the second one a child of the first.
use ffprinter.Prelude.{
  success, verify_fail, false, ℕ, ◌≡◌, refl, true, none, some, List, [], ◌∷◌, inl, inr, arith,
}
use ffprinter.Chains.{same_str}
use ffprinter.Text.Hex.{bytes_to_hex_str, hex_digit}
use ffprinter.FileFormat.Records.{Time, ChecksumResult, ExtractSample, Section, FileData, Entry}
use ffprinter.FileFormat.Load.{empty_checksum}
use ffprinter.FileFormat.Load.Entries.{
  lookup_entry_id, loaded_links, parent_of, depth_below, now_known,
}
use ffprinter.VerifyEntry.{
  Linked, verify_entry, verify_links, verify_data, verify_file_data, verify_sections,
  verify_extracts, verify_checksums, verify_time, verify_tag, all_of, verify_children, verify_hour,
  terminated,
}
use ffprinter.Text.Str.{verify_str_terminated, find_nul}
use ffprinter.Text.Grab.{tag_count, tag_loop, grab_loop}
use ffprinter.FileFormat.Parts.{IsTime}
use ffprinter.FileFormat.Cells.{Used}
use ffprinter.FileFormat.Sections.{IsSection, IsFileData}
use ffprinter.FileFormat.Entries.{IsEntry}
use ffprinter.FileFormat.Many.{IsLoadable}

abbrev noon : Time
noon = record {
  tm_sec = 59;
  tm_min = 30;
  tm_hour = 12;
  tm_mday = 30;
  tm_mon = 11;
  tm_year = 115;
  tm_wday = 3;
  tm_yday = 363;
  tm_isdst = 4294967295;
}

noon-IsTime : IsTime noon
noon-IsTime = record {
  sec = omega arith;
  min = omega arith;
  hour = omega arith;
  mday = omega arith;
  mon = omega arith;
  year = omega arith;
  wday = omega arith;
  yday = omega arith;
  isdst = refl;
}

abbrev sample : ExtractSample
sample = record { position = 3; extract = 7 ∷ 8 ∷ [] }

abbrev sha1 : ChecksumResult
sha1 = record { type = 1; len = 2; checksum = 5 ∷ 6 ∷ [] }

abbrev pub part : Section
part = record {
  start_pos = 0;
  end_pos = 4;
  checksum = sha1 ∷ empty_checksum ∷ empty_checksum ∷ [];
  extract = sample ∷ [];
}

abbrev pub contents : FileData
contents = record {
  file_size = 6;
  checksum = sha1 ∷ empty_checksum ∷ empty_checksum ∷ [];
  extract = sample ∷ [];
  norm_sect_size = 5;
  last_sect_size = 5;
  section = part ∷ [];
}

sha1-Used : Used 0 sha1
sha1-Used = record { type = refl; short = omega arith; sized = refl }

part-IsSection : IsSection 6 part
part-IsSection = record {
  start = omega arith;
  end = omega arith;
  three = refl;
  cells = (inr sha1-Used, (inl refl, (inl refl, tt)));
  leading = (λ e. absurd (omega arith), (λ _. refl, (λ _. refl, tt)));
  few = omega arith;
  extracts = (record { inside = omega arith; short = omega arith; before_end = refl }, tt);
}

contents-IsFileData : IsFileData contents
contents-IsFileData = record {
  size = omega arith;
  three = refl;
  cells = (inr sha1-Used, (inl refl, (inl refl, tt)));
  few = omega arith;
  extracts = (record { inside = omega arith; short = omega arith; before_end = refl }, tt);
  count = omega arith;
  norm = omega arith;
  last = omega arith;
  some_section = inl (omega arith);
  more_sections = inr refl;
  sections = (part-IsSection, tt);
}

abbrev zeros : List ℕ
zeros = 0 ∷ 0 ∷ 0 ∷ 0 ∷ 0 ∷ 0 ∷ 0 ∷ 0 ∷ []

abbrev ones : List ℕ
ones = 1 ∷ 1 ∷ 1 ∷ 1 ∷ 1 ∷ 1 ∷ 1 ∷ 1 ∷ []

abbrev twos : List ℕ
twos = 2 ∷ 2 ∷ 2 ∷ 2 ∷ 2 ∷ 2 ∷ 2 ∷ 2 ∷ []

abbrev pub parent : Entry
parent = record {
  branch_id = ones;
  entry_id = ones;
  parent_id = zeros;
  type = 0x22;
  child_num = 1;
  created_by = 2;
  file_name = b'a' ∷ [];
  tag_str = b'|' ∷ b't' ∷ b'|' ∷ [];
  user_msg = [];
  tod_utc = some noon;
  tom_utc = none;
  tusr_utc = none;
  file_data = none;
}

abbrev pub child : Entry
child = record parent {
  entry_id = twos;
  parent_id = ones;
  type = 0x11;
  child_num = 0;
  file_data = some contents;
}

pub parent-IsEntry : IsEntry some 260 parent
parent-IsEntry = record {
  branch = refl;
  id = refl;
  not_zero = refl;
  parent = refl;
  type = omega arith;
  known_type = refl;
  child_num = omega arith;
  created_by = omega arith;
  known_creator = refl;
  name = omega arith;
  tag = omega arith;
  tag_fits = omega arith;
  tag_framed = refl;
  msg = omega arith;
  tod = record { time = noon-IsTime; same = refl };
  tom = tt;
  tusr = tt;
  file_data = tt;
}

child-IsEntry : IsEntry some 260 child
child-IsEntry = record {
  branch = refl;
  id = refl;
  not_zero = refl;
  parent = refl;
  type = omega arith;
  known_type = refl;
  child_num = omega arith;
  created_by = omega arith;
  known_creator = refl;
  name = omega arith;
  tag = omega arith;
  tag_fits = omega arith;
  tag_framed = refl;
  msg = omega arith;
  tod = record { time = noon-IsTime; same = refl };
  tom = tt;
  tusr = tt;
  file_data = contents-IsFileData;
}

pub parent-verified : verify_entry true (loaded_links some [] 1 parent) parent ≡ some success
unfolding verify_entry verify_links verify_data verify_file_data verify_sections verify_extracts
    verify_checksums verify_time verify_tag tag_count tag_loop grab_loop all_of verify_children
    verify_hour loaded_links parent_of depth_below lookup_entry_id terminated verify_str_terminated
    find_nul same_str bytes_to_hex_str hex_digit
parent-verified = refl

pub child-verified :
    verify_entry true (loaded_links some (now_known [] parent) 0 child) child ≡ some success
unfolding verify_entry verify_links verify_data verify_file_data verify_sections verify_extracts
    verify_checksums verify_time verify_tag tag_count tag_loop grab_loop all_of verify_children
    verify_hour loaded_links parent_of depth_below lookup_entry_id terminated verify_str_terminated
    find_nul same_str bytes_to_hex_str hex_digit
child-verified = refl

pub entries-IsLoadable : IsLoadable some 260 [] (parent ∷ child ∷ [])
unfolding lookup_entry_id same_str bytes_to_hex_str hex_digit
entries-IsLoadable =
    (parent-IsEntry, refl, parent-verified, refl, (child-IsEntry, refl, child-verified, refl, tt))

-- A group as the first entry of a branch, and the same with the type ENTRY_OTHER.
abbrev pub first_links : Linked
unfolding loaded_links parent_of depth_below lookup_entry_id bytes_to_hex_str hex_digit
first_links = loaded_links some [] 1 parent

abbrev pub other : Entry
other = record parent { type = 0x09 }

pub group_accepted : verify_entry false first_links parent ≡ some success
unfolding verify_entry verify_links verify_data verify_file_data verify_sections verify_extracts
    verify_checksums verify_time verify_tag tag_count tag_loop grab_loop all_of verify_children
    verify_hour loaded_links parent_of depth_below lookup_entry_id terminated verify_str_terminated
    find_nul same_str bytes_to_hex_str hex_digit
group_accepted = refl

pub other_refused : verify_entry false first_links other ≡ some verify_fail
unfolding verify_entry verify_links verify_data verify_file_data verify_sections verify_extracts
    verify_checksums verify_time verify_tag tag_count tag_loop grab_loop all_of verify_children
    verify_hour loaded_links parent_of depth_below lookup_entry_id terminated verify_str_terminated
    find_nul same_str bytes_to_hex_str hex_digit
other_refused = refl
