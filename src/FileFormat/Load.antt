-- ===== src/FileFormat/Load.antt =====
-- load_file of ffp_file.c.
pub mod Entries
use ffprinter.Prelude.{
  ℕ, zero, suc, ◌+◌, ◌-◌, ◌*◌, ◌/◌, ◌%◌, ◌^◌, Bool, true, false, not, ◌&&◌, ◌||◌, Option, none,
  some, List, [], ◌∷◌, ltb, leb, ◌==◌, if◌then◌else◌, length, get_elem?, set, replicate, success,
  find_fail, file_broken, duplicate_error, file_nosupport,
}
use ffprinter.FileBuffer.{HostOrder, BufferInfo}
use ffprinter.FileFormat.{
  Outcome, goes_on, File, pure, ◌>>=◌, ◌>>◌, guard, read_number, read_string,
}
use ffprinter.FileFormat.Records.{
  Time, ChecksumResult, ExtractSample, Section, FileData, Entry, Database,
}

-- An int64_t within INT_MIN and INT_MAX, and the int of it.
abbrev pub fits_int : ℕ → Bool
fits_int v = ltb v (2 ^ 31) || leb (2 ^ 64 - 2 ^ 31) v

abbrev pub from_int8 : ℕ → ℕ
from_int8 v = if ltb v 128 then v else v + (2 ^ 32 - 256)

-- CHECKSUM_SHA1_INDEX to CHECKSUM_SHA512_INDEX by the id.
abbrev pub checksum_index : ℕ → Option ℕ
checksum_index type =
    if type == 1 then some 0 else if type == 2 then some 1 else if type == 3 then some 2 else none

abbrev pub empty_checksum : ChecksumResult
empty_checksum = record { type = 0; len = 0; checksum = [] }

-- A cell of three; a write behind them does not come up.
abbrev pub cell : List ChecksumResult → ℕ → ChecksumResult
cell cs i = elim (get_elem? cs i) [ none ↦ empty_checksum | some c ↦ c ]

abbrev pub set_type : List ChecksumResult → ℕ → ℕ → ℕ → List ChecksumResult
set_type cs i type len = set cs i (record (cell cs i) { type = type; len = len })

abbrev pub set_bytes : List ChecksumResult → ℕ → List ℕ → List ChecksumResult
set_bytes cs i bytes = set cs i (record (cell cs i) { checksum = bytes })

-- A loop that reads the cells of an array.
unfoldable pub read_times : {A : Type 0} → ℕ → File A → File (List A)
read_times zero r = pure []
read_times (suc n) r = do x ← r; xs ← read_times n r; pure (x ∷ xs)

abbrev pub read_if : {A : Type 0} → Bool → File A → A → File A
read_if b r absent = if b then r else pure absent

-- A bit of field_presence_bitmap.
abbrev pub has_bit : ℕ → ℕ → Bool
has_bit map bit = map / bit % 2 == 1

-- A time behind link_entry_to_date_time_tree: what timegm and gmtime make of it, if they accept it.
abbrev pub settled : (Time → Option Time) → Time → Time
settled normalise t = elim (normalise t) [ none ↦ t | some u ↦ u ]

abbrev pub all_zero : List ℕ → Bool
all_zero [] = true
all_zero (b ∷ bs) = (b == 0) && all_zero bs

module _ (order : HostOrder) (io : ℕ) where
  -- The year of tod and tom is tested, that of tusr is only cut off.
  unfoldable pub read_time : Bool → File Time
  read_time tested = do
    sec ← read_number order io 1
    min ← read_number order io 1
    hour ← read_number order io 1
    mday ← read_number order io 1
    mon ← read_number order io 1
    year ← read_number order io 8
    guard (not tested || fits_int year) file_broken
    wday ← read_number order io 1
    yday ← read_number order io 2
    isdst ← read_number order io 1
    pure (record {
      tm_sec = sec;
      tm_min = min;
      tm_hour = hour;
      tm_mday = mday;
      tm_mon = mon;
      tm_year = year % 2 ^ 32;
      tm_wday = wday;
      tm_yday = yday;
      tm_isdst = from_int8 isdst;
    })

  -- The bytes of the round `j` go to the cell of the type in a file, and to the cell `j` in a section.
  unfoldable pub read_checksum : Bool → ℕ → List ChecksumResult → File (List ChecksumResult)
  read_checksum in_section j cs = do
    type ← read_number order io 2
    elim (checksum_index type) [
      | none ↦ λ info. Outcome.ends file_broken
      | some i ↦ do
        len ← read_number order io 2
        guard (leb len 64) file_broken
        bytes ← read_string order io len
        pure (set_bytes (set_type cs i type len) (if in_section then j else i) bytes)
    ]

  unfoldable pub checksum_loop : Bool → ℕ → ℕ → List ChecksumResult → File (List ChecksumResult)
  checksum_loop in_section zero j cs = pure cs
  checksum_loop in_section (suc rounds) j cs = do
    next ← read_checksum in_section j cs
    checksum_loop in_section rounds (j + 1) next

  -- Into three cells that are zero.
  unfoldable pub read_checksums : Bool → File (List ChecksumResult)
  read_checksums in_section = do
    num ← read_number order io 2
    guard (leb num 3) file_broken
    checksum_loop in_section num 0 (replicate 3 empty_checksum)

  -- A sample of a file must end before the end of the file, one of a section not behind it.
  unfoldable pub read_extract : Bool → ℕ → File ExtractSample
  read_extract in_section file_size = do
    position ← read_number order io 8
    guard (ltb position file_size) file_broken
    len ← read_number order io 2
    guard (leb len 4) file_broken
    guard
        (let end = (position + len) % 2 ^ 64 in
          if in_section then leb end file_size else ltb end file_size)
        file_broken
    bytes ← read_string order io len
    pure (record { position = position; extract = bytes })

  unfoldable pub read_extracts : Bool → ℕ → File (List ExtractSample)
  read_extracts in_section file_size = do
    num ← read_number order io 4
    guard (leb num 5) file_broken
    read_times num (read_extract in_section file_size)

  unfoldable pub read_section : ℕ → File Section
  read_section file_size = do
    start_pos ← read_number order io 8
    end_pos ← read_number order io 8
    checksum ← read_checksums true
    extract ← read_extracts true file_size
    pure (record {
      start_pos = start_pos;
      end_pos = end_pos;
      checksum = checksum;
      extract = extract;
    })

  unfoldable pub read_file_data : File FileData
  read_file_data = do
    file_size ← read_number order io 8
    guard (leb file_size 109951162777600) file_broken
    checksum ← read_checksums false
    extract ← read_extracts false file_size
    sect_num ← read_number order io 8
    norm ← read_number order io 8
    guard (not ((sect_num == 0) && not (norm == 0))) file_broken
    guard (leb norm file_size) file_broken
    last ← read_number order io 8
    guard (not ((sect_num == 0) && not (last == 0))) file_broken
    guard (not ((sect_num == 1) && not (last == norm))) file_broken
    guard (leb last norm) file_broken
    section ← read_times sect_num (read_section file_size)
    pure (record {
      file_size = file_size;
      checksum = checksum;
      extract = extract;
      norm_sect_size = norm;
      last_sect_size = last;
      section = section;
    })
