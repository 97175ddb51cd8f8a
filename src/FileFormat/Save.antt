-- ===== src/FileFormat/Save.antt =====
-- save_file of ffp_file.c.
use ffprinter.Prelude.{
  ℕ, suc, ◌+◌, ◌-◌, ◌^◌, Bool, true, false, Option, none, some, List, [], ◌∷◌, ◌++◌, ltb, ◌==◌,
  if◌then◌else◌, length, take, drop,
}
use ffprinter.FileBuffer.{HostOrder, flush_buf}
use ffprinter.FileFormat.{goes_on, File, pure, ◌>>=◌, ◌>>◌, write_number, write_string}
use ffprinter.FileFormat.Records.{
  Time, ChecksumResult, ExtractSample, Section, FileData, Entry, Database,
}

abbrev pub checksum_unused : ℕ
checksum_unused = 0

abbrev pub preamble : List ℕ
preamble = 1 ∷ 2 ∷ 3 ∷ 4 ∷ 5 ∷ 6 ∷ 7 ∷ 8 ∷ 9 ∷ 10 ∷ 11 ∷ 12 ∷ 13 ∷ 14 ∷ 15 ∷ []

abbrev pub version : List ℕ
version = b'0' ∷ b'0' ∷ b'.' ∷ b'0' ∷ b'1' ∷ []

-- An int of 32 bits as an int64_t.
abbrev pub extend : ℕ → ℕ
extend y = if ltb y (2 ^ 31) then y else y + (2 ^ 64 - 2 ^ 32)

-- The sign of tm_isdst as an int8_t.
abbrev pub dst_flag : ℕ → ℕ
dst_flag d = if ltb d (2 ^ 31) then if d == 0 then 0 else 1 else 255

abbrev pub is_some : {A : Type 0} → Option A → Bool
is_some none = false
is_some (some a) = true

-- The sum of distinct bits, HAS_TAG_STR to HAS_FILE_DATA.
abbrev pub has : Bool → ℕ → ℕ
has b bit = if b then bit else 0

unfoldable pub field_presence_bitmap : Entry → ℕ
field_presence_bitmap e =
    has (ltb 0 (length e.tag_str)) 1
    + has (ltb 0 (length e.user_msg)) 2
    + has (is_some e.tod_utc) 4
    + has (is_some e.tom_utc) 8
    + has (is_some e.tusr_utc) 16
    + has (is_some e.file_data) 32

-- The number of the cells that are in use.
abbrev pub count_used : List ChecksumResult → ℕ
count_used [] = 0
count_used (c ∷ cs) = if c.type == checksum_unused then count_used cs else suc (count_used cs)

-- A loop over the cells of an array.
unfoldable pub for_each : {A : Type 0} → (A → File (Unit {0})) → List A → File (Unit {0})
for_each f [] = pure tt
for_each f (x ∷ xs) = f x >> for_each f xs

unfoldable pub write_optional : {A : Type 0} → (A → File (Unit {0})) → Option A → File (Unit {0})
write_optional f none = pure tt
write_optional f (some a) = f a

module _ (order : HostOrder) (io : ℕ) where
  unfoldable pub write_time : Time → File (Unit {0})
  write_time t = do
    write_number order io 1 t.tm_sec
    write_number order io 1 t.tm_min
    write_number order io 1 t.tm_hour
    write_number order io 1 t.tm_mday
    write_number order io 1 t.tm_mon
    write_number order io 8 (extend t.tm_year)
    write_number order io 1 t.tm_wday
    write_number order io 2 t.tm_yday
    write_number order io 1 (dst_flag t.tm_isdst)

  unfoldable pub write_checksum : ChecksumResult → File (Unit {0})
  write_checksum c = if c.type == checksum_unused then pure tt else do
    write_number order io 2 c.type
    write_number order io 2 c.len
    write_string order io c.checksum

  -- The number of the checksums, and those that are in use.
  unfoldable pub write_checksums : List ChecksumResult → File (Unit {0})
  write_checksums cs = do write_number order io 2 (count_used cs); for_each write_checksum cs

  unfoldable pub write_extract : ExtractSample → File (Unit {0})
  write_extract x = do
    write_number order io 8 x.position
    write_number order io 2 (length x.extract)
    write_string order io x.extract

  unfoldable pub write_extracts : List ExtractSample → File (Unit {0})
  write_extracts xs = do write_number order io 4 (length xs); for_each write_extract xs

  unfoldable pub write_section : Section → File (Unit {0})
  write_section s = do
    write_number order io 8 s.start_pos
    write_number order io 8 s.end_pos
    write_checksums s.checksum
    write_extracts s.extract

  unfoldable pub write_file_data : FileData → File (Unit {0})
  write_file_data d = do
    write_number order io 8 d.file_size
    write_checksums d.checksum
    write_extracts d.extract
    write_number order io 8 (length d.section)
    write_number order io 8 d.norm_sect_size
    write_number order io 8 d.last_sect_size
    for_each write_section d.section

  -- A text with its length, if it is not empty.
  unfoldable pub write_text : List ℕ → File (Unit {0})
  write_text s =
      if ltb 0 (length s)
      then (do write_number order io 8 (length s); write_string order io s)
      else pure tt

  unfoldable pub write_entry : Entry → File (Unit {0})
  write_entry e = do
    write_string order io e.branch_id
    write_string order io e.entry_id
    write_string order io e.parent_id
    write_number order io 1 e.type
    write_number order io 8 e.child_num
    write_number order io 1 e.created_by
    write_number order io 8 (length e.file_name)
    write_string order io e.file_name
    write_number order io 8 (field_presence_bitmap e)
    write_text e.tag_str
    write_text e.user_msg
    write_optional write_time e.tod_utc
    write_optional write_time e.tom_utc
    write_optional write_time e.tusr_utc
    write_optional write_file_data e.file_data

  -- flush_buf, whose result is not looked at.
  unfoldable pub flush : File (Unit {0})
  flush info = goes_on tt (flush_buf io info).1

  -- buf_seek with SEEK_SET.
  unfoldable pub buf_seek_set : ℕ → File (Unit {0})
  buf_seek_set offset info =
      let f = (flush_buf io info).1 in
      let whole = f.before ++ f.after in
      goes_on tt
        (record f { before = take offset whole; after = drop offset whole; file_pos = offset })

  -- Behind the creation of the file: the preamble, the version, the entries, the preamble again, and
  -- at last the number of the entries at the place of the dummy.
  unfoldable pub save_file : Database → File (Unit {0})
  save_file db = do
    write_string order io preamble
    write_string order io version
    write_number order io 8 db.branch_num
    flush
    file_pos ← λ info. goes_on info.file_pos info
    write_number order io 8 0
    for_each write_entry db.entries
    write_string order io preamble
    buf_seek_set file_pos
    write_number order io 8 (length db.entries)
    flush
