-- ===== src/FileFormat/Records.antt =====
-- What the database files of ffp_file.c hold of the structs of ffprinter.h. An array with a count is
-- the list of the cells that the count covers: file_name and file_name_len, extract and extract_num,
-- section and section_num. A time with its …_utc_used flag, and the pointer `data`, here file_data, are options.
use ffprinter.Prelude.{ℕ, Option, List}

-- struct tm; an int is its bit pattern.
pub record Time : Type 0 where
  pub tm_sec : ℕ
  pub tm_min : ℕ
  pub tm_hour : ℕ
  pub tm_mday : ℕ
  pub tm_mon : ℕ
  pub tm_year : ℕ
  pub tm_wday : ℕ
  pub tm_yday : ℕ
  pub tm_isdst : ℕ

-- `checksum` has `len` bytes.
pub record ChecksumResult : Type 0 where
  pub type : ℕ
  pub len : ℕ
  pub checksum : List ℕ

pub record ExtractSample : Type 0 where
  pub position : ℕ
  pub extract : List ℕ

pub record Section : Type 0 where
  pub start_pos : ℕ
  pub end_pos : ℕ
  pub checksum : List ChecksumResult
  pub extract : List ExtractSample

pub record FileData : Type 0 where
  pub file_size : ℕ
  pub checksum : List ChecksumResult
  pub extract : List ExtractSample
  pub norm_sect_size : ℕ
  pub last_sect_size : ℕ
  pub section : List Section

-- `parent_id` is the entry_id of the parent.
pub record Entry : Type 0 where
  pub branch_id : List ℕ
  pub entry_id : List ℕ
  pub parent_id : List ℕ
  pub type : ℕ
  pub child_num : ℕ
  pub created_by : ℕ
  pub file_name : List ℕ
  pub tag_str : List ℕ
  pub user_msg : List ℕ
  pub tod_utc : Option Time
  pub tom_utc : Option Time
  pub tusr_utc : Option Time
  pub file_data : Option FileData

-- The number of the branches, dh->tree.child_num, and the entries by link_next.
pub record Database : Type 0 where
  pub branch_num : ℕ
  pub entries : List Entry
