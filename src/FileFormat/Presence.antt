-- ===== src/FileFormat/Presence.antt =====
-- field_presence_bitmap of load_file and save_file of ffp_file.c.
use ffprinter.Prelude.{ℕ, ◌+◌, ◌^◌, ◌<◌, ◌≡◌, Bool, arith, ltb, length}
use ffprinter.FileFormat.Records.{Entry}
use ffprinter.FileFormat.Save.{is_some, has, field_presence_bitmap}
use ffprinter.FileFormat.Load.{has_bit}

abbrev bit_sum : Bool → Bool → Bool → Bool → Bool → Bool → ℕ
bit_sum a b c d e f = has a 1 + has b 2 + has c 4 + has d 8 + has e 16 + has f 32

bit_sum_lem :
    (a b c d e f : Bool)
    → let m = bit_sum a b c d e f in
      (has_bit m 1 ≡ a)
      × (has_bit m 2 ≡ b)
      × (has_bit m 4 ≡ c)
      × (has_bit m 8 ≡ d)
      × (has_bit m 16 ≡ e)
      × (has_bit m 32 ≡ f)
bit_sum_lem a b c d e f =
    (ground arith, ground arith, ground arith, ground arith, ground arith, ground arith)

bit_sum-lt : (a b c d e f : Bool) → bit_sum a b c d e f < 2 ^ 64
bit_sum-lt a b c d e f = ground arith

-- The bits of the map say which parts there are.
pub record Presence (e : Entry) (map : ℕ) : Type 0 where
  pub small : map < 2 ^ 64
  pub tag : has_bit map 1 ≡ ltb 0 (length e.tag_str)
  pub msg : has_bit map 2 ≡ ltb 0 (length e.user_msg)
  pub tod : has_bit map 4 ≡ is_some e.tod_utc
  pub tom : has_bit map 8 ≡ is_some e.tom_utc
  pub tusr : has_bit map 16 ≡ is_some e.tusr_utc
  pub file_data : has_bit map 32 ≡ is_some e.file_data

pub field_presence_bitmap-Presence : (e : Entry) → Presence e (field_presence_bitmap e)
unfolding field_presence_bitmap
field_presence_bitmap-Presence e =
    let tag = ltb 0 (length e.tag_str) in
    let msg = ltb 0 (length e.user_msg) in
    let tod = is_some e.tod_utc in
    let tom = is_some e.tom_utc in
    let tusr = is_some e.tusr_utc in
    let dat = is_some e.file_data in
    let (b₀, b₁, b₂, b₃, b₄, b₅) = bit_sum_lem tag msg tod tom tusr dat in
    record {
      small = bit_sum-lt tag msg tod tom tusr dat;
      tag = b₀;
      msg = b₁;
      tod = b₂;
      tom = b₃;
      tusr = b₄;
      file_data = b₅;
    }
