-- ===== src/FileFormat/Entries.antt =====
-- An entry in a database file of ffp_file.c.
use ffprinter.Prelude.{
  ℕ, ◌^◌, ◌<◌, ◌≤◌, ◌≡◌, refl, ap, sym, Bool, true, false, not, ◌||◌, Option, List, [], ◌∷◌, arith,
  ltb, length, le→leb, find_fail, file_broken,
}
use mathlib.Core.Path.{subst}
use ffprinter.Text.Hex.{bytes_to_hex_str}
use ffprinter.FileBuffer.{HostOrder}
use ffprinter.FileBuffer.Read.{Supported}
use ffprinter.FileFormat.{
  ◌>>=◌, pure, File, ◌>>◌, write_number, write_string, read_number, read_string,
}
use ffprinter.FileFormat.Number.{bound}
use ffprinter.FileFormat.Codec.{Codec, Codec-then, Codec-map, Codec-guard, Codec-check, Codec-if}
use ffprinter.FileFormat.Bytes.{Codec-string}
use ffprinter.FileFormat.Records.{Time, Entry}
use ffprinter.FileFormat.Save.{
  is_some, field_presence_bitmap, write_optional, write_text, write_time, write_file_data,
  write_entry,
}
use ffprinter.FileFormat.Load.{settled, read_if, has_bit, all_zero, read_time, read_file_data}
use ffprinter.FileFormat.Load.Entries.{
  Known, is_known, framed, is_type, is_creator, read_text, read_tag, read_optional, read_entry,
}
use ffprinter.FileFormat.Parts.{number, Present, IsTime, optional-Codec, time-Codec}
use ffprinter.FileFormat.Sections.{IsFileData, file_data-Codec}
use ffprinter.FileFormat.Presence.{field_presence_bitmap-Presence}

-- A time that the links to the date trees leave as it is.
pub record IsSettled (normalise : Time → Option Time) (t : Time) : Type 0 where
  pub time : IsTime t
  pub same : settled normalise t ≡ t

-- An entry that load_file accepts, of which the texts fit a buffer of `n` cells.
pub record IsEntry (normalise : Time → Option Time) (n : ℕ) (e : Entry) : Type 0 where
  pub branch : length e.branch_id ≡ 8
  pub id : length e.entry_id ≡ 8
  pub not_zero : all_zero e.entry_id ≡ false
  pub parent : length e.parent_id ≡ 8
  pub type : e.type < 256
  pub known_type : is_type e.type ≡ true
  pub child_num : e.child_num < 2 ^ 64
  pub created_by : e.created_by < 256
  pub known_creator : is_creator e.created_by ≡ true
  pub name : length e.file_name ≤ 260
  pub tag : length e.tag_str ≤ 1641
  pub tag_fits : length e.tag_str ≤ n
  pub tag_framed : framed e.tag_str ≡ true
  pub msg : length e.user_msg ≤ 200
  pub tod : Present (IsSettled normalise) e.tod_utc
  pub tom : Present (IsSettled normalise) e.tom_utc
  pub tusr : Present (IsSettled normalise) e.tusr_utc
  pub file_data : Present IsFileData e.file_data

module _ (order : HostOrder) (io n : ℕ) (enough : n ≤ io) (s : Supported order false)
    (room : 260 ≤ n) where
  text_Codec :
      (limit : ℕ) (t : List ℕ)
      → limit < 2 ^ 64
      → length t ≤ limit
      → length t ≤ n
      → Codec n
          (write_number order io 8 (length t) >> write_string order io t)
          (read_text order io limit)
          t
  unfolding read_text
  text_Codec limit t small le fits =
      Codec-then _
        (number order io n enough s (omega arith) 8 (length t) (omega arith) (omega arith))
        (Codec-guard file_broken (le→leb (length t) limit le)
          (Codec-string order io n enough t fits))

  -- A text that is written if it is not empty, and read if its bit is set.
  optional_text :
      (b : Bool) (t : List ℕ) (r : File (List ℕ))
      → b ≡ ltb 0 (length t)
      → Codec n (write_number order io 8 (length t) >> write_string order io t) r t
      → Codec n (write_text order io t) (read_if b r []) t
  unfolding write_text
  optional_text b t r e c =
      subst (λ x. Codec n (write_text order io t) (read_if x r []) t) (sym e)
        (Codec-if (ltb 0 (length t)) [] (λ _. c) (empty t))
    where
      empty : (t : List ℕ) → ltb 0 (length t) ≡ false → [] ≡ t
      empty [] h = refl
      empty (c ∷ t) h = absurd (ground arith)

  optional :
      {A : Type 0} (b : Bool) (w : A → File (Unit {0})) (r : File A) (P : A → Type 0) (o : Option A)
      → b ≡ is_some o
      → ((a : A) → P a → Codec n (w a) r a)
      → Present P o
      → Codec n (write_optional w o) (read_optional order io b r) o
  unfolding read_optional
  optional b w r P o e c h =
      subst (λ x. Codec n (write_optional w o) (read_optional order io x r) o) (sym e)
        (optional-Codec order io n enough s (omega arith) w r P o c h)

  string :
      (t : List ℕ) (k : ℕ)
      → length t ≡ k
      → k ≤ n
      → Codec n (write_string order io t) (read_string order io k) t
  string t k l le =
      subst (λ z. Codec n (write_string order io t) (read_string order io z) t) l
        (Codec-string order io n enough t (omega arith))

  time :
      (normalise : Time → Option Time) (tested b : Bool) (o : Option Time)
      → b ≡ is_some o
      → Present (IsSettled normalise) o
      → Codec n
          (write_optional (write_time order io) o)
          (read_optional order io b (do t ← read_time order io tested; pure (settled normalise t)))
          o
  time normalise tested b o e h =
      optional b (write_time order io)
        (do t ← read_time order io tested; pure (settled normalise t)) (IsSettled normalise) o e
        (λ t v.
          subst
            (λ u.
              Codec n (write_time order io t)
                (do t ← read_time order io tested; pure (settled normalise t)) u)
            v.same
            (Codec-map (settled normalise)
              (time-Codec order io n enough s (omega arith) tested t v.time)))
        h

  tag_Codec :
      (t : List ℕ)
      → length t ≤ 1641
      → length t ≤ n
      → framed t ≡ true
      → Codec n
          (write_number order io 8 (length t) >> write_string order io t)
          (read_tag order io)
          t
  unfolding read_tag
  tag_Codec t le fits ok =
      Codec-check framed file_broken ok (text_Codec 1641 t (omega arith) le fits)

  small_number :
      (w v : ℕ)
      → (0 < w) × (w ≤ 8)
      → v < bound w
      → Codec n (write_number order io w v) (read_number order io w) v
  small_number = number order io n enough s (omega arith)

  pub entry-Codec :
      (normalise : Time → Option Time) (known : List Known) (e : Entry)
      → IsEntry normalise n e
      → (all_zero e.parent_id || is_known known (bytes_to_hex_str e.parent_id)) ≡ true
      → Codec n
          (write_entry order io e)
          (read_entry order io normalise known)
          (e.child_num, record e { child_num = 0 })
  unfolding write_entry read_entry
  entry-Codec normalise known e v up =
      let p = field_presence_bitmap-Presence e in
      let eight : 8 ≤ n = omega arith in
      let nonzero : not (all_zero e.entry_id) ≡ true = ap not v.not_zero in
      let name = v.name in
      let msg = v.msg in
      Codec-then _ (string e.branch_id 8 v.branch eight) (
        Codec-then _ (string e.entry_id 8 v.id eight) (
          Codec-guard file_broken nonzero (
            Codec-then _ (string e.parent_id 8 v.parent eight) (
              Codec-guard find_fail up (
                Codec-then _ (small_number 1 e.type (omega arith) v.type) (
                  Codec-guard file_broken v.known_type (
                    Codec-then _ (small_number 8 e.child_num (omega arith) v.child_num) (
                      Codec-then _ (small_number 1 e.created_by (omega arith) v.created_by) (
                        Codec-guard file_broken v.known_creator (
                          Codec-then _
                            (small_number 8 (length e.file_name) (omega arith) (omega arith))
                            (Codec-guard file_broken (le→leb (length e.file_name) 260 name) (
                              Codec-then _
                                (Codec-string order io n enough e.file_name (omega arith))
                                (Codec-then _
                                  (small_number 8 (field_presence_bitmap e) (omega arith) p.small)
                                  (Codec-then _
                                    (optional_text (has_bit (field_presence_bitmap e) 1) e.tag_str
                                      (read_tag order io) p.tag
                                      (tag_Codec e.tag_str v.tag v.tag_fits v.tag_framed))
                                    (Codec-then _
                                      (optional_text (has_bit (field_presence_bitmap e) 2)
                                        e.user_msg (read_text order io 200) p.msg
                                        (text_Codec 200 e.user_msg (omega arith) msg (omega arith)))
                                      (Codec-then _
                                        (time normalise true (has_bit (field_presence_bitmap e) 4)
                                          e.tod_utc p.tod v.tod)
                                        (Codec-then _
                                          (time normalise true (has_bit (field_presence_bitmap e) 8)
                                            e.tom_utc p.tom v.tom)
                                          (Codec-then _
                                            (time normalise false
                                              (has_bit (field_presence_bitmap e) 16) e.tusr_utc
                                              p.tusr v.tusr)
                                            (Codec-map _ (
                                              optional (has_bit (field_presence_bitmap e) 32)
                                                (write_file_data order io) (read_file_data order io)
                                                IsFileData e.file_data p.file_data
                                                (file_data-Codec order io n enough s (omega arith))
                                                v.file_data))))))))))))))))))))
