-- ===== src/FileFormat/Parts.antt =====
-- The times and extracts in a database file of ffp_file.c.
use ffprinter.Prelude.{
  refl, ℕ, ◌+◌, ◌%◌, ◌^◌, ◌<◌, ◌≤◌, ◌≡◌, Bool, true, false, Option, none, some, List, [], ◌∷◌,
  arith, ltb, leb, if◌then◌else◌, length, All, file_broken, lt→ltb, not, ◌||◌,
}
use mathlib.Core.Path.{subst}
use ffprinter.FileBuffer.{HostOrder}
use ffprinter.FileBuffer.Read.{Supported}
use ffprinter.FileFormat.{File, pure, ◌>>=◌, write_number, read_number}
use ffprinter.FileFormat.Number.{bound}
use ffprinter.FileFormat.Codec.{Codec, Codec-then, Codec-map, Codec-nothing, Codec-guard}
use ffprinter.FileFormat.Bytes.{Codec-number, Codec-string}
use ffprinter.FileFormat.Records.{Time, ExtractSample}
use ffprinter.FileFormat.Save.{
  extend, dst_flag, for_each, write_time, write_extract, write_extracts, write_optional, is_some,
}
use ffprinter.FileFormat.Load.{
  fits_int, from_int8, read_times, read_time, read_extract, read_extracts,
}

-- A time within the types of the file, with a tm_isdst that is -1, 0 or 1.
pub record IsTime (t : Time) : Type 0 where
  pub sec : t.tm_sec < 256
  pub min : t.tm_min < 256
  pub hour : t.tm_hour < 256
  pub mday : t.tm_mday < 256
  pub mon : t.tm_mon < 256
  pub year : t.tm_year < 2 ^ 32
  pub wday : t.tm_wday < 256
  pub yday : t.tm_yday < 2 ^ 16
  pub isdst : from_int8 (dst_flag t.tm_isdst) ≡ t.tm_isdst

-- A sample that load_file accepts, of a section or of a file.
pub record IsExtract (in_section : Bool) (file_size : ℕ) (x : ExtractSample) : Type 0 where
  pub inside : x.position < file_size
  pub short : length x.extract ≤ 4
  pub before_end :
      (if in_section
        then leb (x.position + length x.extract) file_size
        else ltb (x.position + length x.extract) file_size)
      ≡ true

abbrev pub Present : {A : Type 0} → (A → Type 0) → Option A → Type 0
Present P none = Unit
Present P (some a) = P a

pub for_each-Codec :
    {A : Type 0} (n : ℕ) (w : A → File (Unit {0})) (r : File A) (xs : List A)
    → All (λ x. Codec n (w x) r x) xs
    → Codec n (for_each w xs) (read_times (length xs) r) xs
unfolding for_each read_times
for_each-Codec n w r [] h = Codec-nothing []
for_each-Codec n w r (x ∷ xs) h =
    Codec-then _ h.0 (Codec-map (λ ys. x ∷ ys) (for_each-Codec n w r xs h.1))

flag-lt : (d : ℕ) → dst_flag d < 256
flag-lt d = ground arith

extend-lt : (y : ℕ) → y < 2 ^ 32 → extend y < bound 8
extend-lt y h = ground arith

extend_fits : (tested : Bool) (y : ℕ) → y < 2 ^ 32 → (not tested || fits_int (extend y)) ≡ true
extend_fits true y h = ground arith
extend_fits false y h = refl

extend_back : (y : ℕ) → y < 2 ^ 32 → extend y % 2 ^ 32 ≡ y
extend_back y h = ground arith

module _ (order : HostOrder) (io n : ℕ) (enough : n ≤ io) (s : Supported order false)
    (room : 64 ≤ n) where
  pub number :
      (w v : ℕ)
      → (0 < w) × (w ≤ 8)
      → v < bound w
      → Codec n (write_number order io w v) (read_number order io w) v
  number w v le lt = Codec-number order io n enough w v (omega arith) s lt

  pub time-Codec :
      (tested : Bool) (t : Time)
      → IsTime t
      → Codec n (write_time order io t) (read_time order io tested) t
  unfolding write_time read_time
  time-Codec tested t v =
      subst (λ x. Codec n (write_time order io t) (read_time order io tested) x)
        (λ i. record t { tm_year = extend_back t.tm_year v.year i; tm_isdst = v.isdst i })
        (Codec-then _ (number 1 t.tm_sec (omega arith) v.sec) (
          Codec-then _ (number 1 t.tm_min (omega arith) v.min) (
            Codec-then _ (number 1 t.tm_hour (omega arith) v.hour) (
              Codec-then _ (number 1 t.tm_mday (omega arith) v.mday) (
                Codec-then _ (number 1 t.tm_mon (omega arith) v.mon) (
                  Codec-then _
                    (number 8 (extend t.tm_year) (omega arith) (extend-lt t.tm_year v.year))
                    (Codec-guard file_broken (extend_fits tested t.tm_year v.year) (
                      Codec-then _ (number 1 t.tm_wday (omega arith) v.wday) (
                        Codec-then _ (number 2 t.tm_yday (omega arith) v.yday) (
                          Codec-map _ (
                            number 1 (dst_flag t.tm_isdst) (omega arith)
                              (flag-lt t.tm_isdst))))))))))))

  pub extract-Codec :
      (in_section : Bool) (file_size : ℕ) (x : ExtractSample)
      → file_size < 2 ^ 63
      → IsExtract in_section file_size x
      → Codec n (write_extract order io x) (read_extract order io in_section file_size) x
  unfolding write_extract read_extract
  extract-Codec in_section file_size x small v =
      let a = v.inside in
      let b = v.short in
      let e : (x.position + length x.extract) % 2 ^ 64 ≡ x.position + length x.extract =
        omega arith in
      Codec-then _ (number 8 x.position (omega arith) (omega arith)) (
        Codec-guard file_broken (lt→ltb _ _ a) (
          Codec-then _ (number 2 (length x.extract) (omega arith) (omega arith)) (
            Codec-guard file_broken (ground arith) (
              Codec-guard file_broken (rw e v.before_end)
                (Codec-map _ (Codec-string order io n enough x.extract (omega arith)))))))

  pub extracts-Codec :
      (in_section : Bool) (file_size : ℕ) (xs : List ExtractSample)
      → file_size < 2 ^ 63
      → length xs ≤ 5
      → All (IsExtract in_section file_size) xs
      → Codec n (write_extracts order io xs) (read_extracts order io in_section file_size) xs
  unfolding write_extracts read_extracts
  extracts-Codec in_section file_size xs small few h =
      Codec-then _ (number 4 (length xs) (omega arith) (omega arith)) (
        Codec-guard file_broken (ground arith) (
          for_each-Codec n (write_extract order io) (read_extract order io in_section file_size) xs
            (each xs h)))
    where
      each :
          (xs : List ExtractSample)
          → All (IsExtract in_section file_size) xs
          → All
              (λ x.
                Codec n (write_extract order io x) (read_extract order io in_section file_size) x)
              xs
      each [] h = tt
      each (x ∷ xs) h = (extract-Codec in_section file_size x small h.0, each xs h.1)

  pub optional-Codec :
      {A : Type 0} (w : A → File (Unit {0})) (r : File A) (P : A → Type 0) (o : Option A)
      → ((a : A) → P a → Codec n (w a) r a)
      → Present P o
      → Codec n (write_optional w o) (if is_some o then (do a ← r; pure (some a)) else pure none) o
  unfolding write_optional
  optional-Codec w r P none c h = Codec-nothing none
  optional-Codec w r P (some a) c h = Codec-map some (c a h)
