-- ===== src/FileFormat/Checksums.antt =====
-- The checksums of a database file of ffp_file.c, for a file and for a section.
use ffprinter.Prelude.{
  ℕ, suc, ◌+◌, ◌^◌, ◌<◌, ◌≤◌, ◌≡◌, inl, inr, refl, ap, ◌∙◌, Bool, true, false, some, List, [], ◌∷◌,
  ◌++◌, arith, leb, ◌==◌, if◌then◌else◌, length, replicate, length-append, file_broken,
}
use mathlib.Core.Path.{subst}
use mathlib.Core.List.{append_assoc}
use ffprinter.FileBuffer.{HostOrder}
use ffprinter.FileBuffer.Read.{Supported}
use ffprinter.FileFormat.{File, write_string, read_string}
use ffprinter.FileFormat.Codec.{
  Codec, Codec-then, Codec-map, Codec-nothing, Codec-guard, Codec-skip,
}
use ffprinter.FileFormat.Bytes.{Codec-string}
use ffprinter.FileFormat.Records.{ChecksumResult}
use ffprinter.FileFormat.Save.{
  checksum_unused, count_used, for_each, write_checksum, write_checksums,
}
use ffprinter.FileFormat.Load.{
  checksum_index, empty_checksum, set_type, set_bytes, read_checksum, checksum_loop, read_checksums,
}
use ffprinter.FileFormat.Parts.{number}
use ffprinter.FileFormat.Cells.{
  Used, IsCells, Leading, InPlace, file_InPlace, section_InPlace, count_used-le, filled_cell,
}

module _ (order : HostOrder) (io n : ℕ) (enough : n ≤ io) (s : Supported order false)
    (room : 64 ≤ n) where
  used_Codec :
      (b : Bool) (j : ℕ) (ds rest : List ChecksumResult) (c : ChecksumResult)
      → Used (length ds) c
      → length ds < 3
      → (if b then j else length ds) ≡ length ds
      → Codec n
          (write_checksum order io c)
          (read_checksum order io b j (ds ++ empty_checksum ∷ rest))
          (ds ++ c ∷ rest)
  unfolding write_checksum read_checksum
  used_Codec b j ds rest c u lt place =
      let i = length ds in
      let t = u.type in
      let l = u.short in
      let used : (c.type == checksum_unused) ≡ false = ground arith in
      let index : checksum_index c.type ≡ some (length ds) = ground arith in
      let fits : length c.checksum ≤ n = omega (arith, u.sized) in
      let text : Codec n (write_string order io c.checksum) (read_string order io c.len)
          c.checksum =
        subst (λ k. Codec n (write_string order io c.checksum) (read_string order io k) c.checksum)
          u.sized (Codec-string order io n enough c.checksum fits) in
      let full : set_bytes (set_type (ds ++ empty_checksum ∷ rest) i c.type c.len)
            (if b then j else i) c.checksum
          ≡ ds ++ c ∷ rest =
        ap (λ k. set_bytes (set_type (ds ++ empty_checksum ∷ rest) i c.type c.len) k c.checksum)
          place
        ∙ filled_cell ds rest empty_checksum c in
      let type-lt : c.type < 2 ^ 16 = omega arith in
      let len-lt : c.len < 2 ^ 16 = omega arith in
      let short : leb c.len 64 ≡ true = ground arith in
      subst
        (λ x.
          Codec n (write_checksum order io c)
            (read_checksum order io b j (ds ++ empty_checksum ∷ rest)) x)
        full
        (rw used (
          Codec-then _ (number order io n enough s room 2 c.type (omega arith) type-lt) (
            rw index (
              Codec-then _ (number order io n enough s room 2 c.len (omega arith) len-lt)
                (Codec-guard file_broken short (Codec-map _ text))))))

  abbrev write_all : List ChecksumResult → File (Unit {0})
  write_all cs = for_each (write_checksum order io) cs

  free_step :
      (r : File (List ChecksumResult)) (a cs : List ChecksumResult) (c : ChecksumResult)
      → (c.type == checksum_unused) ≡ true
      → Codec n (write_all cs) r a
      → Codec n (write_all (c ∷ cs)) r a
  unfolding for_each write_checksum
  free_step r a cs c free h = rw free (Codec-skip h)

  used_step :
      (b : Bool) (m j : ℕ) (before next a cs : List ChecksumResult) (c : ChecksumResult)
      → Codec n (write_checksum order io c) (read_checksum order io b j before) next
      → Codec n (write_all cs) (checksum_loop order io b m (j + 1) next) a
      → Codec n (write_all (c ∷ cs)) (checksum_loop order io b (suc m) j before) a
  unfolding for_each checksum_loop
  used_step b m j before next a cs c this rest =
      Codec-then (λ z. checksum_loop order io b m (j + 1) z) this rest

  -- The cells from `length ds` on, behind those of `ds`.
  abbrev Behind : Bool → ℕ → List ChecksumResult → List ChecksumResult → Type 0
  Behind b j ds cs =
      Codec n (write_all cs)
        (checksum_loop order io b (count_used cs) j (ds ++ replicate (length cs) empty_checksum))
        (ds ++ cs)

  moved_on :
      (b : Bool) (j : ℕ) (ds cs : List ChecksumResult) (c : ChecksumResult)
      → Behind b j (ds ++ c ∷ []) cs
      → Codec n
          (write_all cs)
          (checksum_loop order io b
            (count_used cs)
            j
            (ds ++ c ∷ replicate (length cs) empty_checksum))
          (ds ++ c ∷ cs)
  moved_on b j ds cs c h =
      let zeros : List ChecksumResult = replicate (length cs) empty_checksum in
      rw (append_assoc ds (c ∷ []) zeros, append_assoc ds (c ∷ []) cs) at h

  cells_Codec :
      (b : Bool) (j : ℕ) (ds cs : List ChecksumResult)
      → length ds + length cs ≤ 3
      → IsCells (length ds) cs
      → InPlace b j (length ds) cs
      → Behind b j ds cs
  unfolding for_each checksum_loop
  cells_Codec b j ds [] le h place = Codec-nothing (ds ++ [])
  cells_Codec b j ds (c ∷ cs) le (inl e, h) place =
      let free : (c.type == checksum_unused) ≡ true = ap (λ z. z.type == checksum_unused) e in
      let l : length (ds ++ c ∷ []) ≡ length ds + 1 = length-append ds (c ∷ []) in
      let zeros : List ChecksumResult = replicate (length cs) empty_checksum in
      let next =
        cells_Codec b j (ds ++ c ∷ []) cs (omega arith) (rw l h) (rw l (rw free at place)) in
      let same : count_used cs ≡ count_used (c ∷ cs) = rw free refl in
      free_step (checksum_loop order io b (count_used (c ∷ cs)) j (ds ++ empty_checksum ∷ zeros))
        (ds ++ c ∷ cs) cs c free
        (subst
          (λ k.
            Codec n (write_all cs) (checksum_loop order io b k j (ds ++ empty_checksum ∷ zeros))
              (ds ++ c ∷ cs))
          same
          (subst
            (λ z.
              Codec n (write_all cs) (checksum_loop order io b (count_used cs) j (ds ++ z ∷ zeros))
                (ds ++ c ∷ cs))
            e (moved_on b j ds cs c next)))
  cells_Codec b j ds (c ∷ cs) le (inr u, h) place =
      let t = u.type in
      let used : (c.type == checksum_unused) ≡ false = ground arith in
      let l : length (ds ++ c ∷ []) ≡ length ds + 1 = length-append ds (c ∷ []) in
      let zeros : List ChecksumResult = replicate (length cs) empty_checksum in
      let (here, behind) = rw used at place in
      let next = cells_Codec b (j + 1) (ds ++ c ∷ []) cs (omega arith) (rw l h) (rw l behind) in
      let same : suc (count_used cs) ≡ count_used (c ∷ cs) = rw used refl in
      subst
        (λ k.
          Codec n (write_all (c ∷ cs)) (checksum_loop order io b k j (ds ++ empty_checksum ∷ zeros))
            (ds ++ c ∷ cs))
        same
        (used_step b (count_used cs) j (ds ++ empty_checksum ∷ zeros) (ds ++ c ∷ zeros)
          (ds ++ c ∷ cs) cs c (used_Codec b j ds zeros c u (omega arith) here)
          (moved_on b (j + 1) ds cs c next))

  -- The three cells of a file, or of a section that uses the first ones.
  checksums_Codec :
      (b : Bool) (cs : List ChecksumResult)
      → length cs ≡ 3
      → IsCells 0 cs
      → InPlace b 0 0 cs
      → Codec n (write_checksums order io cs) (read_checksums order io b) cs
  unfolding write_checksums read_checksums
  checksums_Codec b cs three h place =
      let few = count_used-le cs in
      let count : count_used cs < 2 ^ 16 = omega arith in
      let short : leb (count_used cs) 3 ≡ true = ground arith in
      Codec-then _ (number order io n enough s room 2 (count_used cs) (omega arith) count) (
        Codec-guard file_broken short (
          subst
            (λ k.
              Codec n (for_each (write_checksum order io) cs)
                (checksum_loop order io b (count_used cs) 0 (replicate k empty_checksum)) cs)
            three (cells_Codec b 0 [] cs (omega arith) h place)))

  pub file_checksums-Codec :
      (cs : List ChecksumResult)
      → length cs ≡ 3
      → IsCells 0 cs
      → Codec n (write_checksums order io cs) (read_checksums order io false) cs
  file_checksums-Codec cs three h = checksums_Codec false cs three h (file_InPlace 0 0 cs)

  pub section_checksums-Codec :
      (cs : List ChecksumResult)
      → length cs ≡ 3
      → IsCells 0 cs
      → Leading cs
      → Codec n (write_checksums order io cs) (read_checksums order io true) cs
  section_checksums-Codec cs three h lead =
      checksums_Codec true cs three h (section_InPlace 0 cs lead)
