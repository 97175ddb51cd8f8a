-- ===== src/FileFormat/Bytes.antt =====
-- The integers and strings of save_file and load_file of ffp_file.c, as bytes.
use ffprinter.Prelude.{
  ℕ, ◌<◌, ◌≤◌, ◌≡◌, refl, ap, ◌∙◌, Bool, true, false, List, ◌++◌, arith, length, take, drop,
  replicate, length-replicate, length-append, take-append, drop-append, take-of_ge, drop-of_ge,
  success, some,
}
use mathlib.Core.Path.{subst}
use ffprinter.FileBuffer.{HostOrder, copy_buf_to_ptr, copy_ptr_to_buf}
use ffprinter.FileBuffer.Read.{ahead, in_memory, Supported, Filled}
use ffprinter.FileBuffer.Refines.{copy_buf_to_ptr-Refines}
use ffprinter.FileBuffer.Write.{copy_ptr_to_buf-Adds}
use ffprinter.FileBuffer.Stream.{in_memory_twice, length-in_memory}
use ffprinter.FileBuffer.Position.{copy_ptr_to_buf-Positioned}
use ffprinter.FileFormat.{
  goes_on, File, big_endian_bytes, from_bytes, written_to, read_from, write_number, write_string,
  read_number, read_string,
}
use ffprinter.FileFormat.Number.{bound, length-big_endian_bytes, from_bytes-big_endian_bytes}
use ffprinter.FileFormat.Codec.{Writes, Reads, Codec}

module _ (order : HostOrder) (io n : ℕ) (enough : n ≤ io) where
  write_bytes :
      (bytes : List ℕ) (size : ℕ) (is_string : Bool)
      → length bytes ≡ size
      → size ≤ n
      → Supported order is_string
      → Filled is_string size
      → Writes n
          (λ info. written_to (copy_ptr_to_buf order io info bytes size is_string))
          (in_memory order is_string bytes)
  write_bytes bytes size is_string l fits s full info can =
      let q = can.room in
      let (next, run, adds) =
        copy_ptr_to_buf-Adds order io info bytes size is_string can.writable (omega arith) l
          (omega arith) s full in
      let p =
        copy_ptr_to_buf-Positioned order io info bytes size is_string success next can.writable
          (omega arith) (omega arith) run can.placed in
      (
        next,
        ap written_to run,
        record { writable = adds.kept; placed = p; room = adds.same ∙ q },
        adds.added,
      )

  read_bytes :
      {A : Type 0} (f : List ℕ → A) (bytes : List ℕ) (size : ℕ) (is_string : Bool)
      → length bytes ≡ size
      → size ≤ n
      → Supported order is_string
      → Filled is_string size
      → Reads n
          (λ info. read_from f (copy_buf_to_ptr order io info (replicate size 0) size is_string))
          (in_memory order is_string bytes)
          (f bytes)
  read_bytes f bytes size is_string l fits s full info rest can e =
      let q = can.room in
      let mem = in_memory order is_string bytes in
      let m = length-in_memory order is_string bytes in
      let more : size ≤ length (ahead info) = rw e (omega (arith, length-append mem rest)) in
      let ref =
        copy_buf_to_ptr-Refines order io info (replicate size 0) size is_string can.readable
          (omega arith) (length-replicate size 0) (omega arith) s full in
      let r = ref.result in
      let g = ref.enough more in
      let took : take size (ahead info) ≡ mem =
        ap (take size) e
        ∙ take-append size mem rest (omega arith)
        ∙ take-of_ge size mem (omega arith) in
      let left : drop size (ahead info) ≡ rest =
        ap (drop size) e
        ∙ drop-append size mem rest (omega arith)
        ∙ ap (λ z. z ++ rest) (drop-of_ge size mem (omega arith)) in
      let got : r.2 ≡ bytes =
        g.bytes ∙ ap (in_memory order is_string) took ∙ in_memory_twice order is_string bytes in
      (
        r.1,
        ap (read_from f) ref.runs
            ∙ ap (λ code. read_from f (some (code, r.1, r.2))) g.code
            ∙ ap (λ z. goes_on (f z) r.1) got,
        record { readable = g.kept; room = g.same ∙ q },
        g.rest ∙ left,
      )

  pub write_number-Writes :
      (w v : ℕ)
      → (0 < w) × (w ≤ n)
      → Supported order false
      → Writes n (write_number order io w v) (big_endian_bytes w v)
  unfolding write_number
  write_number-Writes w v fits s =
      let big = big_endian_bytes w v in
      let l : length (in_memory order false big) ≡ w =
        length-in_memory order false big ∙ length-big_endian_bytes w v in
      subst
        (λ z.
          Writes n
            (λ info. written_to (copy_ptr_to_buf order io info (in_memory order false big) w false))
            z)
        (in_memory_twice order false big)
        (write_bytes (in_memory order false big) w false l fits.1 s fits.0)

  pub read_number-Reads :
      (w v : ℕ)
      → (0 < w) × (w ≤ n)
      → Supported order false
      → v < bound w
      → Reads n (read_number order io w) (big_endian_bytes w v) v
  unfolding read_number
  read_number-Reads w v fits s small =
      let big = big_endian_bytes w v in
      let mem = in_memory order false big in
      let l : length mem ≡ w = length-in_memory order false big ∙ length-big_endian_bytes w v in
      let f : List ℕ → ℕ = λ z. from_bytes 0 (in_memory order false z) in
      let r : File ℕ =
        λ info. read_from f (copy_buf_to_ptr order io info (replicate w 0) w false) in
      subst (λ x. Reads n r big x)
        (ap (from_bytes 0) (in_memory_twice order false big)
          ∙ from_bytes-big_endian_bytes w v small)
        (subst (λ z. Reads n r z (f mem)) (in_memory_twice order false big)
          (read_bytes f mem w false l fits.1 s fits.0))

  pub Codec-number :
      (w v : ℕ)
      → (0 < w) × (w ≤ n)
      → Supported order false
      → v < bound w
      → Codec n (write_number order io w v) (read_number order io w) v
  Codec-number w v fits s small = record {
    bytes = big_endian_bytes w v;
    writes = write_number-Writes w v fits s;
    reads = read_number-Reads w v fits s small;
  }

  pub write_string-Writes :
      (bytes : List ℕ) → length bytes ≤ n → Writes n (write_string order io bytes) bytes
  unfolding write_string
  write_string-Writes bytes fits = write_bytes bytes (length bytes) true refl fits tt tt

  pub read_string-Reads :
      (bytes : List ℕ)
      → length bytes ≤ n
      → Reads n (read_string order io (length bytes)) bytes bytes
  unfolding read_string
  read_string-Reads bytes fits = read_bytes (λ z. z) bytes (length bytes) true refl fits tt tt

  pub Codec-string :
      (bytes : List ℕ)
      → length bytes ≤ n
      → Codec n (write_string order io bytes) (read_string order io (length bytes)) bytes
  Codec-string bytes fits = record {
    bytes = bytes;
    writes = write_string-Writes bytes fits;
    reads = read_string-Reads bytes fits;
  }
