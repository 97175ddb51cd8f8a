-- ===== src/Tests/Files.antt =====
-- A file of four bytes behind a buffer of three cells of which two are read.
use ffprinter.Prelude.{◌≡◌, refl, false, none, some, [], ◌∷◌, arith, success, fwrite_error}
use mathlib.Core.Option
use ffprinter.FileBuffer.{HostOrder, BufferInfo, copy_buf_to_ptr, copy_ptr_to_buf, flush_buf}
use ffprinter.FileBuffer.Read.{IsReadable}
use ffprinter.FileBuffer.Refines.{Refines, copy_buf_to_ptr-Refines}
use ffprinter.FileBuffer.Write.{IsWritable, Adds, copy_ptr_to_buf-Adds, copy_ptr_to_buf_overflow}

abbrev reader : BufferInfo
reader = record {
  before = 1 ∷ 2 ∷ 3 ∷ [];
  after = 4 ∷ 5 ∷ 6 ∷ 7 ∷ [];
  file_size = 7;
  file_pos = 3;
  buf = 1 ∷ 2 ∷ 3 ∷ [];
  buf_backup = 0 ∷ 0 ∷ 0 ∷ [];
  buffer_pos = 2;
  buffer_size = 3;
  buffer_eol = false;
  buffer_alt_size = 0;
}

reader-IsReadable : IsReadable reader
reader-IsReadable = record {
  sized = refl;
  backed = refl;
  small = omega arith;
  below = omega arith;
  within = omega arith;
  counted = refl;
  ended = λ e. absurd (cc);
}

-- The bytes 3, 4 and 5, turned.
reader_runs :
    Option.map
      (λ r. r.2)
      (copy_buf_to_ptr HostOrder.little_endian 3 reader (0 ∷ 0 ∷ 0 ∷ []) 3 false)
    ≡ some (5 ∷ 4 ∷ 3 ∷ [])
unfolding copy_buf_to_ptr
reader_runs = refl

copy_buf_to_ptr-Refines_example :
    Refines HostOrder.little_endian false reader 3
      (copy_buf_to_ptr HostOrder.little_endian 3 reader (0 ∷ 0 ∷ 0 ∷ []) 3 false)
copy_buf_to_ptr-Refines_example =
    copy_buf_to_ptr-Refines HostOrder.little_endian 3 reader (0 ∷ 0 ∷ 0 ∷ []) 3 false
      reader-IsReadable (omega arith) refl (omega arith) tt (omega arith)

abbrev writer : BufferInfo
writer = record reader { after = []; file_size = 3 }

writer-IsWritable : IsWritable writer
writer-IsWritable = record { sized = refl; small = omega arith; below = omega arith; at_end = refl }

copy_ptr_to_buf-Adds_example :
    (info : BufferInfo) × (copy_ptr_to_buf HostOrder.little_endian 3 writer (8 ∷ 9 ∷ []) 2 false
      ≡ some (success, info))
    × Adds writer (9 ∷ 8 ∷ []) info
copy_ptr_to_buf-Adds_example =
    copy_ptr_to_buf-Adds HostOrder.little_endian 3 writer (8 ∷ 9 ∷ []) 2 false writer-IsWritable
      (omega arith) refl (omega arith) tt (omega arith)

copy_ptr_to_buf_overflow_example :
    ((flush_buf 0 writer).0 ≡ fwrite_error)
    × (copy_ptr_to_buf HostOrder.little_endian 0 writer (8 ∷ 9 ∷ []) 2 false ≡ none)
copy_ptr_to_buf_overflow_example =
    copy_ptr_to_buf_overflow HostOrder.little_endian writer (8 ∷ 9 ∷ []) 2 false writer-IsWritable
      (omega arith) (omega arith) tt
