-- ===== src/FileFormat.antt =====
-- The database files of load_file and save_file of ffp_file.c: the steps that both are made of.
-- A step runs on the struct buffer_info. It goes on with a value, or it ends the whole function with
-- a code that is not 0, as ret_close_file does; a fault is an access outside of a buffer.
pub mod Number
pub mod Codec
pub mod Bytes
pub mod Records
pub mod Save
pub mod Load
pub mod Parts
pub mod Cells
pub mod Checksums
pub mod Sections
pub mod Presence
pub mod Entries
pub mod Seek
pub mod Saved
pub mod Many
pub mod Misplaced
pub mod LongTag
pub mod Accepted
pub mod Whole
use ffprinter.Prelude.{
  ℕ, zero, suc, ◌+◌, ◌*◌, ◌/◌, ◌%◌, Bool, true, false, Option, none, some, List, [], ◌∷◌, ◌++◌,
  ◌==◌, if◌then◌else◌, length, replicate, success,
}
use ffprinter.FileBuffer.{HostOrder, BufferInfo, Read, copy_buf_to_ptr, copy_ptr_to_buf}
use ffprinter.FileBuffer.Read.{in_memory}

pub data Outcome (A : Type 0) : Type 0 where
  goes_on : A → BufferInfo → Outcome A
  ends : ℕ → Outcome A
  fault : Outcome A

abbrev pub File : Type 0 → Type 0
File A = BufferInfo → Outcome A

abbrev pub pure : {A : Type 0} → A → File A
pure a info = goes_on a info

-- Behind a step.
abbrev pub continue : {A B : Type 0} → Outcome A → (A → File B) → Outcome B
continue (goes_on a info) f = f a info
continue (ends code) f = ends code
continue fault f = fault

infixl 5 ◌>>=◌ ◌>>◌
unfoldable pub ◌>>=◌ : {A B : Type 0} → File A → (A → File B) → File B
◌>>=◌ m f info = continue (m info) f

unfoldable pub ◌>>◌ : {A B : Type 0} → File A → File B → File B
◌>>◌ m k info = continue (m info) (λ _. k)

-- The function ends with the code if the condition fails.
abbrev pub guard : Bool → ℕ → File (Unit {0})
guard true code info = goes_on tt info
guard false code info = ends code

-- The `w` bytes of a number, the highest first; higher bytes are cut off.
abbrev pub big_endian_bytes : ℕ → ℕ → List ℕ
big_endian_bytes zero n = []
big_endian_bytes (suc w) n = big_endian_bytes w (n / 256) ++ n % 256 ∷ []

abbrev pub from_bytes : ℕ → List ℕ → ℕ
from_bytes n [] = n
from_bytes n (b ∷ bs) = from_bytes (n * 256 + b) bs

abbrev pub written_to : Option (ℕ × BufferInfo) → Outcome (Unit {0})
written_to none = fault
written_to (some (code, info)) = if code == success then goes_on tt info else ends code

abbrev pub read_from : {A : Type 0} → (List ℕ → A) → Option Read → Outcome A
read_from f none = fault
read_from f (some (code, info, bytes)) =
    if code == success then goes_on (f bytes) info else ends code

-- Calls of copy_ptr_to_buf and copy_buf_to_ptr for an integer of `w` bytes and for a string. A
-- variable is zero before it is read.
module _ (order : HostOrder) (io : ℕ) where
  unfoldable pub write_number : ℕ → ℕ → File (Unit {0})
  write_number w n info =
      written_to
        (copy_ptr_to_buf order io info (in_memory order false (big_endian_bytes w n)) w false)

  unfoldable pub write_string : List ℕ → File (Unit {0})
  write_string s info = written_to (copy_ptr_to_buf order io info s (length s) true)

  unfoldable pub read_number : ℕ → File ℕ
  read_number w info =
      read_from (λ bytes. from_bytes 0 (in_memory order false bytes))
        (copy_buf_to_ptr order io info (replicate w 0) w false)

  unfoldable pub read_string : ℕ → File (List ℕ)
  read_string n info =
      read_from (λ bytes. bytes) (copy_buf_to_ptr order io info (replicate n 0) n true)
