-- ===== src/FileFormat/Seek.antt =====
-- The end of save_file of ffp_file.c: a number is written over a place in the middle of the file.
use ffprinter.Prelude.{
  ◌==◌, ℕ, ◌<◌, ◌+◌, ◌≤◌, ◌≡◌, refl, ap, ◌∙◌, sym, Bool, true, false, some, List, [], ◌++◌, arith,
  ltb, length, take, drop, Bool-cases, inl, inr, length-append, length-take, success,
}
use mathlib.Core.List.{append-nil}
use mathlib.Core.Option
use Prim.Native.Nat.{min}
use ffprinter.FileBuffer.{
  HostOrder, BufferInfo, sub_32, flush_buf, memcpy_reverse, store_bytes, copy_ptr_to_buf,
}
use ffprinter.FileBuffer.Read.{in_memory, Supported}
use ffprinter.FileBuffer.Position.{copy_ptr_to_buf-before}
use ffprinter.FileBuffer.Write.{IsWritable, written, copy_ptr_to_buf-Adds}

abbrev with_after : List ℕ → BufferInfo → BufferInfo
with_after xs info = record info { after = xs }

-- Where the device takes all bytes, flush_buf writes over as many bytes as the buffer has.
pub flush_over :
    (io : ℕ) (info : BufferInfo)
    → info.buffer_pos ≤ length info.buf
    → info.buffer_pos ≤ io
    → ((flush_buf io info).1.before ≡ written info)
      × ((flush_buf io info).1.after ≡ drop info.buffer_pos info.after)
unfolding flush_buf
flush_over io info fits enough = elim (Bool-cases (ltb 0 info.buffer_pos)) [
  | inr e ↦
      let z : info.buffer_pos ≡ 0 = ground arith in rw (e, z) (sym (append-nil info.before), refl)
  | inl e ↦
      let m : min io info.buffer_pos ≡ info.buffer_pos = omega arith in
      let l = length-take info.buffer_pos info.buf fits in
      let full : ltb info.buffer_pos info.buffer_pos ≡ false = ground arith in
      rw (e, m, l, full) (refl, refl)
]

store_bytes-with_after :
    (xs : List ℕ) (info : BufferInfo) (ptr : List ℕ) (size : ℕ) (order : HostOrder)
    (is_string : Bool)
    → store_bytes order (with_after xs info) ptr size is_string
      ≡ Option.map (λ r. (r.0, with_after xs r.1)) (store_bytes order info ptr size is_string)
unfolding store_bytes memcpy_reverse
store_bytes-with_after xs info ptr size order true =
    elim (Bool-cases (ltb (length info.buf) (info.buffer_pos + size))) [
      | inl out ↦ rw out refl
      | inr fits ↦ rw fits refl
    ]
store_bytes-with_after xs info ptr size HostOrder.little_endian false =
    elim (Bool-cases (ltb (length info.buf) (info.buffer_pos + size))) [
      | inl out ↦ rw out refl
      | inr fits ↦ elim (Bool-cases (size == 0)) [
        | inl empty ↦ rw (fits, empty) refl
        | inr full ↦ rw (fits, full) refl
      ]
    ]
store_bytes-with_after xs info ptr size HostOrder.big_endian false =
    elim (Bool-cases (ltb (length info.buf) (info.buffer_pos + size))) [
      | inl out ↦ rw out refl
      | inr fits ↦ rw fits refl
    ]
store_bytes-with_after xs info ptr size HostOrder.other_endian false = refl

-- Without a flush.
copy_ptr_to_buf-with_after :
    (xs : List ℕ) (order : HostOrder) (io : ℕ) (info : BufferInfo) (ptr : List ℕ) (size : ℕ)
    (is_string : Bool)
    → size ≤ info.buffer_size
    → size ≤ sub_32 info.buffer_size info.buffer_pos
    → copy_ptr_to_buf order io (with_after xs info) ptr size is_string
      ≡ Option.map
          (λ r. (r.0, with_after xs r.1))
          (copy_ptr_to_buf order io info ptr size is_string)
unfolding copy_ptr_to_buf
copy_ptr_to_buf-with_after xs order io info ptr size is_string fits space =
    let a : ltb info.buffer_size size ≡ false = ground arith in
    let b : ltb (sub_32 info.buffer_size info.buffer_pos) size ≡ false = ground arith in
    rw (a, b) (store_bytes-with_after xs info ptr size order is_string)

-- On an empty buffer anywhere in the file, a number is put into the buffer, and flush_buf writes it
-- over as many bytes of the file.
pub number_over :
    (order : HostOrder) (io : ℕ) (info : BufferInfo) (ptr : List ℕ) (size : ℕ)
    → IsWritable (with_after [] info)
    → info.buffer_pos ≡ 0
    → info.buffer_size ≤ io
    → length ptr ≡ size
    → length (in_memory order false ptr) ≡ size
    → (0 < size) × (size ≤ info.buffer_size)
    → Supported order false
    → (next : BufferInfo) × (copy_ptr_to_buf order io info ptr size false ≡ some (success, next))
      × ((flush_buf io next).1.before ≡ info.before ++ in_memory order false ptr)
      × ((flush_buf io next).1.after ≡ drop size info.after)
number_over order io info ptr size v empty enough l m (full, fits) s =
    let small = v.small in
    let bare = with_after [] info in
    let (next, run, adds) =
      copy_ptr_to_buf-Adds order io bare ptr size false v enough l fits s full in
    let last = with_after info.after next in
    let space : size ≤ sub_32 info.buffer_size info.buffer_pos = rw empty (omega arith) in
    let start : written bare ≡ info.before =
      ap (λ k. info.before ++ take k info.buf) empty ∙ append-nil info.before in
    let below = adds.kept.below in
    let sized = adds.kept.sized in
    let before = copy_ptr_to_buf-before order io bare ptr size false success next fits space run in
    let taken = length-take next.buffer_pos next.buf (omega arith) in
    let pos : next.buffer_pos ≡ size = omega (
      arith,
      ap length adds.added,
      ap length before,
      length-append next.before (take next.buffer_pos next.buf),
      taken,
      length-append (written bare) (in_memory order false ptr),
      ap length start,
      m,
    ) in
    let same = adds.same in
    let (moved, behind) = flush_over io last (omega arith) (omega arith) in
    (
      last,
      copy_ptr_to_buf-with_after info.after order io bare ptr size false fits space
          ∙ ap (λ o. Option.map (λ r. (r.0, with_after info.after r.1)) o) run,
      moved ∙ adds.added ∙ ap (λ z. z ++ in_memory order false ptr) start,
      behind ∙ ap (λ k. drop k info.after) pos,
    )
