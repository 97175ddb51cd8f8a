-- ===== src/FileBuffer/Position.antt =====
-- The position of the file in flush_buf and copy_ptr_to_buf of ffp_file.c.
use ffprinter.Prelude.{
  ◌==◌, ℕ, ◌+◌, ◌≤◌, ◌≡◌, refl, ap, ◌∙◌, sym, Bool, true, false, Option, none, some, List, arith,
  ltb, length, take, Bool-cases, length-append, length-take, inl, inr, some_inj,
}
use Prim.Native.Nat.{min}
use ffprinter.FileBuffer.{
  HostOrder, BufferInfo, sub_32, flush_buf, memcpy_reverse, store_bytes, copy_ptr_to_buf,
}
use ffprinter.FileBuffer.Write.{IsWritable}

-- The position is where the bytes before it end.
abbrev pub Positioned : BufferInfo → Type 0
Positioned info = info.file_pos ≡ length info.before

pub flush_buf-Positioned :
    (io : ℕ) (info : BufferInfo)
    → IsWritable info
    → info.buffer_size ≤ io
    → Positioned info
    → Positioned (flush_buf io info).1
unfolding flush_buf
flush_buf-Positioned io info v h p = elim (Bool-cases (ltb 0 info.buffer_pos)) [
  | inr e ↦ rw e p
  | inl e ↦
      let b = v.below in
      let a = v.sized in
      let m : min io info.buffer_pos ≡ info.buffer_pos = omega arith in
      let l = length-take info.buffer_pos info.buf (omega arith) in
      let no : ltb info.buffer_pos info.buffer_pos ≡ false = ground arith in
      rw (e, m, l, no) (omega (arith, length-append info.before (take info.buffer_pos info.buf), l))
]

-- What a store leaves alone.
abbrev Kept : BufferInfo → Option (ℕ × BufferInfo) → Type 0
Kept info none = Unit
Kept info (some (code, next)) = (next.before ≡ info.before) × (next.file_pos ≡ info.file_pos)

store_bytes-Kept :
    (order : HostOrder) (info : BufferInfo) (ptr : List ℕ) (size : ℕ) (is_string : Bool)
    → Kept info (store_bytes order info ptr size is_string)
unfolding store_bytes memcpy_reverse
store_bytes-Kept order info ptr size true =
    elim (Bool-cases (ltb (length info.buf) (info.buffer_pos + size))) [
      | inl out ↦ rw out tt
      | inr fits ↦ rw fits (refl, refl)
    ]
store_bytes-Kept HostOrder.little_endian info ptr size false =
    elim (Bool-cases (ltb (length info.buf) (info.buffer_pos + size))) [
      | inl out ↦ rw out tt
      | inr fits ↦ elim (Bool-cases (size == 0)) [
        | inl empty ↦ rw (fits, empty) tt
        | inr full ↦ rw (fits, full) (refl, refl)
      ]
    ]
store_bytes-Kept HostOrder.big_endian info ptr size false =
    elim (Bool-cases (ltb (length info.buf) (info.buffer_pos + size))) [
      | inl out ↦ rw out tt
      | inr fits ↦ rw fits (refl, refl)
    ]
store_bytes-Kept HostOrder.other_endian info ptr size false = (refl, refl)

keeps_place :
    (info : BufferInfo) (o : Option (ℕ × BufferInfo)) (code : ℕ) (next : BufferInfo)
    → Kept info o
    → o ≡ some (code, next)
    → Positioned info
    → Positioned next
keeps_place info none code next k e p = absurd (cc)
keeps_place info (some (c, m)) code next k e p =
    let same : m ≡ next = ap (λ q. q.1) (some_inj e) in
    let q : Positioned m = omega (arith, k.1, ap length k.0) in rw (sym same) q

pub copy_ptr_to_buf-Positioned :
    (order : HostOrder) (io : ℕ) (info : BufferInfo) (ptr : List ℕ) (size : ℕ) (is_string : Bool)
    (code : ℕ) (next : BufferInfo)
    → IsWritable info
    → info.buffer_size ≤ io
    → size ≤ info.buffer_size
    → copy_ptr_to_buf order io info ptr size is_string ≡ some (code, next)
    → Positioned info
    → Positioned next
unfolding copy_ptr_to_buf
copy_ptr_to_buf-Positioned order io info ptr size is_string code next v h fits e p =
    let room : ltb info.buffer_size size ≡ false = ground arith in
    elim (Bool-cases (ltb (sub_32 info.buffer_size info.buffer_pos) size)) [
      | inl full ↦
          let m = (flush_buf io info).1 in
          keeps_place m (store_bytes order m ptr size is_string) code next
            (store_bytes-Kept order m ptr size is_string) (rw (room, full) at e)
            (flush_buf-Positioned io info v h p)
      | inr more ↦
          keeps_place info (store_bytes order info ptr size is_string) code next
            (store_bytes-Kept order info ptr size is_string) (rw (room, more) at e) p
    ]

keeps_front :
    (info : BufferInfo) (o : Option (ℕ × BufferInfo)) (code : ℕ) (next : BufferInfo)
    → Kept info o
    → o ≡ some (code, next)
    → next.before ≡ info.before
keeps_front info none code next k e = absurd (cc)
keeps_front info (some (c, m)) code next k e =
    let same : m ≡ next = ap (λ q. q.1) (some_inj e) in ap BufferInfo.before (sym same) ∙ k.0

-- Without a flush, nothing goes to the file.
pub copy_ptr_to_buf-before :
    (order : HostOrder) (io : ℕ) (info : BufferInfo) (ptr : List ℕ) (size : ℕ) (is_string : Bool)
    (code : ℕ) (next : BufferInfo)
    → size ≤ info.buffer_size
    → size ≤ sub_32 info.buffer_size info.buffer_pos
    → copy_ptr_to_buf order io info ptr size is_string ≡ some (code, next)
    → next.before ≡ info.before
unfolding copy_ptr_to_buf
copy_ptr_to_buf-before order io info ptr size is_string code next fits space e =
    let a : ltb info.buffer_size size ≡ false = ground arith in
    let b : ltb (sub_32 info.buffer_size info.buffer_pos) size ≡ false = ground arith in
    keeps_front info (store_bytes order info ptr size is_string) code next
      (store_bytes-Kept order info ptr size is_string) (rw (a, b) at e)
