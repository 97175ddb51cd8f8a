-- ===== src/FileBuffer/Write.antt =====
-- copy_ptr_to_buf and flush_buf of ffp_file.c write the file through the buffer.
use ffprinter.Prelude.{
  ℕ, ◌+◌, ◌-◌, ◌%◌, ◌^◌, ◌≤◌, ◌<◌, ◌≡◌, refl, ap, ◌∙◌, sym, Bool, true, false, none, some, List, [],
  ◌++◌, arith, ltb, if◌then◌else◌, length, take, drop, Bool-cases, length-append, length-take,
  take-append, take-of_ge, length-reverse, success, fwrite_error, drop-nil, inl, inr,
}
use mathlib.Core.List.{reverse, append_assoc, append-nil}
use Prim.Native.Nat.{min}
use ffprinter.FileBuffer.{
  HostOrder, BufferInfo, sub_32, advance, memcpy_forward, copy_back, flush_buf, store_bytes,
  copy_ptr_to_buf,
}
use ffprinter.FileBuffer.Copy.{
  memcpy_forward_lem, memcpy_reverse_runs, copy_back_lem, length-memcpy_forward, length-copy_back,
}
use ffprinter.FileBuffer.Read.{in_memory, Supported, Filled}

-- The bytes of the file, once the buffer is flushed.
abbrev pub written : BufferInfo → List ℕ
written info = info.before ++ take info.buffer_pos info.buf

-- The struct in the course of writing at the end of a file.
pub record IsWritable (info : BufferInfo) : Type 0 where
  pub sized : length info.buf ≡ info.buffer_size
  pub small : info.buffer_size < 2 ^ 16
  pub below : info.buffer_pos ≤ info.buffer_size
  pub at_end : info.after ≡ []

-- A write that adds `bytes`.
pub record Adds (info : BufferInfo) (bytes : List ℕ) (info' : BufferInfo) : Type 0 where
  pub added : written info' ≡ written info ++ bytes
  pub kept : IsWritable info'
  pub same : info'.buffer_size ≡ info.buffer_size

pub record Flushed (info info' : BufferInfo) : Type 0 where
  pub kept : IsWritable info'
  pub moved : info'.before ≡ written info
  pub empty : info'.buffer_pos ≡ 0
  pub same : info'.buffer_size ≡ info.buffer_size

-- Where the device takes all bytes, flush_buf moves the bytes of the buffer to the file.
pub flush_buf-Flushed :
    (io : ℕ) (info : BufferInfo)
    → IsWritable info
    → info.buffer_size ≤ io
    → ((flush_buf io info).0 ≡ success) × Flushed info (flush_buf io info).1
unfolding flush_buf
flush_buf-Flushed io info v h = elim (Bool-cases (ltb 0 info.buffer_pos)) [
  | inr e ↦
      let z : info.buffer_pos ≡ 0 = ground arith in
      let t : take info.buffer_pos info.buf ≡ [] = rw z in
      rw e
        (refl, record { kept = v; moved = rw (t, append-nil info.before); empty = z; same = refl })
  | inl e ↦
      let b = v.below in
      let a = v.sized in
      let m : min io info.buffer_pos ≡ info.buffer_pos = omega arith in
      let l = length-take info.buffer_pos info.buf (omega arith) in
      let no : ltb info.buffer_pos info.buffer_pos ≡ false = ground arith in
      rw (e, m, l, no)
        (
          refl,
          record {
            kept = record {
              sized = a;
              small = v.small;
              below = omega arith;
              at_end = rw (v.at_end) (drop-nil info.buffer_pos);
            };
            moved = refl;
            empty = refl;
            same = refl;
          },
        )
]

stored_view :
    (before buf xs rest : List ℕ) (pos : ℕ)
    → pos ≤ length buf
    → before ++ take (pos + length xs) (take pos buf ++ (xs ++ rest))
      ≡ (before ++ take pos buf) ++ xs
stored_view before buf xs rest pos h =
    let l = length-take pos buf h in
    let k : pos + length xs ≡ length (take pos buf ++ xs) =
      omega (arith, length-append (take pos buf) xs) in
    ap (λ z. before ++ take (pos + length xs) z) (sym (append_assoc (take pos buf) xs rest))
    ∙ ap (λ n. before ++ take n ((take pos buf ++ xs) ++ rest)) k
    ∙ ap (λ z. before ++ z)
        (take-append (length (take pos buf ++ xs)) (take pos buf ++ xs) rest (omega arith)
          ∙ take-of_ge (length (take pos buf ++ xs)) (take pos buf ++ xs) (omega arith))
    ∙ sym (append_assoc before (take pos buf) xs)

module _ (info : BufferInfo) (ptr : List ℕ) (size : ℕ) (v : IsWritable info) (l : length ptr ≡ size)
    (room : info.buffer_pos + size ≤ info.buffer_size) where
  inside : ltb (length info.buf) (info.buffer_pos + size) ≡ false
  inside = let a = v.sized in ground arith

  moved_on : (info.buffer_pos + size) % 2 ^ 16 ≡ info.buffer_pos + size
  moved_on = let a = v.small in omega arith

  forward_Adds :
      Adds info ptr
        (advance (record info { buf = memcpy_forward info.buf info.buffer_pos ptr size }) size)
  forward_Adds =
      let a = v.sized in
      let e = memcpy_forward_lem info.buf info.buffer_pos ptr size (omega arith) (omega arith) in
      let t = take-of_ge size ptr (omega arith) in
      let s = length-memcpy_forward info.buf info.buffer_pos ptr size in
      record {
        added =
            rw (moved_on, e, t)
              (ap
                  (λ n.
                    info.before
                    ++ take (info.buffer_pos + n) (
                        take info.buffer_pos info.buf
                        ++ (ptr ++ drop (info.buffer_pos + size) info.buf)))
                  (sym l)
                ∙ stored_view info.before info.buf ptr (drop (info.buffer_pos + size) info.buf)
                    info.buffer_pos (omega arith));
        kept = record {
          sized = omega arith;
          small = v.small;
          below = rw moved_on room;
          at_end = v.at_end;
        };
        same = refl;
      }

  reverse-Adds :
      Adds info
        (reverse ptr)
        (advance (record info { buf = copy_back info.buf info.buffer_pos ptr size }) size)
  reverse-Adds =
      let a = v.sized in
      let e = copy_back_lem info.buf info.buffer_pos ptr size (omega arith) (omega arith) in
      let t = take-of_ge size ptr (omega arith) in
      let s = length-copy_back info.buf info.buffer_pos ptr size in
      let r : length (reverse ptr) ≡ size = length-reverse ptr ∙ l in
      record {
        added =
            rw (moved_on, e, t)
              (ap
                  (λ n.
                    info.before
                    ++ take (info.buffer_pos + n) (
                        take info.buffer_pos info.buf
                        ++ (reverse ptr ++ drop (info.buffer_pos + size) info.buf)))
                  (sym r)
                ∙ stored_view info.before info.buf (reverse ptr)
                    (drop (info.buffer_pos + size) info.buf) info.buffer_pos (omega arith));
        kept = record {
          sized = omega arith;
          small = v.small;
          below = rw moved_on room;
          at_end = v.at_end;
        };
        same = refl;
      }

  store_bytes-Adds :
      (order : HostOrder) (is_string : Bool)
      → Supported order is_string
      → Filled is_string size
      → (info' : BufferInfo) × (store_bytes order info ptr size is_string ≡ some (success, info'))
        × Adds info (in_memory order is_string ptr) info'
  unfolding store_bytes
  store_bytes-Adds order true s f = (
    advance (record info { buf = memcpy_forward info.buf info.buffer_pos ptr size }) size,
    rw inside,
    forward_Adds,
  )
  store_bytes-Adds HostOrder.little_endian false s f = (
    advance (record info { buf = copy_back info.buf info.buffer_pos ptr size }) size,
    rw (inside, memcpy_reverse_runs info.buf info.buffer_pos ptr size f),
    reverse-Adds,
  )
  store_bytes-Adds HostOrder.big_endian false s f = (
    advance (record info { buf = memcpy_forward info.buf info.buffer_pos ptr size }) size,
    rw inside,
    forward_Adds,
  )
  store_bytes-Adds HostOrder.other_endian false s f = absurd s

-- What is stored to, by whether the space is too small.
abbrev target : Bool → ℕ → BufferInfo → BufferInfo
target true io info = (flush_buf io info).1
target false io info = info

by_target :
    (order : HostOrder) (io : ℕ) (info : BufferInfo) (ptr : List ℕ) (size : ℕ) (is_string b : Bool)
    → store_bytes order (if b then (flush_buf io info).1 else info) ptr size is_string
      ≡ store_bytes order (target b io info) ptr size is_string
by_target order io info ptr size is_string true = refl
by_target order io info ptr size is_string false = refl

copy_ptr_to_buf_runs :
    (order : HostOrder) (io : ℕ) (info : BufferInfo) (ptr : List ℕ) (size : ℕ) (is_string : Bool)
    → IsWritable info
    → size ≤ info.buffer_size
    → (b : Bool) → ltb (info.buffer_size - info.buffer_pos) size ≡ b
    → copy_ptr_to_buf order io info ptr size is_string
      ≡ store_bytes order (target b io info) ptr size is_string
unfolding copy_ptr_to_buf
copy_ptr_to_buf_runs order io info ptr size is_string v fits b e =
    let ok : ltb info.buffer_size size ≡ false = ground arith in
    let a = v.small in
    let c = v.below in
    let d : sub_32 info.buffer_size info.buffer_pos ≡ info.buffer_size - info.buffer_pos =
      omega arith in
    rw (ok, d, e) (by_target order io info ptr size is_string b)

store_outside :
    (info : BufferInfo) (ptr : List ℕ) (size : ℕ)
    → length info.buf < info.buffer_pos + size
    → (order : HostOrder) (is_string : Bool) → Supported order is_string
    → store_bytes order info ptr size is_string ≡ none
unfolding store_bytes
store_outside info ptr size h order true s =
    let e : ltb (length info.buf) (info.buffer_pos + size) ≡ true = ground arith in rw e
store_outside info ptr size h HostOrder.little_endian false s =
    let e : ltb (length info.buf) (info.buffer_pos + size) ≡ true = ground arith in rw e
store_outside info ptr size h HostOrder.big_endian false s =
    let e : ltb (length info.buf) (info.buffer_pos + size) ≡ true = ground arith in rw e
store_outside info ptr size h HostOrder.other_endian false s = absurd s

flush_fails :
    (info : BufferInfo)
    → IsWritable info
    → 0 < info.buffer_pos
    → ((flush_buf 0 info).0 ≡ fwrite_error)
      × ((flush_buf 0 info).1 ≡ record info { before = info.before ++ []; after = info.after })
unfolding flush_buf
flush_fails info v h =
    let e : ltb 0 info.buffer_pos ≡ true = ground arith in
    let m : min 0 info.buffer_pos ≡ 0 = omega arith in rw (e, m) (rw e (refl, refl))

-- On a struct in the course of writing, with a device that takes all bytes, and for a field no longer
-- than the buffer that has a byte or is a string, copy_ptr_to_buf adds exactly the bytes of the field to the file, in big endian
-- order unless it is a string, wherever the buffer ends.
pub copy_ptr_to_buf-Adds :
    (order : HostOrder) (io : ℕ) (info : BufferInfo) (ptr : List ℕ) (size : ℕ) (is_string : Bool)
    → IsWritable info
    → info.buffer_size ≤ io
    → length ptr ≡ size
    → size ≤ info.buffer_size
    → Supported order is_string
    → Filled is_string size
    → (info' : BufferInfo) × (copy_ptr_to_buf order io info ptr size is_string
        ≡ some (success, info'))
      × Adds info (in_memory order is_string ptr) info'
copy_ptr_to_buf-Adds order io info ptr size is_string v enough l fits s full =
    elim (Bool-cases (ltb (info.buffer_size - info.buffer_pos) size)) [
      | inr e ↦
          let runs = copy_ptr_to_buf_runs order io info ptr size is_string v fits false e in
          let b = v.below in
          rw runs (store_bytes-Adds info ptr size v l (ground arith) order is_string s full)
      | inl e ↦
          let runs = copy_ptr_to_buf_runs order io info ptr size is_string v fits true e in
          let (c, f) = flush_buf-Flushed io info v enough in
          let new = (flush_buf io info).1 in
          let z = f.empty in
          let q = f.same in
          let (info', stored, h) =
            store_bytes-Adds new ptr size f.kept l (omega arith) order is_string s full in
          let start : written new ≡ written info =
            ap (λ n. new.before ++ take n new.buf) z ∙ append-nil new.before ∙ f.moved in
          (
            info',
            runs ∙ stored,
            record {
              added = h.added ∙ ap (λ w. w ++ in_memory order is_string ptr) start;
              kept = h.kept;
              same = h.same ∙ q;
            },
          )
    ]

-- Where the device takes none of the bytes of a buffer without enough space, copy_ptr_to_buf does not
-- see the error of flush_buf and writes behind the end of the buffer.
pub copy_ptr_to_buf_overflow :
    (order : HostOrder) (info : BufferInfo) (ptr : List ℕ) (size : ℕ) (is_string : Bool)
    → IsWritable info
    → size ≤ info.buffer_size
    → info.buffer_size < info.buffer_pos + size
    → Supported order is_string
    → ((flush_buf 0 info).0 ≡ fwrite_error)
      × (copy_ptr_to_buf order 0 info ptr size is_string ≡ none)
copy_ptr_to_buf_overflow order info ptr size is_string v fits full s =
    let b = v.below in
    let c = v.sized in
    let e : ltb (info.buffer_size - info.buffer_pos) size ≡ true = ground arith in
    let (f, g) = flush_fails info v (omega arith) in
    let far : length (flush_buf 0 info).1.buf < (flush_buf 0 info).1.buffer_pos + size =
      rw g (omega arith) in
    (
      f,
      copy_ptr_to_buf_runs order 0 info ptr size is_string v fits true e
          ∙ store_outside (flush_buf 0 info).1 ptr size far order is_string s,
    )
