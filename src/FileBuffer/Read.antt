-- ===== src/FileBuffer/Read.antt =====
-- copy_buf_to_ptr of ffp_file.c reads the file through its buffer.
use ffprinter.Prelude.{
  ℕ, ◌+◌, ◌-◌, ◌%◌, ◌^◌, ◌≤◌, ◌<◌, ◌≡◌, refl, ap, ◌∙◌, sym, Bool, true, false, List, [], ◌++◌,
  arith, if◌then◌else◌, length, take, drop, length-take, length-drop, take-take, drop-drop,
  drop-take, take-append, drop-append, drop-of_ge, success, some,
}
use mathlib.Core.List.{reverse, append-nil}
use ffprinter.FileBuffer.{
  HostOrder, BufferInfo, Read, filled, advance, read_whole, memcpy_forward, copy_back,
}
use ffprinter.FileBuffer.Copy.{memcpy_forward_lem, copy_back_lem, memcpy_reverse_runs}

-- Where the bytes in the buffer end.
abbrev pub limit : BufferInfo → ℕ
limit info = if info.buffer_eol then info.buffer_alt_size else info.buffer_size

-- The bytes of the file that are still to be read.
abbrev pub ahead : BufferInfo → List ℕ
ahead info = take (limit info - info.buffer_pos) (drop info.buffer_pos info.buf) ++ info.after

-- The struct in the course of reading.
pub record IsReadable (info : BufferInfo) : Type 0 where
  pub sized : length info.buf ≡ info.buffer_size
  pub backed : length info.buf_backup ≡ info.buffer_size
  pub small : info.buffer_size < 2 ^ 16
  pub below : info.buffer_pos ≤ limit info
  pub within : limit info ≤ info.buffer_size
  pub counted : info.file_pos + length info.after ≡ info.file_size
  pub ended : info.buffer_eol ≡ true → info.after ≡ []

-- How the bytes of a field stand in memory: the file is big endian, and a string is never turned.
abbrev pub in_memory : HostOrder → Bool → List ℕ → List ℕ
in_memory order true bytes = bytes
in_memory HostOrder.little_endian false bytes = reverse bytes
in_memory HostOrder.big_endian false bytes = bytes
in_memory HostOrder.other_endian false bytes = bytes

abbrev pub Supported : HostOrder → Bool → Type 0
Supported order true = Unit
Supported HostOrder.little_endian false = Unit
Supported HostOrder.big_endian false = Unit
Supported HostOrder.other_endian false = ⊥

-- A field that is no string has a byte.
abbrev pub Filled : Bool → ℕ → Type 0
Filled true size = Unit
Filled false size = 0 < size

-- A read that gives the next `size` bytes.
pub record Gives (order : HostOrder) (is_string : Bool) (info : BufferInfo) (size : ℕ) (r : Read)
    : Type 0 where
  pub code : r.0 ≡ success
  pub bytes : r.2 ≡ in_memory order is_string (take size (ahead info))
  pub rest : ahead r.1 ≡ drop size (ahead info)
  pub kept : IsReadable r.1
  pub same : r.1.buffer_size ≡ info.buffer_size

pub forward_all :
    (ptr src : List ℕ) (size : ℕ)
    → length ptr ≡ size
    → size ≤ length src
    → memcpy_forward ptr 0 src size ≡ take size src
forward_all ptr src size h g =
    let e : 0 + size ≡ size = omega arith in
    rw (memcpy_forward_lem ptr 0 src size (omega arith) g, e, drop-of_ge size ptr (omega arith))
      (append-nil (take size src))

pub reverse_all :
    (ptr src : List ℕ) (size : ℕ)
    → length ptr ≡ size
    → size ≤ length src
    → copy_back ptr 0 src size ≡ reverse (take size src)
reverse_all ptr src size h g =
    let e : 0 + size ≡ size = omega arith in
    rw (copy_back_lem ptr 0 src size (omega arith) g, e, drop-of_ge size ptr (omega arith))
      (append-nil (reverse (take size src)))

module _ (info : BufferInfo) (v : IsReadable info) where
  pub filled_lem : filled info ≡ limit info - info.buffer_pos
  filled_lem = let a = v.small in let b = v.below in let c = v.within in ground arith

  pub length-window : length (drop info.buffer_pos info.buf) ≡ info.buffer_size - info.buffer_pos
  length-window = rw (length-drop info.buffer_pos info.buf, v.sized)

  module _ (size : ℕ) (fits : size ≤ limit info - info.buffer_pos) where
    here : size ≤ length (drop info.buffer_pos info.buf)
    here = let a = length-window in let b = v.within in omega arith

    take-ahead : take size (ahead info) ≡ take size (drop info.buffer_pos info.buf)
    take-ahead =
        let w = drop info.buffer_pos info.buf in
        let n = limit info - info.buffer_pos in
        let a = length-window in
        let b = v.within in
        let l = length-take n w (omega arith) in
        take-append size (take n w) info.after (omega arith) ∙ take-take size n w fits

    drop-ahead :
        drop size (ahead info)
        ≡ take (limit info - (info.buffer_pos + size)) (drop (info.buffer_pos + size) info.buf)
          ++ info.after
    drop-ahead =
        let w = drop info.buffer_pos info.buf in
        let k = limit info - (info.buffer_pos + size) in
        let a = length-window in
        let b = v.within in
        let l = length-take (limit info - info.buffer_pos) w (omega arith) in
        let e : limit info - info.buffer_pos ≡ size + k = omega arith in
        drop-append size (take (limit info - info.buffer_pos) w) info.after (omega arith)
        ∙ ap (λ zs. zs ++ info.after)
            (ap (λ n. drop size (take n w)) e
              ∙ drop-take size k w
              ∙ ap (take k) (drop-drop size info.buffer_pos info.buf))

    moved : (info.buffer_pos + size) % 2 ^ 16 ≡ info.buffer_pos + size
    moved = let a = v.small in let b = v.within in let c = v.below in omega arith

    advance-IsReadable : IsReadable (advance info size)
    advance-IsReadable = record {
      sized = v.sized;
      backed = v.backed;
      small = v.small;
      below = let a = moved in let b = v.below in omega arith;
      within = v.within;
      counted = v.counted;
      ended = v.ended;
    }

    advance-ahead : ahead (advance info size) ≡ drop size (ahead info)
    advance-ahead = rw (moved, drop-ahead)

    forward-Gives :
        (order : HostOrder) (is_string : Bool) (ptr : List ℕ)
        → length ptr ≡ size
        → ((xs : List ℕ) → xs ≡ in_memory order is_string xs)
        → Gives order is_string info size
            (success, advance info size, memcpy_forward ptr 0 (drop info.buffer_pos info.buf) size)
    forward-Gives order is_string ptr l plain = record {
      code = refl;
      bytes =
          forward_all ptr (drop info.buffer_pos info.buf) size l here
          ∙ sym take-ahead
          ∙ plain (take size (ahead info));
      rest = advance-ahead;
      kept = advance-IsReadable;
      same = refl;
    }

    pub read_whole-Gives :
        (order : HostOrder) (ptr : List ℕ) (is_string : Bool)
        → length ptr ≡ size
        → Supported order is_string
        → Filled is_string size
        → (r : Read) × (read_whole order info ptr size is_string ≡ some r)
          × Gives order is_string info size r
    unfolding read_whole
    read_whole-Gives order ptr true l s f = (_, refl, forward-Gives order true ptr l (λ _. refl))
    read_whole-Gives HostOrder.little_endian ptr false l s f = (
      (success, advance info size, copy_back ptr 0 (drop info.buffer_pos info.buf) size),
      rw (memcpy_reverse_runs ptr 0 (drop info.buffer_pos info.buf) size f),
      record {
        code = refl;
        bytes =
            reverse_all ptr (drop info.buffer_pos info.buf) size l here
            ∙ ap reverse (sym take-ahead);
        rest = advance-ahead;
        kept = advance-IsReadable;
        same = refl;
      },
    )
    read_whole-Gives HostOrder.big_endian ptr false l s f =
        (_, refl, forward-Gives HostOrder.big_endian false ptr l (λ _. refl))
    read_whole-Gives HostOrder.other_endian ptr false l s f = absurd s
