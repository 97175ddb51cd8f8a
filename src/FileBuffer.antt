-- ===== src/FileBuffer.antt =====
-- The buffered reads and writes of ffp_file.c: init_buffer_info, memcpy_forward, memcpy_reverse,
-- copy_buf_to_ptr, copy_ptr_to_buf and flush_buf.
-- A buffer is the list of its cells. fread and fwrite get as argument how many bytes the device
-- can move in this call; fewer than asked for is an error of the device or the end of the file.
pub mod Copy
pub mod Read
pub mod Refill
pub mod Across
pub mod Refines
pub mod Write
pub mod Stream
pub mod Position
use ffprinter.Prelude.{
  ℕ, zero, suc, ◌+◌, ◌-◌, ◌%◌, ◌^◌, Bool, true, false, not, ◌&&◌, Option, none, some, List, [], ◌∷◌,
  ◌++◌, ltb, leb, ◌==◌, if◌then◌else◌, length, take, drop, set, success, buffer_no_space,
  endian_no_support, file_end, file_end_too_soon, fread_error, fwrite_error, wrong_args,
}
use mathlib.Core.Option
use Prim.Native.Nat.{min}

-- O32_HOST_ORDER.
pub data HostOrder : Type 0 where
  little_endian big_endian other_endian : HostOrder

-- `before` and `after` are the bytes of the file on both sides of the position of `fp`.
pub record BufferInfo : Type 0 where
  pub before : List ℕ
  pub after : List ℕ
  pub file_size : ℕ
  pub file_pos : ℕ
  pub buf : List ℕ
  pub buf_backup : List ℕ
  pub buffer_pos : ℕ
  pub buffer_size : ℕ
  pub buffer_eol : Bool
  pub buffer_alt_size : ℕ

abbrev pub buf_read : ℕ
buf_read = 1

abbrev pub buf_write : ℕ
buf_write = 2

-- `none` stands for the struct left as it was.
unfoldable pub init_buffer_info : List ℕ → List ℕ → ℕ → ℕ → ℕ × Option BufferInfo
init_buffer_info buffer buffer_backup size mode =
    if not (mode == buf_read) && not (mode == buf_write) then (wrong_args, none) else (
      success,
      some (record {
        before = [];
        after = [];
        file_size = 0;
        file_pos = 0;
        buf = buffer;
        buf_backup = buffer_backup;
        buffer_pos = if mode == buf_read then size else 0;
        buffer_size = size;
        buffer_eol = false;
        buffer_alt_size = 0;
      }),
    )

-- The cells of `dst` from `k` on, and `size` rounds.
unfoldable pub memcpy_forward : List ℕ → ℕ → List ℕ → ℕ → List ℕ
memcpy_forward dst k src zero = dst
memcpy_forward dst k [] (suc size) = dst
memcpy_forward dst k (c ∷ src) (suc size) = memcpy_forward (set dst k c) (suc k) src size

-- The rounds of memcpy_reverse: the last of the `size` cells of `dst` from `k` on is written first.
unfoldable pub copy_back : List ℕ → ℕ → List ℕ → ℕ → List ℕ
copy_back dst k src zero = dst
copy_back dst k [] (suc size) = dst
copy_back dst k (c ∷ src) (suc size) = copy_back (set dst (k + size) c) k src size

-- `dst += size - 1` is 2 ^ 32 - 1 cells behind `dst` where `size` is 0, and the loop starts there:
-- `none` stands for that.
unfoldable pub memcpy_reverse : List ℕ → ℕ → List ℕ → ℕ → Option (List ℕ)
unfolding copy_back
memcpy_reverse dst k src size = if size == 0 then none else some (copy_back dst k src size)

-- `a - b` on unsigned int.
abbrev pub sub_32 : ℕ → ℕ → ℕ
sub_32 a b = (a + 2 ^ 32 - b) % 2 ^ 32

-- The space that is filled.
abbrev pub filled : BufferInfo → ℕ
filled info =
    if not info.buffer_eol
    then sub_32 info.buffer_size info.buffer_pos
    else sub_32 info.buffer_alt_size info.buffer_pos

abbrev pub advance : BufferInfo → ℕ → BufferInfo
advance info n = record info { buffer_pos = (info.buffer_pos + n) % 2 ^ 16 }

-- What a read returns: the code, the struct, and the memory behind `in_ptr`.
abbrev pub Read : Type 0
Read = ℕ × BufferInfo × List ℕ

-- The bytes asked for are in the buffer. `none` is that of memcpy_reverse.
unfoldable pub read_whole : HostOrder → BufferInfo → List ℕ → ℕ → Bool → Option Read
unfolding memcpy_forward memcpy_reverse
read_whole order info ptr size is_string =
    let src = drop info.buffer_pos info.buf in
    if is_string
    then some (success, advance info size, memcpy_forward ptr 0 src size)
    else elim order [
      | little_endian ↦
          Option.map (λ out. (success, advance info size, out)) (memcpy_reverse ptr 0 src size)
      | big_endian ↦ some (success, advance info size, memcpy_forward ptr 0 src size)
      | other_endian ↦ some (endian_no_support, info, ptr)
    ]

-- `fread` into the buffer, which then is read from its first cell on.
unfoldable pub refill : ℕ → BufferInfo → ℕ × BufferInfo
refill io info =
    let bytes = take (min io info.buffer_size) info.after in
    (
      length bytes,
      record info {
        before = info.before ++ bytes;
        after = drop (length bytes) info.after;
        buf = bytes ++ drop (length bytes) info.buf;
        file_pos = info.file_pos + length bytes;
        buffer_pos = 0;
      },
    )

-- Behind the refill: the other bytes, of which the first ones stand in `ptr`.
unfoldable pub finish_forward : ℕ × BufferInfo → List ℕ → ℕ → ℕ → Read
unfolding memcpy_forward
finish_forward (bytes_read, info) ptr space size =
    let rest = size - space in
    let whole : Read = (success, advance info rest, memcpy_forward ptr space info.buf rest) in
    if not (ltb bytes_read info.buffer_size)
    then whole
    else if not (info.file_pos == info.file_size)
    then (fread_error, info, ptr)
    else let ended = record info { buffer_eol = true; buffer_alt_size = bytes_read } in
      if ltb bytes_read rest
      then (file_end_too_soon, ended, ptr)
      else (success, advance ended rest, memcpy_forward ptr space info.buf rest)

-- The same with the first bytes in `buf_backup`, which is then copied backwards. Here `size` is
-- above `space`, so memcpy_reverse is its loop.
unfoldable pub finish_reverse : ℕ × BufferInfo → List ℕ → ℕ → ℕ → Read
unfolding memcpy_forward copy_back
finish_reverse (bytes_read, info) ptr space size =
    let rest = size - space in
    let backup = memcpy_forward info.buf_backup space info.buf rest in
    let joined = copy_back ptr 0 backup size in
    if not (ltb bytes_read info.buffer_size)
    then (success, advance (record info { buf_backup = backup }) rest, joined)
    else if not (info.file_pos == info.file_size)
    then (fread_error, info, ptr)
    else let ended = record info { buffer_eol = true; buffer_alt_size = bytes_read } in
      if ltb bytes_read rest
      then (file_end_too_soon, ended, ptr)
      else (success, advance (record ended { buf_backup = backup }) rest, joined)

-- The bytes asked for reach behind the buffer, of which `space` are left.
unfoldable pub read_across : HostOrder → ℕ → BufferInfo → List ℕ → ℕ → ℕ → Bool → Read
unfolding refill finish_forward finish_reverse memcpy_forward
read_across order io info ptr space size is_string =
    let src = drop info.buffer_pos info.buf in
    if is_string
    then finish_forward (refill io info) (memcpy_forward ptr 0 src space) space size
    else elim order [
      | little_endian ↦
          finish_reverse
            (refill io (record info { buf_backup = memcpy_forward info.buf_backup 0 src space }))
            ptr space size
      | big_endian ↦ finish_forward (refill io info) (memcpy_forward ptr 0 src space) space size
      | other_endian ↦ (endian_no_support, info, ptr)
    ]

unfoldable pub copy_buf_to_ptr : HostOrder → ℕ → BufferInfo → List ℕ → ℕ → Bool → Option Read
unfolding read_whole read_across
copy_buf_to_ptr order io info ptr size is_string =
    if ltb info.buffer_size size
    then some (buffer_no_space, info, ptr)
    else if leb size (filled info)
    then read_whole order info ptr size is_string
    else if info.buffer_eol
    then some (file_end, info, ptr)
    else some (read_across order io info ptr (filled info) size is_string)

unfoldable pub flush_buf : ℕ → BufferInfo → ℕ × BufferInfo
flush_buf io info =
    let bytes = take (min io info.buffer_pos) info.buf in
    let written = record info {
      before = info.before ++ bytes;
      after = drop (length bytes) info.after;
    } in
    if not (ltb 0 info.buffer_pos)
    then (success, info)
    else if ltb (length bytes) info.buffer_pos
    then (fwrite_error, written)
    else (
      success,
      record written {
        file_size =
            if info.file_pos == info.file_size
            then info.file_size + info.buffer_pos
            else info.file_size;
        file_pos = info.file_pos + info.buffer_pos;
        buffer_pos = 0;
      },
    )

-- Behind the flush, whose result is not looked at. `none` stands for a write behind the buffer, that of
-- memcpy_reverse included.
unfoldable pub store_bytes : HostOrder → BufferInfo → List ℕ → ℕ → Bool → Option (ℕ × BufferInfo)
unfolding memcpy_forward memcpy_reverse
store_bytes order info ptr size is_string =
    let forward = record info { buf = memcpy_forward info.buf info.buffer_pos ptr size } in
    let reverse =
      Option.map (λ out. (success, advance (record info { buf = out }) size))
        (memcpy_reverse info.buf info.buffer_pos ptr size) in
    let outside = ltb (length info.buf) (info.buffer_pos + size) in
    if is_string
    then if outside then none else some (success, advance forward size)
    else elim order [
      | little_endian ↦ if outside then none else reverse
      | big_endian ↦ if outside then none else some (success, advance forward size)
      | other_endian ↦ some (endian_no_support, info)
    ]

unfoldable pub copy_ptr_to_buf :
    HostOrder → ℕ → BufferInfo → List ℕ → ℕ → Bool → Option (ℕ × BufferInfo)
copy_ptr_to_buf order io info ptr size is_string =
    if ltb info.buffer_size size
    then some (buffer_no_space, info)
    else store_bytes order
        (if ltb (sub_32 info.buffer_size info.buffer_pos) size then (flush_buf io info).1 else info)
        ptr size is_string
