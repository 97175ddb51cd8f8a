-- ===== src/FileBuffer/Refines.antt =====
-- copy_buf_to_ptr of ffp_file.c as a read of the bytes that are ahead.
use ffprinter.Prelude.{
  ℕ, ◌+◌, ◌-◌, ◌≤◌, ◌<◌, ◌≡◌, ◌⊎◌, inl, inr, refl, ap, ◌∙◌, sym, Bool, true, false, List, arith,
  ltb, leb, if◌then◌else◌, length, take, drop, Bool-cases, length-append, length-take, file_end,
  file_end_too_soon, Option, some,
}
use mathlib.Core.List.{reverse}
use ffprinter.FileBuffer.{
  HostOrder, BufferInfo, Read, filled, finish_forward, finish_reverse, read_across, refill,
  memcpy_forward, read_whole, copy_buf_to_ptr,
}
use ffprinter.FileBuffer.Copy.{length-memcpy_forward}
use ffprinter.FileBuffer.Read.{
  IsReadable, ahead, limit, Supported, Filled, Gives, filled_lem, length-window, reverse_all,
  read_whole-Gives,
}
use ffprinter.FileBuffer.Refill.{
  chunk, refilled, refill_lem, chunk-le-after, le-chunk, final-IsReadable, final-ahead,
}
use ffprinter.FileBuffer.Across.{
  finish_forward_full, finish_reverse_full, finish_short, filled-window, drop-ahead_far,
  both_copies, forward_far, window, left,
}

module _ (info : BufferInfo) (v : IsReadable info) (live : info.buffer_eol ≡ false)
    (order : HostOrder) (io : ℕ) (ptr : List ℕ) (size : ℕ) (enough : info.buffer_size ≤ io)
    (l : length ptr ≡ size) (far : filled info < size) (fits : size ≤ info.buffer_size) where
  abbrev space : ℕ
  space = length (window info v live order io ptr size enough l far fits)

  abbrev more : ℕ
  more = left info v live order io ptr size enough l far fits

  abbrev bytes : List ℕ
  bytes = window info v live order io ptr size enough l far fits

  forward_Gives :
      more ≤ length (chunk info)
      → Gives order true info size
          (finish_forward (refill io info) (memcpy_forward ptr 0 bytes space) space size)
  forward_Gives g =
      let (eol, alt, h, e) =
        finish_forward_full info v live (memcpy_forward ptr 0 bytes space) space size g in
      rw (refill_lem io info enough, e)
        (record {
          code = refl;
          bytes = forward_far info v live order io ptr size enough l far fits g;
          rest =
              final-ahead info v more g eol alt h.ends h.done
              ∙ sym (drop-ahead_far info v live order io ptr size enough l far fits);
          kept = final-IsReadable info v more g eol alt h.ends h.done;
          same = refl;
        })

  abbrev first_half : BufferInfo
  first_half = record info { buf_backup = memcpy_forward info.buf_backup 0 bytes space }

  first_half-IsReadable : IsReadable first_half
  first_half-IsReadable = record {
    sized = v.sized;
    backed = length-memcpy_forward info.buf_backup 0 bytes space ∙ v.backed;
    small = v.small;
    below = v.below;
    within = v.within;
    counted = v.counted;
    ended = v.ended;
  }

  abbrev backup : List ℕ
  backup = memcpy_forward first_half.buf_backup space (refilled first_half).buf more

  abbrev both_halves : BufferInfo
  both_halves = record first_half { buf_backup = backup }

  both_halves-IsReadable : IsReadable both_halves
  both_halves-IsReadable =
      let w = first_half-IsReadable in
      record {
        sized = w.sized;
        backed =
            length-memcpy_forward first_half.buf_backup space (refilled first_half).buf more
            ∙ w.backed;
        small = w.small;
        below = w.below;
        within = w.within;
        counted = w.counted;
        ended = w.ended;
      }

  reverse_Gives :
      more ≤ length (chunk info)
      → Gives HostOrder.little_endian false info size
          (finish_reverse (refill io first_half) ptr space size)
  reverse_Gives g =
      let (eol, alt, h, e) =
        finish_reverse_full first_half first_half-IsReadable live ptr space size g in
      let w = both_halves-IsReadable in
      rw (refill_lem io first_half enough, e)
        (record {
          code = refl;
          bytes =
              reverse_all ptr backup size l (let a = w.backed in omega arith)
              ∙ ap reverse (
                  both_copies info v live order io ptr size enough l far fits info.buf_backup
                    (let a = v.backed in omega arith) g);
          rest =
              final-ahead both_halves w more g eol alt h.ends h.done
              ∙ sym (drop-ahead_far info v live order io ptr size enough l far fits);
          kept = final-IsReadable both_halves w more g eol alt h.ends h.done;
          same = refl;
        })

  as_big : (r : Read) → Gives order true info size r → Gives HostOrder.big_endian false info size r
  as_big r h = record {
    code = h.code;
    bytes = h.bytes;
    rest = h.rest;
    kept = h.kept;
    same = h.same;
  }

  read_across-Gives :
      (is_string : Bool) (o : HostOrder)
      → Supported o is_string
      → more ≤ length (chunk info)
      → Gives o is_string info size (read_across o io info ptr space size is_string)
  unfolding read_across
  read_across-Gives true o s g =
      let h = forward_Gives g in
      record { code = h.code; bytes = h.bytes; rest = h.rest; kept = h.kept; same = h.same }
  read_across-Gives false HostOrder.little_endian s g = reverse_Gives g
  read_across-Gives false HostOrder.big_endian s g =
      as_big (finish_forward (refill io info) (memcpy_forward ptr 0 bytes space) space size)
        (forward_Gives g)
  read_across-Gives false HostOrder.other_endian s g = absurd s

  read_across_short :
      (is_string : Bool) (o : HostOrder)
      → Supported o is_string
      → length (chunk info) < more
      → length (chunk info) < info.buffer_size
      → (read_across o io info ptr space size is_string).0 ≡ file_end_too_soon
  unfolding read_across
  read_across_short true o s g h =
      ap (λ r. (finish_forward r (memcpy_forward ptr 0 bytes space) space size).0)
        (refill_lem io info enough)
      ∙ (finish_short info v live (memcpy_forward ptr 0 bytes space) space size g h).0
  read_across_short false HostOrder.little_endian s g h =
      ap (λ r. (finish_reverse r ptr space size).0) (refill_lem io first_half enough)
      ∙ (finish_short first_half first_half-IsReadable live ptr space size g h).1
  read_across_short false HostOrder.big_endian s g h =
      ap (λ r. (finish_forward r (memcpy_forward ptr 0 bytes space) space size).0)
        (refill_lem io info enough)
      ∙ (finish_short info v live (memcpy_forward ptr 0 bytes space) space size g h).0
  read_across_short false HostOrder.other_endian s g h = absurd s

-- What a read of `size` bytes does to the bytes ahead: it gives them, or says that they are too few.
pub record Refines (order : HostOrder) (is_string : Bool) (info : BufferInfo) (size : ℕ)
    (o : Option Read) : Type 0 where
  pub result : Read
  pub runs : o ≡ some result
  pub enough : size ≤ length (ahead info) → Gives order is_string info size result
  pub short : length (ahead info) < size → (result.0 ≡ file_end) ⊎ (result.0 ≡ file_end_too_soon)

module _ (order : HostOrder) (io : ℕ) (info : BufferInfo) (ptr : List ℕ) (size : ℕ)
    (is_string : Bool) (v : IsReadable info) (enough : info.buffer_size ≤ io)
    (l : length ptr ≡ size) (fits : size ≤ info.buffer_size) (s : Supported order is_string)
    (full : Filled is_string size) where
  length-ahead : length (ahead info) ≡ limit info - info.buffer_pos + length info.after
  length-ahead =
      let w = drop info.buffer_pos info.buf in
      let a = length-window info v in
      let b = v.within in
      length-append (take (limit info - info.buffer_pos) w) info.after
      ∙ ap (λ n. n + length info.after) (length-take (limit info - info.buffer_pos) w (omega arith))

  near_Refines :
      size ≤ filled info
      → Refines order is_string info size (read_whole order info ptr size is_string)
  near_Refines h =
      let a = filled_lem info v in
      let b = length-ahead in
      let (r, runs, gives) =
        read_whole-Gives info v size (omega arith) order ptr is_string l s full in
      record { result = r; runs = runs; enough = λ _. gives; short = λ g. absurd (omega arith) }

  far_Refines :
      filled info < size
      → info.buffer_eol ≡ false
      → Refines order is_string info size
          (some (read_across order io info ptr (filled info) size is_string))
  far_Refines far live =
      let e = filled-window info v live order io ptr size enough l far fits in
      let a : limit info ≡ info.buffer_size = rw live in
      let b = length-ahead in
      let c = length-window info v in
      let d = chunk-le-after info v in
      rw e (record {
        result = _;
        runs = refl;
        enough = λ g.
            read_across-Gives info v live order io ptr size enough l far fits is_string order s (
              le-chunk info v (size - length (drop info.buffer_pos info.buf)) (omega arith)
                (omega arith));
        short = λ g. inr (
            read_across_short info v live order io ptr size enough l far fits is_string order s
              (omega arith) (omega arith));
      })

  ended_Refines :
      filled info < size
      → info.buffer_eol ≡ true
      → Refines order is_string info size (some (file_end, info, ptr))
  ended_Refines d e =
      let a = filled_lem info v in
      let b = length-ahead in
      let c = ap length (v.ended e) in
      record { result = _; runs = refl; enough = λ g. absurd (omega arith); short = λ g. inl refl }

  behind_Refines :
      filled info < size
      → (b : Bool) → info.buffer_eol ≡ b
      → Refines order is_string info size (
          if b
          then some (file_end, info, ptr)
          else some (read_across order io info ptr (filled info) size is_string))
  behind_Refines d true e = ended_Refines d e
  behind_Refines d false e = far_Refines d e

-- On a struct in the course of reading, with a device that gives all that the file has, and for a
-- field no longer than the buffer that has a byte or is a string, copy_buf_to_ptr gives exactly the next bytes of the file, in the
-- order in which the host keeps them, wherever the buffer ends, and leaves the bytes behind them to
-- be read; if the file has too few, it says so.
pub copy_buf_to_ptr-Refines :
    (order : HostOrder) (io : ℕ) (info : BufferInfo) (ptr : List ℕ) (size : ℕ) (is_string : Bool)
    → IsReadable info
    → info.buffer_size ≤ io
    → length ptr ≡ size
    → size ≤ info.buffer_size
    → Supported order is_string
    → Filled is_string size
    → Refines order is_string info size (copy_buf_to_ptr order io info ptr size is_string)
unfolding copy_buf_to_ptr
copy_buf_to_ptr-Refines order io info ptr size is_string v enough l fits s full =
    let ok : ltb info.buffer_size size ≡ false = ground arith in
    elim (Bool-cases (leb size (filled info))) [
      | inl e ↦
          rw (ok, e)
            (near_Refines order io info ptr size is_string v enough l fits s full (ground arith))
      | inr e ↦
          rw (ok, e)
            (behind_Refines order io info ptr size is_string v enough l fits s full (ground arith)
              info.buffer_eol refl)
    ]
