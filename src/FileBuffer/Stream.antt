-- ===== src/FileBuffer/Stream.antt =====
-- Sequences of fields through the buffered reads and writes of ffp_file.c, as load_file and
-- save_file make them: what is written is read back.
use ffprinter.Prelude.{
  ℕ, ◌-◌, ◌^◌, ◌≤◌, ◌<◌, ◌≡◌, refl, ap, ◌∙◌, sym, Bool, true, false, Option, none, some, List, [],
  ◌∷◌, ◌++◌, arith, ◌==◌, length, take, drop, replicate, length-replicate, All, length-append,
  length-reverse, take-append, drop-append, take-of_ge, drop-of_ge, success,
}
use mathlib.Core.List.{append_assoc, append-nil, map, reverse-reverse}
use mathlib.Core.Option
use ffprinter.FileBuffer.{HostOrder, BufferInfo, Read, copy_buf_to_ptr, copy_ptr_to_buf, flush_buf}
use ffprinter.FileBuffer.Read.{IsReadable, ahead, in_memory, Supported, Filled}
use ffprinter.FileBuffer.Refines.{copy_buf_to_ptr-Refines}
use ffprinter.FileBuffer.Write.{IsWritable, written, Adds, copy_ptr_to_buf-Adds, flush_buf-Flushed}

-- The bytes of a variable in memory, and whether it is a string.
pub record Field : Type 0 where
  pub bytes : List ℕ
  pub is_string : Bool

write_next : Option (ℕ × BufferInfo) → (BufferInfo → Option BufferInfo) → Option BufferInfo
write_next none more = none
write_next (some (code, info)) more = elim (code == success) [ true ↦ more info | false ↦ none ]

-- One call for each field, while they succeed.
unfoldable pub write_fields : HostOrder → ℕ → BufferInfo → List Field → Option BufferInfo
unfolding write_next
write_fields order io info [] = some info
write_fields order io info (f ∷ fs) =
    write_next (copy_ptr_to_buf order io info f.bytes (length f.bytes) f.is_string)
      (λ next. write_fields order io next fs)

read_next : Option Read → (BufferInfo → Option (List (List ℕ))) → Option (List (List ℕ))
read_next none more = none
read_next (some (code, info, mem)) more = elim (code == success) [
  | true ↦ Option.map (λ ms. mem ∷ ms) (more info)
  | false ↦ none
]

-- The variables are zero before.
unfoldable pub read_fields : HostOrder → ℕ → BufferInfo → List Field → Option (List (List ℕ))
unfolding read_next
read_fields order io info [] = some []
read_fields order io info (f ∷ fs) =
    read_next
      (copy_buf_to_ptr order io info (replicate (length f.bytes) 0) (length f.bytes) f.is_string)
      (λ next. read_fields order io next fs)

write_next_lem :
    (o : Option (ℕ × BufferInfo)) (info : BufferInfo) (more : BufferInfo → Option BufferInfo)
    → o ≡ some (success, info)
    → write_next o more ≡ more info
unfolding write_next
write_next_lem o info more e = ap (λ z. write_next z more) e

read_next_lem :
    (o : Option Read) (r : Read) (bytes : List ℕ) (ms : List (List ℕ))
    (more : BufferInfo → Option (List (List ℕ)))
    → o ≡ some r
    → r.0 ≡ success
    → r.2 ≡ bytes
    → more r.1 ≡ some ms
    → read_next o more ≡ some (bytes ∷ ms)
unfolding read_next
read_next_lem o (code, info, mem) bytes ms more is e f g = rw (is, read_next, e, f, g)

-- A new file, and an old one, with the buffers of load_file and save_file.
abbrev pub new_file : List ℕ → List ℕ → BufferInfo
new_file buffer backup = record {
  before = [];
  after = [];
  file_size = 0;
  file_pos = 0;
  buf = buffer;
  buf_backup = backup;
  buffer_pos = 0;
  buffer_size = length buffer;
  buffer_eol = false;
  buffer_alt_size = 0;
}

abbrev pub old_file : List ℕ → List ℕ → List ℕ → BufferInfo
old_file contents buffer backup = record (new_file buffer backup) {
  after = contents;
  file_size = length contents;
  buffer_pos = length buffer;
}

abbrev pub Fits : HostOrder → ℕ → Field → Type 0
Fits order n f =
    (length f.bytes ≤ n) × Supported order f.is_string × Filled f.is_string (length f.bytes)

-- The bytes of the fields in the file.
abbrev pub encode : HostOrder → List Field → List ℕ
encode order [] = []
encode order (f ∷ fs) = in_memory order f.is_string f.bytes ++ encode order fs

pub in_memory_twice :
    (order : HostOrder) (b : Bool) (xs : List ℕ) → in_memory order b (in_memory order b xs) ≡ xs
in_memory_twice order true xs = refl
in_memory_twice HostOrder.little_endian false xs = reverse-reverse xs
in_memory_twice HostOrder.big_endian false xs = refl
in_memory_twice HostOrder.other_endian false xs = refl

pub length-in_memory :
    (order : HostOrder) (b : Bool) (xs : List ℕ) → length (in_memory order b xs) ≡ length xs
length-in_memory order true xs = refl
length-in_memory HostOrder.little_endian false xs = length-reverse xs
length-in_memory HostOrder.big_endian false xs = refl
length-in_memory HostOrder.other_endian false xs = refl

write_fields-Adds :
    (order : HostOrder) (io : ℕ) (info : BufferInfo) (fs : List Field)
    → IsWritable info
    → info.buffer_size ≤ io
    → All (Fits order info.buffer_size) fs
    → (w : BufferInfo) × (write_fields order io info fs ≡ some w) × Adds info (encode order fs) w
unfolding write_fields
write_fields-Adds order io info [] v e h =
    (info, refl, record { added = sym (append-nil (written info)); kept = v; same = refl })
write_fields-Adds order io info (f ∷ fs) v e h =
    let (next, runs, a) =
      copy_ptr_to_buf-Adds order io info f.bytes (length f.bytes) f.is_string v e refl h.0.0 h.0.1
        h.0.2 in
    let q = a.same in
    let (w, more, b) = write_fields-Adds order io next fs a.kept (omega arith) (rw q h.1) in
    (
      w,
      write_next_lem (copy_ptr_to_buf order io info f.bytes (length f.bytes) f.is_string) next
            (λ i. write_fields order io i fs) runs
          ∙ more,
      record {
        added =
            b.added
            ∙ ap (λ z. z ++ encode order fs) a.added
            ∙ append_assoc (written info) (in_memory order f.is_string f.bytes) (encode order fs);
        kept = b.kept;
        same = b.same ∙ q;
      },
    )

read_fields_lem :
    (order : HostOrder) (io : ℕ) (info : BufferInfo) (fs : List Field) (rest : List ℕ) (n : ℕ)
    → IsReadable info
    → n ≤ io
    → info.buffer_size ≡ n
    → All (Fits order n) fs
    → ahead info ≡ encode order fs ++ rest
    → read_fields order io info fs ≡ some (map Field.bytes fs)
unfolding read_fields
read_fields_lem order io info [] rest n v e q h a = refl
read_fields_lem order io info (f ∷ fs) rest n v e q h a =
    let len = length f.bytes in
    let bytes = in_memory order f.is_string f.bytes in
    let l = length-in_memory order f.is_string f.bytes in
    let a' : ahead info ≡ bytes ++ (encode order fs ++ rest) =
      a ∙ append_assoc bytes (encode order fs) rest in
    let more : len ≤ length (ahead info) =
      rw a' (omega (arith, length-append bytes (encode order fs ++ rest))) in
    let o = copy_buf_to_ptr order io info (replicate len 0) len f.is_string in
    let ref =
      copy_buf_to_ptr-Refines order io info (replicate len 0) len f.is_string v (omega arith)
        (length-replicate len 0) (let c = h.0.0 in omega arith) h.0.1 h.0.2 in
    let r = ref.result in
    let g = ref.enough more in
    let took : take len (ahead info) ≡ bytes =
      ap (take len) a'
      ∙ take-append len bytes (encode order fs ++ rest) (omega arith)
      ∙ take-of_ge len bytes (omega arith) in
    let left : drop len (ahead info) ≡ encode order fs ++ rest =
      ap (drop len) a'
      ∙ drop-append len bytes (encode order fs ++ rest) (omega arith)
      ∙ ap (λ z. z ++ (encode order fs ++ rest)) (drop-of_ge len bytes (omega arith)) in
    let got : r.2 ≡ f.bytes =
      g.bytes ∙ ap (in_memory order f.is_string) took ∙ in_memory_twice order f.is_string f.bytes in
    read_next_lem o r f.bytes (map Field.bytes fs) (λ i. read_fields order io i fs) ref.runs g.code
      got (read_fields_lem order io r.1 fs rest n g.kept e (g.same ∙ q) h.1 (g.rest ∙ left))

-- Fields that have a byte or are strings, no longer than the buffer, that copy_ptr_to_buf writes to a new file, in a row and with a
-- flush behind them, are read back from this file by copy_buf_to_ptr, each as it was, on any host
-- order that the code supports and for any contents of the two buffers before.
pub read_fields-write_fields :
    (order : HostOrder) (io : ℕ) (buffer backup buffer' backup' : List ℕ) (fs : List Field)
    → length buffer ≤ io
    → length buffer < 2 ^ 16
    → length buffer' ≡ length buffer
    → length backup' ≡ length buffer
    → All (Fits order (length buffer)) fs
    → (w : BufferInfo) × (write_fields order io (new_file buffer backup) fs ≡ some w)
      × (read_fields order io (old_file (flush_buf io w).1.before buffer' backup') fs
          ≡ some (map Field.bytes fs))
read_fields-write_fields order io buffer backup buffer' backup' fs e small l l' h =
    let start : IsWritable (new_file buffer backup) = record {
      sized = refl;
      small = small;
      below = omega arith;
      at_end = refl;
    } in
    let (w, runs, a) = write_fields-Adds order io (new_file buffer backup) fs start e h in
    let q = a.same in
    let (_, f) = flush_buf-Flushed io w a.kept (omega arith) in
    let contents = (flush_buf io w).1.before in
    let is : contents ≡ encode order fs = f.moved ∙ a.added in
    let reader = old_file contents buffer' backup' in
    let v : IsReadable reader = record {
      sized = refl;
      backed = l' ∙ sym l;
      small = omega arith;
      below = omega arith;
      within = omega arith;
      counted = omega arith;
      ended = λ x. absurd (cc);
    } in
    let z : length buffer' - length buffer' ≡ 0 = omega arith in
    let all : ahead reader ≡ encode order fs ++ [] =
      ap (λ n. take n (drop (length buffer') buffer') ++ contents) z
      ∙ is
      ∙ sym (append-nil (encode order fs)) in
    (w, runs, read_fields_lem order io reader fs [] (length buffer) v e l h all)
