-- ===== src/FileFormat/Saved.antt =====
-- The bytes of the file that save_file of ffp_file.c writes.
use ffprinter.Prelude.{
  ℕ, ◌^◌, ◌<◌, ◌≤◌, ◌≡◌, refl, ap, ◌∙◌, false, List, ◌++◌, arith, length, take, drop, take-append,
  drop-append, take-of_ge, drop-of_ge,
}
use mathlib.Core.List.{append_assoc, append-nil}
use ffprinter.FileBuffer.{HostOrder, BufferInfo, flush_buf}
use ffprinter.FileBuffer.Read.{in_memory, Supported}
use ffprinter.FileBuffer.Write.{written, flush_buf-Flushed}
use ffprinter.FileBuffer.Stream.{new_file, in_memory_twice, length-in_memory}
use ffprinter.FileBuffer.Position.{flush_buf-Positioned}
use ffprinter.FileFormat.{
  Outcome, goes_on, File, ◌>>=◌, ◌>>◌, continue, big_endian_bytes, written_to, write_number,
}
use ffprinter.FileFormat.Number.{length-big_endian_bytes}
use ffprinter.FileFormat.Codec.{CanWrite, Writes}
use ffprinter.FileFormat.Bytes.{write_number-Writes, write_string-Writes}
use ffprinter.FileFormat.Records.{Database}
use ffprinter.FileFormat.Save.{
  preamble, version, for_each, write_entry, flush, buf_seek_set, save_file,
}
use ffprinter.FileFormat.Seek.{number_over}

pub step :
    {A B : Type 0} (m : File A) (k : A → File B) {info next : BufferInfo} {a : A} {o : Outcome B}
    → m info ≡ goes_on a next
    → k a next ≡ o
    → (m >>= k) info ≡ o
unfolding ◌>>=◌
step m k run more = ap (λ o. continue o k) run ∙ more

pub then_step :
    {A B : Type 0} (m : File A) (k : File B) {info next : BufferInfo} {a : A} {o : Outcome B}
    → m info ≡ goes_on a next
    → k next ≡ o
    → (m >> k) info ≡ o
unfolding ◌>>◌
then_step m k run more = ap (λ o. continue o (λ _. k)) run ∙ more

-- The part in front of the number of the entries.
abbrev head_bytes : Database → List ℕ
head_bytes db = (preamble ++ version) ++ big_endian_bytes 8 db.branch_num

-- The file, where `bytes` are those of the entries.
abbrev pub file_bytes : Database → List ℕ → List ℕ
file_bytes db bytes =
    head_bytes db ++ (big_endian_bytes 8 (length db.entries) ++ (bytes ++ preamble))

-- What stands at a place is written over.
written_over :
    (head old new rest : List ℕ) (size : ℕ)
    → length old ≡ size
    → (take (length head) (head ++ (old ++ rest)) ++ new)
        ++ drop size (drop (length head) (head ++ (old ++ rest)))
      ≡ head ++ (new ++ rest)
written_over head old new rest size l =
    let a : take (length head) (head ++ (old ++ rest)) ≡ head =
      take-append (length head) head (old ++ rest) (omega arith)
      ∙ take-of_ge (length head) head (omega arith) in
    let b : drop (length head) (head ++ (old ++ rest)) ≡ old ++ rest =
      drop-append (length head) head (old ++ rest) (omega arith)
      ∙ ap (λ z. z ++ (old ++ rest)) (drop-of_ge (length head) head (omega arith)) in
    let c : drop size (old ++ rest) ≡ rest =
      drop-append size old rest (omega arith)
      ∙ ap (λ z. z ++ rest) (drop-of_ge size old (omega arith)) in
    rw (a, b, c) (append_assoc head new rest)

module _ (order : HostOrder) (io n : ℕ) (enough : n ≤ io) (s : Supported order false)
    (room : 260 ≤ n) where
  pub flushed :
      (info : BufferInfo)
      → CanWrite n info
      → CanWrite n (flush_buf io info).1
        × ((flush_buf io info).1.before ≡ written info)
        × (written (flush_buf io info).1 ≡ written info)
        × ((flush_buf io info).1.buffer_pos ≡ 0)
  flushed info c =
      let q = c.room in
      let f = (flush_buf-Flushed io info c.writable (omega arith)).1 in
      let z = f.empty in
      let new = (flush_buf io info).1 in
      (
        record {
          writable = f.kept;
          placed = flush_buf-Positioned io info c.writable (omega arith) c.placed;
          room = f.same ∙ q;
        },
        f.moved,
        ap (λ k. new.before ++ take k new.buf) z ∙ append-nil new.before ∙ f.moved,
        z,
      )

  -- buf_seek and the number behind it.
  finish :
      (info : BufferInfo) (offset count : ℕ) (head old rest : List ℕ)
      → CanWrite n info
      → written info ≡ head ++ (old ++ rest)
      → length old ≡ 8
      → offset ≡ length head
      → (last : BufferInfo) × ((buf_seek_set order io offset
              >> (write_number order io 8 count >> flush order io))
            info
          ≡ goes_on tt last)
        × (last.before ++ last.after ≡ head ++ (big_endian_bytes 8 count ++ rest))
  unfolding flush buf_seek_set write_number
  finish info offset count head old rest c e l p =
      let big = big_endian_bytes 8 count in
      let mem = in_memory order false big in
      let m = length-in_memory order false big ∙ length-big_endian_bytes 8 count in
      let f = (flush_buf io info).1 in
      let (d, moved, same, empty) = flushed info c in
      let q = d.room in
      let w = d.writable in
      let whole : f.before ++ f.after ≡ head ++ (old ++ rest) =
        ap (λ z. f.before ++ z) w.at_end ∙ append-nil f.before ∙ moved ∙ e in
      let place = record f {
        before = take offset (f.before ++ f.after);
        after = drop offset (f.before ++ f.after);
        file_pos = offset;
      } in
      let (next, run, before, after) =
        number_over order io place mem 8
          (record { sized = w.sized; small = w.small; below = w.below; at_end = refl }) empty
          (omega arith) m
          (ap length (in_memory_twice order false big) ∙ length-big_endian_bytes 8 count)
          (omega arith) s in
      let back : in_memory order false mem ≡ big = in_memory_twice order false big in
      (
        (flush_buf io next).1,
        then_step _ _ refl (then_step _ _ (ap written_to run) refl),
        rw (before, after, back, whole, p) (written_over head old big rest 8 l),
      )

  pub new_file-CanWrite :
      (buffer backup : List ℕ)
      → length buffer ≡ n
      → n < 2 ^ 16
      → CanWrite n (new_file buffer backup)
  new_file-CanWrite buffer backup l small = record {
    writable = record { sized = refl; small = omega arith; below = omega arith; at_end = refl };
    placed = refl;
    room = l;
  }

  pub save_file_lem :
      (db : Database) (bytes buffer backup : List ℕ)
      → length buffer ≡ n
      → n < 2 ^ 16
      → Writes n (for_each (write_entry order io) db.entries) bytes
      → (last : BufferInfo) × (save_file order io db (new_file buffer backup) ≡ goes_on tt last)
        × (last.before ++ last.after ≡ file_bytes db bytes)
  unfolding save_file flush
  save_file_lem db bytes buffer backup l small entries =
      let start = new_file-CanWrite buffer backup l small in
      let num = big_endian_bytes 8 db.branch_num in
      let dummy = big_endian_bytes 8 0 in
      let (a, run_a, c_a, e_a) =
        write_string-Writes order io n enough preamble (omega arith) (new_file buffer backup)
          start in
      let (b, run_b, c_b, e_b) =
        write_string-Writes order io n enough version (omega arith) a c_a in
      let (c, run_c, c_c, e_c) =
        write_number-Writes order io n enough 8 db.branch_num (omega arith) s b c_b in
      let (c_d, moved, same, empty) = flushed c c_c in
      let d = (flush_buf io c).1 in
      let (f, run_f, c_f, e_f) = write_number-Writes order io n enough 8 0 (omega arith) s d c_d in
      let (g, run_g, c_g, e_g) = entries f c_f in
      let (h, run_h, c_h, e_h) =
        write_string-Writes order io n enough preamble (omega arith) g c_g in
      let head : written c ≡ head_bytes db =
        e_c ∙ ap (λ z. z ++ num) (e_b ∙ ap (λ z. z ++ version) e_a) in
      let all : written h ≡ head_bytes db ++ (dummy ++ (bytes ++ preamble)) =
        e_h
        ∙ ap (λ z. z ++ preamble)
            (e_g ∙ ap (λ z. z ++ bytes) (e_f ∙ ap (λ z. z ++ dummy) (same ∙ head)))
        ∙ append_assoc ((head_bytes db ++ dummy)) bytes preamble
        ∙ append_assoc (head_bytes db) dummy (bytes ++ preamble) in
      let (last, run, e) =
        finish h d.file_pos (length db.entries) (head_bytes db) dummy (bytes ++ preamble) c_h all
          (length-big_endian_bytes 8 0) (c_d.placed ∙ ap length (moved ∙ head)) in
      (
        last,
        then_step _ _ run_a (
            then_step _ _ run_b (
              then_step _ _ run_c (
                then_step _ _ refl (
                  step _ _ refl
                    (then_step _ _ run_f (then_step _ _ run_g (then_step _ _ run_h run))))))),
        e,
      )
