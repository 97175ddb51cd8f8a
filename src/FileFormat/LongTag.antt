-- ===== src/FileFormat/LongTag.antt =====
-- save_file of ffp_file.c on a tag string that is longer than the buffer.
use ffprinter.Prelude.{
  Option, ℕ, ◌^◌, ◌<◌, ◌≤◌, ◌≡◌, refl, ap, ◌∙◌, true, false, List, [], ◌∷◌, ◌++◌, arith, ltb,
  length, buffer_no_space,
}
use ffprinter.FileBuffer.{HostOrder, BufferInfo, copy_ptr_to_buf, flush_buf}
use ffprinter.FileBuffer.Read.{Supported}
use ffprinter.FileBuffer.Stream.{new_file}
use ffprinter.FileFormat.{Outcome, goes_on, ends, File, ◌>>◌, continue, write_number, write_string}
use ffprinter.FileFormat.Codec.{CanWrite, Writes}
use ffprinter.FileFormat.Bytes.{write_number-Writes, write_string-Writes}
use ffprinter.FileFormat.Records.{Time, Entry}
use ffprinter.FileFormat.Save.{
  preamble, version, field_presence_bitmap, for_each, write_text, write_entry, flush, save_file,
}
use ffprinter.FileFormat.Saved.{step, then_step, flushed, new_file-CanWrite}
use ffprinter.FileFormat.Many.{IsLoadable, entries-Codec}

-- The step ends the function with the code.
abbrev Fails : ℕ → File (Unit {0}) → ℕ → Type 0
Fails n w code = (info : BufferInfo) → CanWrite n info → w info ≡ ends code

Fails-first : (n : ℕ) (w v : File (Unit {0})) (code : ℕ) → Fails n w code → Fails n (w >> v) code
unfolding ◌>>◌
Fails-first n w v code f info can = ap (λ o. continue o (λ _. v)) (f info can)

Fails-then :
    (n : ℕ) (w v : File (Unit {0})) (xs : List ℕ) (code : ℕ)
    → Writes n w xs
    → Fails n v code
    → Fails n (w >> v) code
Fails-then n w v xs code f g info can =
    let (next, run, can', added) = f info can in then_step w v run (g next can')

-- What ends behind the first steps ends behind all of them.
ended_behind :
    (o : Outcome (Unit {0})) (k k' : File (Unit {0})) (next : BufferInfo) (code : ℕ)
    → continue o (λ _. k) ≡ goes_on tt next
    → ((info : BufferInfo) → k info ≡ goes_on tt next → k' info ≡ ends code)
    → continue o (λ _. k') ≡ ends code
ended_behind (goes_on tt info) k k' next code e h = h info e
ended_behind (ends c) k k' next code e h = absurd (cc)
ended_behind Outcome.fault k k' next code e h = absurd (cc)

for_each-ends :
    {A : Type 0} (w : A → File (Unit {0})) (xs : List A) (x : A) (rest : List A) (code : ℕ)
    (info next : BufferInfo)
    → for_each w xs info ≡ goes_on tt next
    → w x next ≡ ends code
    → for_each w (xs ++ x ∷ rest) info ≡ ends code
unfolding for_each ◌>>◌
for_each-ends w [] x rest code info next e f =
    let same : info ≡ next = cc in ap (λ o. continue o (λ _. for_each w rest)) (ap (w x) same ∙ f)
for_each-ends w (y ∷ xs) x rest code info next e f =
    ended_behind (w y info) (for_each w xs) (for_each w (xs ++ x ∷ rest)) next code e
      (λ i run. for_each-ends w xs x rest code i next run f)

module _ (order : HostOrder) (io n : ℕ) (enough : n ≤ io) (s : Supported order false)
    (room : 260 ≤ n) where
  long_string :
      (text : List ℕ) → n < length text → Fails n (write_string order io text) buffer_no_space
  unfolding write_string copy_ptr_to_buf
  long_string text long info can =
      let q = can.room in
      let over : ltb info.buffer_size (length text) ≡ true = ground arith in rw over refl

  string_first :
      (text : List ℕ) (v : File (Unit {0}))
      → length text ≤ n
      → Fails n v buffer_no_space
      → Fails n (write_string order io text >> v) buffer_no_space
  string_first text v fits f =
      Fails-then n (write_string order io text) v text buffer_no_space
        (write_string-Writes order io n enough text fits) f

  number_first :
      (w k : ℕ) (v : File (Unit {0}))
      → (0 < w) × (w ≤ 8)
      → Fails n v buffer_no_space
      → Fails n (write_number order io w k >> v) buffer_no_space
  number_first w k v le f =
      Fails-then n (write_number order io w k) v _ buffer_no_space
        (write_number-Writes order io n enough w k (omega arith) s) f

  long_text : (text : List ℕ) → n < length text → Fails n (write_text order io text) buffer_no_space
  unfolding write_text
  long_text text long =
      let there : ltb 0 (length text) ≡ true = ground arith in
      rw there (number_first 8 (length text) _ (omega arith) (long_string text long))

  long_tag :
      (e : Entry)
      → length e.branch_id ≡ 8
      → length e.entry_id ≡ 8
      → length e.parent_id ≡ 8
      → length e.file_name ≤ 260
      → n < length e.tag_str
      → Fails n (write_entry order io e) buffer_no_space
  unfolding write_entry
  long_tag e branch id parent name long = string_first e.branch_id _ (omega arith) (
      string_first e.entry_id _ (omega arith) (
        string_first e.parent_id _ (omega arith) (
          number_first 1 e.type _ (omega arith) (
            number_first 8 e.child_num _ (omega arith) (
              number_first 1 e.created_by _ (omega arith) (
                number_first 8 (length e.file_name) _ (omega arith) (
                  string_first e.file_name _ (omega arith) (
                    number_first 8 (field_presence_bitmap e) _ (omega arith)
                      (Fails-first n _ _ buffer_no_space (long_text e.tag_str long))))))))))

ends_first :
    {A B : Type 0} (m : File A) (k : File B) (info : BufferInfo) (code : ℕ)
    → m info ≡ ends code
    → (m >> k) info ≡ ends code
unfolding ◌>>◌
ends_first m k info code e = ap (λ o. continue o (λ _. k)) e

-- Behind entries that can be written, save_file ends with BUFFER_NO_SPACE at an entry with a tag
-- string that is longer than the buffer, whatever comes after it, if its ids have 8 bytes and its name
-- at most 260. The device takes all bytes, the host order is one that the code supports, and the
-- buffer has 260 to 2 ^ 16 - 1 cells.
pub save_file_long_tag :
    (order : HostOrder) (io : ℕ) (buffer backup : List ℕ) (normalise : Time → Option Time)
    (branch_num : ℕ) (es : List Entry) (e : Entry) (rest : List Entry)
    → Supported order false
    → length buffer ≤ io
    → length buffer < 2 ^ 16
    → 260 ≤ length buffer
    → IsLoadable normalise (length buffer) [] es
    → length e.branch_id ≡ 8
    → length e.entry_id ≡ 8
    → length e.parent_id ≡ 8
    → length e.file_name ≤ 260
    → length buffer < length e.tag_str
    → save_file order io
        (record { branch_num = branch_num; entries = es ++ e ∷ rest })
        (new_file buffer backup)
      ≡ ends buffer_no_space
unfolding save_file flush
save_file_long_tag order io buffer backup normalise branch_num es e rest s enough small room h
      branch id parent name long =
    let n = length buffer in
    let start = new_file-CanWrite order io n enough s room buffer backup refl small in
    let (a, run_a, c_a, e_a) =
      write_string-Writes order io n enough preamble (omega arith) (new_file buffer backup) start in
    let (b, run_b, c_b, e_b) = write_string-Writes order io n enough version (omega arith) a c_a in
    let (c, run_c, c_c, e_c) =
      write_number-Writes order io n enough 8 branch_num (omega arith) s b c_b in
    let d = (flush_buf io c).1 in
    let c_d = (flushed order io n enough s room c c_c).0 in
    let (f, run_f, c_f, e_f) = write_number-Writes order io n enough 8 0 (omega arith) s d c_d in
    let codec = entries-Codec order io n enough s room normalise [] es h in
    let (g, run_g, c_g, e_g) = codec.writes f c_f in
    let stop =
      for_each-ends (write_entry order io) es e rest buffer_no_space f g run_g
        (long_tag order io n enough s room e branch id parent name long g c_g) in
    then_step _ _ run_a (
      then_step _ _ run_b (
        then_step _ _ run_c (
          then_step _ _ refl
            (step _ _ refl (then_step _ _ run_f (ends_first _ _ f buffer_no_space stop))))))
