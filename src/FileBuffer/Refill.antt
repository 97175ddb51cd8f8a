-- ===== src/FileBuffer/Refill.antt =====
-- The refill of the buffer in copy_buf_to_ptr of ffp_file.c.
use ffprinter.Prelude.{
  ℕ, ◌+◌, ◌-◌, ◌%◌, ◌^◌, ◌≤◌, ◌<◌, ◌≡◌, ◌⊎◌, inl, inr, ap, ◌∙◌, sym, Bool, true, List, [], ◌++◌,
  arith, leb, if◌then◌else◌, length, take, drop, Bool-cases, length-append, length-take,
  length-drop, take-take, take-append, drop-append, take-append_drop, take-of_ge, drop-of_ge,
}
use Prim.Native.Nat.{min}
use ffprinter.FileBuffer.{BufferInfo, refill, advance}
use ffprinter.FileBuffer.Read.{IsReadable, ahead}

-- What one call of fread gives, if the device gives all that there is.
abbrev pub chunk : BufferInfo → List ℕ
chunk info = take info.buffer_size info.after

abbrev pub refilled : BufferInfo → BufferInfo
refilled info = record info {
  before = info.before ++ chunk info;
  after = drop (length (chunk info)) info.after;
  buf = chunk info ++ drop (length (chunk info)) info.buf;
  file_pos = info.file_pos + length (chunk info);
  buffer_pos = 0;
}

pub refill_lem :
    (io : ℕ) (info : BufferInfo)
    → info.buffer_size ≤ io
    → refill io info ≡ (length (chunk info), refilled info)
unfolding refill
refill_lem io info h = let e : min io info.buffer_size ≡ info.buffer_size = omega arith in rw e

chunk_cases :
    (n : ℕ) (xs : List ℕ)
    → (n ≤ length xs) × (length (take n xs) ≡ n) ⊎ (length xs < n) × (take n xs ≡ xs)
chunk_cases n xs = elim (Bool-cases (leb n (length xs))) [
  | inl e ↦ let h : n ≤ length xs = ground arith in inl (h, length-take n xs h)
  | inr e ↦ let h : length xs < n = ground arith in inr (h, take-of_ge n xs (omega arith))
]

-- The struct behind a refill, `rest` bytes further, with the flag and the size as they are then.
abbrev pub final : BufferInfo → Bool → ℕ → ℕ → BufferInfo
final info eol alt rest =
    advance (record (refilled info) { buffer_eol = eol; buffer_alt_size = alt }) rest

module _ (info : BufferInfo) (v : IsReadable info) where
  pub chunk-le-size : length (chunk info) ≤ info.buffer_size
  chunk-le-size = elim (chunk_cases info.buffer_size info.after) [
    | inl (h, e) ↦ omega arith
    | inr (h, e) ↦ rw e (omega arith)
  ]

  pub chunk-le-after : length (chunk info) ≤ length info.after
  chunk-le-after = elim (chunk_cases info.buffer_size info.after) [
    | inl (h, e) ↦ omega arith
    | inr (h, e) ↦ rw e (omega arith)
  ]

  pub le-chunk : (k : ℕ) → k ≤ info.buffer_size → k ≤ length info.after → k ≤ length (chunk info)
  le-chunk k a b = elim (chunk_cases info.buffer_size info.after) [
    | inl (h, e) ↦ omega arith
    | inr (h, e) ↦ rw e (omega arith)
  ]

  -- A short read gives all of the file.
  pub chunk_short : length (chunk info) < info.buffer_size → chunk info ≡ info.after
  chunk_short g = elim (chunk_cases info.buffer_size info.after) [
    | inl (h, e) ↦ absurd (omega arith)
    | inr (h, e) ↦ e
  ]

  pub take-chunk : take (length (chunk info)) info.after ≡ chunk info
  take-chunk = elim (chunk_cases info.buffer_size info.after) [
    | inl (h, e) ↦ rw e
    | inr (h, e) ↦ rw e (take-of_ge (length info.after) info.after (omega arith))
  ]

  pub refilled-sized : length (refilled info).buf ≡ info.buffer_size
  refilled-sized =
      let a = length-append (chunk info) (drop (length (chunk info)) info.buf) in
      let b = length-drop (length (chunk info)) info.buf in
      let c = chunk-le-size in let d = v.sized in omega arith

  pub refilled-counted : (refilled info).file_pos + length (refilled info).after ≡ info.file_size
  refilled-counted =
      let a = length-drop (length (chunk info)) info.after in
      let b = chunk-le-after in let c = v.counted in omega arith

  pub refilled_short : length (chunk info) < info.buffer_size → (refilled info).after ≡ []
  refilled_short g =
      let e = chunk_short g in rw e (drop-of_ge (length info.after) info.after (omega arith))

  module _ (rest : ℕ) (fits : rest ≤ length (chunk info)) where
    pub take-refilled : take rest (refilled info).buf ≡ take rest info.after
    take-refilled =
        take-append rest (chunk info) (drop (length (chunk info)) info.buf) fits
        ∙ take-take rest info.buffer_size info.after (let a = chunk-le-size in omega arith)

    pub drop-refilled :
        take (length (chunk info) - rest) (drop rest (refilled info).buf) ++ (refilled info).after
        ≡ drop rest info.after
    drop-refilled =
        let b = chunk info in
        let n = length b in
        let l = length-drop rest b in
        let k : n - rest ≤ length (drop rest b) = omega arith in
        let whole : take (n - rest) (drop rest (refilled info).buf) ≡ drop rest b =
          ap (take (n - rest)) (drop-append rest b (drop n info.buf) fits)
          ∙ take-append (n - rest) (drop rest b) (drop n info.buf) k
          ∙ take-of_ge (n - rest) (drop rest b) (omega arith) in
        let join : b ++ drop n info.after ≡ info.after =
          ap (λ z. z ++ drop n info.after) (sym take-chunk) ∙ take-append_drop n info.after in
        rw whole (sym (drop-append rest b (drop n info.after) fits) ∙ ap (drop rest) join)

    module _ (eol : Bool) (alt : ℕ)
        (ends : (if eol then alt else info.buffer_size) ≡ length (chunk info))
        (done : eol ≡ true → (refilled info).after ≡ []) where
      pub final_pos : rest % 2 ^ 16 ≡ rest
      final_pos = let a = v.small in let b = chunk-le-size in omega arith

      pub final-IsReadable : IsReadable (final info eol alt rest)
      final-IsReadable = record {
        sized = refilled-sized;
        backed = v.backed;
        small = v.small;
        below = let a = final_pos in rw ends (omega arith);
        within = rw ends chunk-le-size;
        counted = refilled-counted;
        ended = done;
      }

      pub final-ahead : ahead (final info eol alt rest) ≡ drop rest info.after
      final-ahead = let e : 0 + rest ≡ rest = omega arith in rw (ends, e, final_pos) drop-refilled
