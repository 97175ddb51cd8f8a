-- ===== src/FileBuffer/Across.antt =====
-- copy_buf_to_ptr of ffp_file.c where the bytes asked for reach behind the buffer.
use ffprinter.Prelude.{
  ℕ, ◌+◌, ◌-◌, ◌≤◌, ◌<◌, ◌≡◌, inl, inr, refl, ap, ◌∙◌, sym, Bool, true, false, List, [], ◌++◌,
  arith, ltb, ◌==◌, if◌then◌else◌, length, take, drop, Bool-cases, take-append_ge, drop-append_ge,
  take-of_ge, success, file_end_too_soon,
}
use ffprinter.FileBuffer.{
  HostOrder, BufferInfo, filled, finish_forward, finish_reverse, memcpy_forward, copy_back,
}
use ffprinter.FileBuffer.Copy.{copy_twice, length-memcpy_forward}
use ffprinter.FileBuffer.Read.{IsReadable, ahead, limit, filled_lem, length-window}
use ffprinter.FileBuffer.Refill.{
  chunk, refilled, final, chunk-le-size, refilled-counted, refilled-sized, refilled_short,
  take-refilled,
}

-- The flag and the size that a refill leaves.
pub record HasEnd (info : BufferInfo) (eol : Bool) (alt : ℕ) : Type 0 where
  pub ends : (if eol then alt else info.buffer_size) ≡ length (chunk info)
  pub done : eol ≡ true → (refilled info).after ≡ []

module _ (info : BufferInfo) (v : IsReadable info) (live : info.buffer_eol ≡ false) where
  short_pos :
      length (chunk info) < info.buffer_size → ((refilled info).file_pos == info.file_size) ≡ true
  short_pos g =
      let a = refilled-counted info v in
      let b = ap length (refilled_short info v g) in
      let e : (refilled info).file_pos ≡ info.file_size = omega arith in rw e (ground arith)

  module _ (ptr : List ℕ) (space size : ℕ) where
    abbrev pub rest : ℕ
    rest = size - space

    pub finish_forward_full :
        rest ≤ length (chunk info)
        → (eol : Bool) × (alt : ℕ) × HasEnd info eol alt
          × (finish_forward (length (chunk info), refilled info) ptr space size ≡ (
            success,
            final info eol alt rest,
            memcpy_forward ptr space (refilled info).buf rest,
          ))
    unfolding finish_forward
    finish_forward_full h = elim (Bool-cases (ltb (length (chunk info)) info.buffer_size)) [
      | inl e ↦
          let g : length (chunk info) < info.buffer_size = ground arith in
          let p = short_pos g in
          let no : ltb (length (chunk info)) rest ≡ false = ground arith in
          (
            true,
            length (chunk info),
            record { ends = refl; done = λ _. refilled_short info v g },
            rw (e, p, no),
          )
      | inr e ↦
          let c = chunk-le-size info v in
          (
            false,
            info.buffer_alt_size,
            record { ends = ground arith; done = λ x. absurd (cc) },
            rw (e, live),
          )
    ]

    pub finish_reverse_full :
        rest ≤ length (chunk info)
        → (eol : Bool) × (alt : ℕ) × HasEnd info eol alt
          × (finish_reverse (length (chunk info), refilled info) ptr space size ≡ (
            success,
            final
                (record info {
                  buf_backup = memcpy_forward info.buf_backup space (refilled info).buf rest;
                })
                eol
                alt
                rest,
            copy_back ptr 0 (memcpy_forward info.buf_backup space (refilled info).buf rest) size,
          ))
    unfolding finish_reverse
    finish_reverse_full h = elim (Bool-cases (ltb (length (chunk info)) info.buffer_size)) [
      | inl e ↦
          let g : length (chunk info) < info.buffer_size = ground arith in
          let p = short_pos g in
          let no : ltb (length (chunk info)) rest ≡ false = ground arith in
          (
            true,
            length (chunk info),
            record { ends = refl; done = λ _. refilled_short info v g },
            rw (e, p, no),
          )
      | inr e ↦
          let c = chunk-le-size info v in
          (
            false,
            info.buffer_alt_size,
            record { ends = ground arith; done = λ x. absurd (cc) },
            rw (e, live),
          )
    ]

    -- Where the file is too short, both say so.
    pub finish_short :
        length (chunk info) < rest
        → length (chunk info) < info.buffer_size
        → ((finish_forward (length (chunk info), refilled info) ptr space size).0
            ≡ file_end_too_soon)
          × ((finish_reverse (length (chunk info), refilled info) ptr space size).0
              ≡ file_end_too_soon)
    unfolding finish_forward finish_reverse
    finish_short h g =
        let p = short_pos g in
        let e : ltb (length (chunk info)) info.buffer_size ≡ true = ground arith in
        let no : ltb (length (chunk info)) rest ≡ true = ground arith in
        (rw (e, p, no), rw (e, p, no))

  module _ (order : HostOrder) (io : ℕ) (ptr : List ℕ) (size : ℕ) (enough : info.buffer_size ≤ io)
      (l : length ptr ≡ size) (far : filled info < size) (fits : size ≤ info.buffer_size) where
    abbrev pub window : List ℕ
    window = drop info.buffer_pos info.buf

    pub filled-window : filled info ≡ length window
    filled-window =
        let a : limit info ≡ info.buffer_size = rw live in
        filled_lem info v ∙ ap (λ n. n - info.buffer_pos) a ∙ sym (length-window info v)

    ahead_split : ahead info ≡ window ++ info.after
    ahead_split =
        let a : limit info ≡ info.buffer_size = rw live in
        let b = length-window info v in
        ap (λ n. take (n - info.buffer_pos) window ++ info.after) a
        ∙ ap (λ z. z ++ info.after)
            (take-of_ge (info.buffer_size - info.buffer_pos) window (omega arith))

    abbrev pub left : ℕ
    left = size - length window

    size_split : size ≡ length window + left
    size_split = let a = filled-window in omega arith

    pub take-ahead_far : take size (ahead info) ≡ window ++ take left info.after
    take-ahead_far =
        ap (take size) ahead_split
        ∙ ap (λ n. take n (window ++ info.after)) size_split
        ∙ take-append_ge left window info.after

    pub drop-ahead_far : drop size (ahead info) ≡ drop left info.after
    drop-ahead_far =
        ap (drop size) ahead_split
        ∙ ap (λ n. drop n (window ++ info.after)) size_split
        ∙ drop-append_ge left window info.after

    -- The two copies, into any memory that is large enough.
    pub both_copies :
        (dst : List ℕ)
        → size ≤ length dst
        → left ≤ length (chunk info)
        → take size (
            memcpy_forward
              (memcpy_forward dst 0 window (length window))
              (length window)
              (refilled info).buf
              left)
          ≡ take size (ahead info)
    both_copies dst h g =
        let k = size_split in
        let r = refilled-sized info v in
        let c = chunk-le-size info v in
        ap
          (λ n. take n (
            memcpy_forward (memcpy_forward dst 0 window (length window)) (length window)
              (refilled info).buf left))
          size_split
        ∙ copy_twice dst window (refilled info).buf left (omega arith) (omega arith)
        ∙ ap (λ z. window ++ z) (take-refilled info v left g)
        ∙ sym take-ahead_far

    pub forward_far :
        left ≤ length (chunk info)
        → memcpy_forward
            (memcpy_forward ptr 0 window (length window))
            (length window)
            (refilled info).buf
            left
          ≡ take size (ahead info)
    forward_far g =
        let a = length-memcpy_forward ptr 0 window (length window) in
        let mid = memcpy_forward ptr 0 window (length window) in
        let b = length-memcpy_forward mid (length window) (refilled info).buf left in
        sym (
          take-of_ge size (memcpy_forward mid (length window) (refilled info).buf left)
            (omega arith))
        ∙ both_copies ptr (omega arith) g
