-- ===== src/FileBuffer/Copy.antt =====
-- memcpy_forward and memcpy_reverse of ffp_file.c: which cells they write.
use ffprinter.Prelude.{
  ◌==◌, false, ℕ, zero, suc, ◌+◌, ◌≤◌, ◌≡◌, refl, ap, ◌∙◌, sym, List, [], ◌∷◌, ◌++◌, arith, length,
  take, drop, set, length-set, length-append, length-take, take-append, take-set_ge, take-set_self,
  drop-set_lt, drop-set_self, take-of_ge, take-append_drop, ◌<◌, some,
}
use mathlib.Core.List.{reverse, reverse-cons, append_assoc}
use ffprinter.FileBuffer.{memcpy_forward, copy_back, memcpy_reverse}

pub memcpy_forward_lem :
    (dst : List ℕ) (k : ℕ) (src : List ℕ) (n : ℕ)
    → k + n ≤ length dst
    → n ≤ length src
    → memcpy_forward dst k src n ≡ take k dst ++ (take n src ++ drop (k + n) dst)
unfolding memcpy_forward
memcpy_forward_lem dst k src zero h g =
    let e : k + 0 ≡ k = omega arith in rw e (sym (take-append_drop k dst))
memcpy_forward_lem dst k [] (suc n) h g = absurd (omega arith)
memcpy_forward_lem dst k (c ∷ src) (suc n) h g =
    let l = length-set dst k c in
    let e : suc k + n ≡ k + suc n = omega arith in
    rw (
      memcpy_forward_lem (set dst k c) (suc k) src n (omega arith) (omega arith),
      take-set_self k dst c (omega arith),
      e,
      drop-set_lt (k + suc n) k dst c (omega arith),
      append_assoc,
    )

pub copy_back_lem :
    (dst : List ℕ) (k : ℕ) (src : List ℕ) (n : ℕ)
    → k + n ≤ length dst
    → n ≤ length src
    → copy_back dst k src n ≡ take k dst ++ (reverse (take n src) ++ drop (k + n) dst)
unfolding copy_back
copy_back_lem dst k src zero h g =
    let e : k + 0 ≡ k = omega arith in rw e (sym (take-append_drop k dst))
copy_back_lem dst k [] (suc n) h g = absurd (omega arith)
copy_back_lem dst k (c ∷ src) (suc n) h g =
    let l = length-set dst (k + n) c in
    let e : k + suc n ≡ suc (k + n) = omega arith in
    rw (
      copy_back_lem (set dst (k + n) c) k src n (omega arith) (omega arith),
      take-set_ge k (k + n) dst c (omega arith),
      drop-set_self (k + n) dst c (omega arith),
      e,
      reverse-cons,
      append_assoc,
    )

pub length-memcpy_forward :
    (dst : List ℕ) (k : ℕ) (src : List ℕ) (n : ℕ) → length (memcpy_forward dst k src n) ≡ length dst
unfolding memcpy_forward
length-memcpy_forward dst k src zero = refl
length-memcpy_forward dst k [] (suc n) = refl
length-memcpy_forward dst k (c ∷ src) (suc n) =
    length-memcpy_forward (set dst k c) (suc k) src n ∙ length-set dst k c

-- Two copies, the second one behind the first.
pub copy_twice :
    (dst xs ys : List ℕ) (n : ℕ)
    → length xs + n ≤ length dst
    → n ≤ length ys
    → take (length xs + n) (memcpy_forward (memcpy_forward dst 0 xs (length xs)) (length xs) ys n)
      ≡ xs ++ take n ys
copy_twice dst xs ys n h g =
    let first = memcpy_forward_lem dst 0 xs (length xs) (omega arith) (omega arith) in
    let e : 0 + length xs ≡ length xs = omega arith in
    let mid = memcpy_forward dst 0 xs (length xs) in
    let is : mid ≡ xs ++ drop (length xs) dst =
      rw (first, e, take-of_ge (length xs) xs (omega arith)) in
    let l = length-memcpy_forward dst 0 xs (length xs) in
    let t : take (length xs) mid ≡ xs = rw is (
      take-append (length xs) xs (drop (length xs) dst) (omega arith)
      ∙ take-of_ge (length xs) xs (omega arith)) in
    let q = length-take n ys g in
    let k : length xs + n ≡ length (xs ++ take n ys) =
      omega (arith, length-append xs (take n ys)) in
    let second = memcpy_forward_lem mid (length xs) ys n (omega arith) g in
    rw (second, t)
      (ap (λ z. take (length xs + n) z)
          (sym (append_assoc xs (take n ys) (drop (length xs + n) mid)))
        ∙ ap (λ z. take z ((xs ++ take n ys) ++ drop (length xs + n) mid)) k
        ∙ take-append (length (xs ++ take n ys)) (xs ++ take n ys) (drop (length xs + n) mid)
            (omega arith)
        ∙ take-of_ge (length (xs ++ take n ys)) (xs ++ take n ys) (omega arith))

pub length-copy_back :
    (dst : List ℕ) (k : ℕ) (src : List ℕ) (n : ℕ) → length (copy_back dst k src n) ≡ length dst
unfolding copy_back
length-copy_back dst k src zero = refl
length-copy_back dst k [] (suc n) = refl
length-copy_back dst k (c ∷ src) (suc n) =
    length-copy_back (set dst (k + n) c) k src n ∙ length-set dst (k + n) c

pub memcpy_reverse_runs :
    (dst : List ℕ) (k : ℕ) (src : List ℕ) (n : ℕ)
    → 0 < n
    → memcpy_reverse dst k src n ≡ some (copy_back dst k src n)
unfolding memcpy_reverse
memcpy_reverse_runs dst k src n pos = let e : (n == 0) ≡ false = ground arith in rw e
