-- ===== src/FileFormat/Codec.antt =====
-- What a step of save_file of ffp_file.c writes and what a step of load_file reads, as bytes.
use ffprinter.Prelude.{ℕ, ◌≡◌, refl, ap, ◌∙◌, sym, Bool, true, false, List, [], ◌++◌, if◌then◌else◌}
use mathlib.Core.List.{append_assoc, append-nil}
use mathlib.Core.Path.{subst}
use ffprinter.FileBuffer.{BufferInfo}
use ffprinter.FileBuffer.Read.{IsReadable, ahead}
use ffprinter.FileBuffer.Write.{IsWritable, written}
use ffprinter.FileBuffer.Position.{Positioned}
use ffprinter.FileFormat.{goes_on, File, pure, ◌>>=◌, ◌>>◌, continue, guard}

-- A struct in the course of writing with a buffer of `n` cells.
pub record CanWrite (n : ℕ) (info : BufferInfo) : Type 0 where
  pub writable : IsWritable info
  pub placed : Positioned info
  pub room : info.buffer_size ≡ n

pub record CanRead (n : ℕ) (info : BufferInfo) : Type 0 where
  pub readable : IsReadable info
  pub room : info.buffer_size ≡ n

-- The step goes on, and has added the bytes.
abbrev pub Writes : ℕ → File (Unit {0}) → List ℕ → Type 0
Writes n w bytes =
    (info : BufferInfo)
    → CanWrite n info
    → (next : BufferInfo) × (w info ≡ goes_on tt next)
      × CanWrite n next
      × (written next ≡ written info ++ bytes)

-- Where the bytes are ahead, the step goes on with the value, behind them.
abbrev pub Reads : {A : Type 0} → ℕ → File A → List ℕ → A → Type 0
Reads n r bytes a =
    (info : BufferInfo) (rest : List ℕ)
    → CanRead n info
    → ahead info ≡ bytes ++ rest
    → (next : BufferInfo) × (r info ≡ goes_on a next) × CanRead n next × (ahead next ≡ rest)

-- What the one step writes is what the other one reads as the value.
pub record Codec {A : Type 0} (n : ℕ) (w : File (Unit {0})) (r : File A) (a : A) : Type 0 where
  pub bytes : List ℕ
  pub writes : Writes n w bytes
  pub reads : Reads n r bytes a

Writes-then :
    (n : ℕ) (w v : File (Unit {0})) (xs ys : List ℕ)
    → Writes n w xs
    → Writes n v ys
    → Writes n (w >> v) (xs ++ ys)
unfolding ◌>>◌
Writes-then n w v xs ys f g info can =
    let (next, run, can', added) = f info can in
    let (last, run', can'', added') = g next can' in
    (
      last,
      ap (λ o. continue o (λ _. v)) run ∙ run',
      can'',
      added' ∙ ap (λ zs. zs ++ ys) added ∙ append_assoc (written info) xs ys,
    )

pub Reads-then :
    {A B : Type 0} (n : ℕ) (r : File A) (k : A → File B) (xs ys : List ℕ) (a : A) (b : B)
    → Reads n r xs a
    → Reads n (k a) ys b
    → Reads n (r >>= k) (xs ++ ys) b
unfolding ◌>>=◌
Reads-then n r k xs ys a b f g info rest can e =
    let (next, run, can', left) = f info (ys ++ rest) can (e ∙ append_assoc xs ys rest) in
    let (last, run', can'', left') = g next rest can' left in
    (last, ap (λ o. continue o k) run ∙ run', can'', left')

pub Codec-then :
    {A B : Type 0} {n : ℕ} {w v : File (Unit {0})} {r : File A} {a : A} {b : B} (k : A → File B)
    → Codec n w r a
    → Codec n v (k a) b
    → Codec n (w >> v) (r >>= k) b
Codec-then {n = n} {w = w} {v = v} {r = r} {a = a} {b = b} k c d = record {
  bytes = c.bytes ++ d.bytes;
  writes = Writes-then n w v c.bytes d.bytes c.writes d.writes;
  reads = Reads-then n r k c.bytes d.bytes a b c.reads d.reads;
}

-- The value as a part of another.
pub Codec-map :
    {A B : Type 0} {n : ℕ} {w : File (Unit {0})} {r : File A} {a : A} (f : A → B)
    → Codec n w r a
    → Codec n w (r >>= λ x. pure (f x)) (f a)
unfolding ◌>>=◌
Codec-map f c = record {
  bytes = c.bytes;
  writes = c.writes;
  reads = λ info rest can e.
      let (next, run, can', left) = c.reads info rest can e in
      (next, ap (λ o. continue o (λ x. pure (f x))) run, can', left);
}

pub Codec-nothing : {A : Type 0} {n : ℕ} (a : A) → Codec n (pure tt) (pure a) a
Codec-nothing a = record {
  bytes = [];
  writes = λ info can. (info, refl, can, sym (append-nil (written info)));
  reads = λ info rest can e. (info, refl, can, e);
}

-- A step that writes nothing.
pub Codec-skip :
    {A : Type 0} {n : ℕ} {w : File (Unit {0})} {r : File A} {a : A}
    → Codec n w r a
    → Codec n (pure tt >> w) r a
unfolding ◌>>◌
Codec-skip c = record { bytes = c.bytes; writes = c.writes; reads = c.reads }

-- A test that holds.
pub Codec-guard :
    {A : Type 0} {n : ℕ} {w : File (Unit {0})} {r : File A} {a : A} {b : Bool} (code : ℕ)
    → b ≡ true
    → Codec n w r a
    → Codec n w (guard b code >> r) a
unfolding ◌>>◌
Codec-guard code e c = rw e c

-- A test of the value that holds.
pub Codec-check :
    {A : Type 0} {n : ℕ} {w : File (Unit {0})} {r : File A} {a : A} (f : A → Bool) (code : ℕ)
    → f a ≡ true
    → Codec n w r a
    → Codec n w (r >>= λ x. guard (f x) code >> pure x) a
unfolding ◌>>=◌ ◌>>◌
Codec-check {a = a} f code e c = record {
  bytes = c.bytes;
  writes = c.writes;
  reads = λ info rest can left.
      let (next, run, can', behind) = c.reads info rest can left in
      let ok : continue (guard (f a) code next) (λ _. pure a) ≡ goes_on a next = rw e refl in
      (
        next,
        ap (λ o. continue o (λ x i. continue (guard (f x) code i) (λ _. pure x))) run ∙ ok,
        can',
        behind,
      );
}

-- A part that is there under a condition.
pub Codec-if :
    {A : Type 0} {n : ℕ} {w : File (Unit {0})} {r : File A} {a : A} (b : Bool) (absent : A)
    → (b ≡ true → Codec n w r a)
    → (b ≡ false → absent ≡ a)
    → Codec n (if b then w else pure tt) (if b then r else pure absent) a
Codec-if true absent c d = c refl
Codec-if {n = n} false absent c d =
    subst (λ x. Codec n (pure tt) (pure absent) x) (d refl) (Codec-nothing absent)
