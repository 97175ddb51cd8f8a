-- ===== src/FileFormat/Many.antt =====
-- The list of the entries in a database file of ffp_file.c.
use ffprinter.Prelude.{
  ◌≤◌, ◌≡◌, ap, true, false, Option, not, ◌||◌, List, [], ◌∷◌, length, success, some,
  duplicate_error, ℕ, refl, sym, ◌∙◌,
}
use ffprinter.Text.Hex.{bytes_to_hex_str}
use ffprinter.FileBuffer.{HostOrder}
use ffprinter.FileBuffer.Read.{Supported}
use ffprinter.FileFormat.{File, ◌>>◌}
use ffprinter.FileFormat.Codec.{Codec, Codec-then, Codec-map, Codec-nothing, Codec-guard}
use ffprinter.FileFormat.Records.{Time, Entry}
use ffprinter.FileFormat.Save.{for_each, write_entry}
use ffprinter.FileFormat.Load.{all_zero}
use ffprinter.FileFormat.Load.Entries.{
  Known, is_known, loaded_links, now_known, verified, read_entries, parent_of, children_of,
  count_children,
}
use mathlib.Core.Path.{subst}
use ffprinter.VerifyEntry.{verify_entry, verify_links, verify_data}
use ffprinter.FileFormat.Entries.{IsEntry, entry-Codec}

-- Behind the entries `known`: each entry has a parent before it or none, passes verify_entry, and has
-- a new id.
abbrev pub IsLoadable : (Time → Option Time) → ℕ → List Known → List Entry → Type 0
IsLoadable normalise n known [] = Unit
IsLoadable normalise n known (e ∷ es) =
    IsEntry normalise n e
    × ((all_zero e.parent_id || is_known known (bytes_to_hex_str e.parent_id)) ≡ true)
    × (verify_entry true (loaded_links normalise known e.child_num e) e ≡ some success)
    × (is_known known (bytes_to_hex_str e.entry_id) ≡ false)
    × IsLoadable normalise n (now_known known e) es

-- The child number of an entry is not looked at.
abbrev with_children : Entry → ℕ → Entry
with_children e num = record e { child_num = num }

pub verify_entry-with_children :
    (normalise : Time → Option Time) (known : List Known) (space : ℕ) (e : Entry) (num : ℕ)
    → verify_entry true
        (loaded_links normalise known space (with_children e num))
        (with_children e num)
      ≡ verify_entry true (loaded_links normalise known space e) e
unfolding verify_entry verify_links verify_data loaded_links parent_of
verify_entry-with_children normalise known space e num = refl

pub now_known-with_children :
    (known : List Known) (e : Entry) (num : ℕ)
    → now_known known (with_children e num) ≡ now_known known e
unfolding parent_of
now_known-with_children known e num = refl

-- The entries as load_file counts their children.
pub recounted : List Entry → List Entry
recounted [] = []
recounted (e ∷ es) = let rest = recounted es in count_children e rest ∷ rest

-- Each entry has as many children as there are entries behind it with its id as their parent_id.
abbrev pub AllCounted : List Entry → Type 0
AllCounted [] = Unit
AllCounted (e ∷ es) = (e.child_num ≡ children_of (bytes_to_hex_str e.entry_id) es) × AllCounted es

pub recounted-AllCounted : (es : List Entry) → AllCounted es → recounted es ≡ es
unfolding recounted
recounted-AllCounted [] h = refl
recounted-AllCounted (e ∷ es) (same, h) =
    rw (recounted-AllCounted es h) (λ i. record e { child_num = sym same i } ∷ es)

Codec-verified :
    {A : Type 0} {n : ℕ} {w : File (Unit {0})} {r : File A} {a : A} (o : Option ℕ)
    → o ≡ some success
    → Codec n w r a
    → Codec n w (verified o >> r) a
unfolding ◌>>◌ verified
Codec-verified o e c = rw e c

module _ (order : HostOrder) (io n : ℕ) (enough : n ≤ io) (s : Supported order false)
    (room : 260 ≤ n) where
  pub entries-Codec :
      (normalise : Time → Option Time) (known : List Known) (es : List Entry)
      → IsLoadable normalise n known es
      → Codec n
          (for_each (write_entry order io) es)
          (read_entries order io normalise known (length es))
          (recounted es)
  unfolding for_each read_entries recounted
  entries-Codec normalise known [] h = Codec-nothing []
  entries-Codec normalise known (e ∷ es) (v, up, ok, fresh, h) =
      Codec-then _ (entry-Codec order io n enough s room normalise known e v up) (
        Codec-verified _ (verify_entry-with_children normalise known e.child_num e 0 ∙ ok) (
          Codec-guard duplicate_error (ap not fresh) (
            Codec-map (λ zs. count_children e zs ∷ zs)
              (subst
                (λ k.
                  Codec n (for_each (write_entry order io) es)
                    (read_entries order io normalise k (length es)) (recounted es))
                (sym (now_known-with_children known e 0))
                (entries-Codec normalise (now_known known e) es h)))))
