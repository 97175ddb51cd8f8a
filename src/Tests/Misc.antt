-- ===== src/Tests/Misc.antt =====
-- Texts, memory, paths and ids.
use ffprinter.Prelude.{
  ℕ, ◌≡◌, refl, true, false, some, List, [], ◌∷◌, arith, success, replicate, buffer_full,
}
use ffprinter.Links.{upd}
use ffprinter.Text.Hex.{bytes_to_hex_str}
use ffprinter.Text.Str.{c_str}
use ffprinter.ErrorHandle.{Handle, error_mark_owner, error_mark_starter, error_write}
use ffprinter.ErrorHandle.Laws.{error_handle_lem}
use ffprinter.ScanMem.{mem_scan}
use ffprinter.ScanMem.Laws.{mem_scan_lem}
use ffprinter.PathName.{slash, path_to_file_name}
use ffprinter.PathName.Laws.{path_to_file_name-join}
use ffprinter.EntryIds.{Info, set_new_entry_id}
use ffprinter.EntryIds.Laws.{nth, set_new_entry_id_free}

abbrev handle : Handle
handle = record {
  active = false;
  owner_name = replicate 51 0;
  starter_name = replicate 51 0;
  msg = replicate 101 0;
}

error_handle_lem_example :
    ((s : List ℕ) × (error_mark_owner handle (b'm' ∷ [])
        ≡ some (success, record handle { owner_name = s }))
      × (c_str s ≡ b'm' ∷ []))
    × ((s : List ℕ) × (error_mark_starter handle (b'm' ∷ [])
          ≡ some (success, record handle { starter_name = s }))
        × (c_str s ≡ b'm' ∷ []))
    × ((s : List ℕ) × (error_write handle (b'm' ∷ [])
          ≡ some (success, record handle { msg = s; active = true }))
        × (c_str s ≡ b'm' ∷ []))
error_handle_lem_example = error_handle_lem handle (b'm' ∷ []) refl refl refl (omega arith)

mem_scan_lem_example : mem_scan (1 ∷ 1 ∷ 2 ∷ []) (1 ∷ 1 ∷ []) 2 ≡ (buffer_full, some (0 ∷ 0 ∷ []))
unfolding mem_scan
mem_scan_lem_example = mem_scan_lem (1 ∷ 1 ∷ 2 ∷ []) (1 ∷ 1 ∷ []) 2 (omega arith) (omega arith)

path_to_file_name-join_example :
    (path_to_file_name (b'd' ∷ slash ∷ b'n' ∷ slash ∷ []) ≡ some (success, some (b'n' ∷ [])))
    × (path_to_file_name (b'n' ∷ slash ∷ []) ≡ some (success, some (b'n' ∷ [])))
path_to_file_name-join_example =
    path_to_file_name-join (b'd' ∷ []) (b'n' ∷ []) true refl (omega arith) (omega arith)
      (omega arith)

abbrev info : Info
info = record {
  entry_id = λ e. [];
  entry_id_str = λ e. [];
  branch_id = λ e. [];
  branch_id_str = λ e. [];
  parent = λ e. 1;
  depth = λ e. 0;
  has_parent = λ e. true;
}

set_new_entry_id_free_example : set_new_entry_id (λ i. i) 0 (λ s. false) info 2 ≡ (
  success,
  record info {
    entry_id = upd info.entry_id 2 (nth (λ i. i) 0 0);
    entry_id_str = upd info.entry_id_str 2 (bytes_to_hex_str (nth (λ i. i) 0 0));
  },
)
set_new_entry_id_free_example =
    set_new_entry_id_free (λ i. i) 0 (λ s. false) info 2 0 (omega arith)
      (λ j lt. absurd (omega arith)) refl
