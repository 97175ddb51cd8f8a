-- ===== src/Prelude/Codes.antt =====
-- The return codes of ffprinter.h that the modelled functions give, by their names there.
use Prim.Native.Nat.{ℕ}

abbrev pub success : ℕ
success = 0

abbrev pub find_fail : ℕ
find_fail = 13

abbrev pub buffer_no_space : ℕ
buffer_no_space = 17

abbrev pub malloc_fail : ℕ
malloc_fail = 19

abbrev pub logic_error : ℕ
logic_error = 20

abbrev pub buffer_full : ℕ
buffer_full = 21

abbrev pub wrong_args : ℕ
wrong_args = 25

abbrev pub verify_fail : ℕ
verify_fail = 26

abbrev pub gen_id_fail : ℕ
gen_id_fail = 37

abbrev pub invalid_date : ℕ
invalid_date = 39

abbrev pub index_out_of_range : ℕ
index_out_of_range = 46

abbrev pub invalid_hex_str : ℕ
invalid_hex_str = 47

abbrev pub fread_error : ℕ
fread_error = 10

abbrev pub endian_no_support : ℕ
endian_no_support = 14

abbrev pub fwrite_error : ℕ
fwrite_error = 18

abbrev pub file_end : ℕ
file_end = 22

abbrev pub file_end_too_soon : ℕ
file_end_too_soon = 24

abbrev pub file_name_empty : ℕ
file_name_empty = 45

abbrev pub file_broken : ℕ
file_broken = 16

abbrev pub duplicate_error : ℕ
duplicate_error = 15

abbrev pub file_nosupport : ℕ
file_nosupport = 34
