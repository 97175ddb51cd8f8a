-- ===== src/Lib.antt =====
-- ffprinter keeps fingerprints of files in databases. This library models functions under src/ of
-- the repository: the database files, the structures in memory that a database is made of, and the
-- helpers below them. The device behind a file, memory, the clock functions and third-party
-- libraries are parameters.
--
-- Parts and their files:
-- - Text models the string helpers of src/ffprinter.c on byte lists, the bytes before the NUL.
--   Text/Str: verify_str_terminated, reverse_strcpy, escape_char. Text/Grab: grab_until_sep and
--   tag_count, one call of `action` per round of the source's loop over the characters. Text/Hex:
--   bytes_to_hex_str, hex_str_to_bytes, upper_to_lower_case. Text/Match: match_sub and
--   match_sub_min_max. A buffer that the code writes is the list of the bytes written, or the
--   whole buffer where the place matters (reverse_strcpy).
-- - Links is the store of the pointers link_prev and link_next of struct linked_entry
--   (src/ffprinter.h): an entry is a number, `null` is 0, and a write is an update of a
--   function. EntryList has link_entry_clear, link_entry_tail, link_entry_head,
--   link_entry_after, link_entry_before, link_entry_get_head and link_entry_get_tail of
--   src/ffprinter.c on this store.
-- - FileBuffer models the buffered reads and writes of src/ffp_file.c, copy_buf_to_ptr, copy_ptr_to_buf
--   and flush_buf, through which load_file and save_file go. A file is the bytes on both sides of its
--   position; fread and fwrite get as argument how many bytes the device can move. FileBuffer/Read
--   has the view of a reader, the bytes ahead, FileBuffer/Write that of a writer, the bytes written.
-- - FileFormat models load_file and save_file of src/ffp_file.c on top of FileBuffer: a step reads or
--   writes the struct of the buffer and goes on, or ends the function with a code. FileFormat/Save
--   has the writing, FileFormat/Load the reading, each with a function for a time, a checksum, an
--   extract, a section, the file data and an entry. FileFormat/Codec and Bytes say what a step writes and
--   what a step reads, as bytes; Parts, Checksums, Sections, Entries and Many go up to the list of the
--   entries, Seek and Saved add the number of the entries, which is written over a dummy at the end,
--   and Whole has the file. Accepted has what load_file accepts; Misplaced and LongTag are about a
--   section without its first checksum and about long tag strings. timegm and gmtime are the argument `normalise`.
-- - VerifyEntry models verify_entry of src/ffp_database.c, which load_file calls for each entry: on the
--   data of an entry and on a record of what its pointers are. VerifyEntry/Sections and
--   VerifyEntry/Tags have what an entry that it accepts fulfils.
-- - DateTree models link_entry_to_date_time_tree, unlink_entry_from_date_time_tree and
--   lookup_date_time of src/ffp_database.c. The nested arrays of a dtt_year are functions of the
--   indices, an index out of the arrays gives `none`, and the lists of the hours are in Links.
-- - EntryIds models gen_entry_id, set_new_entry_id and set_entry_general_info of src/ffp_database.c;
--   the last calls DateTree twice. The values of rand are a function of the number of the call.
-- - Branches models link_branch of src/ffp_database.c on the links of EntryList: the arrays of the
--   children are a function, a Forest is the tree that they spell out, and the recursion and the
--   loop down the single children take fuel, for which the number of entries is enough.
--   Branches/Leaves has link_branch_ends. Branches/ForSave models link_entry_for_save_file of
--   src/ffp_file.c, the same with verify_entry before each entry; AllVerified and LostCode are about it.
-- - ErrorHandle models the texts of src/ffp_error.c, ScanMem the search of src/ffp_scanmem.c, and
--   PathName path_to_file_name of src/ffp_fingerprint.c.
-- - Chains models add_generic_to_generic_chain of src/ffprinter_function_template.h, which joins the
--   objects with one key, on the links of the module Links. Chains/Remove has the writes of
--   del_generic_from_generic_chain where other objects stay in the chain.
-- - Pool models the layer 1 and layer 2 arrays of src/ffprinter_function_template.h and
--   src/ffprinter_structure_template.h, from which the databases take their objects, and
--   ffp_grow_bitmap of src/ffprinter.c. The bitmaps are those of lib/simple_bitmap.c, another
--   project's library: Pool/Bits has its operations and what the pool relies on as the record
--   Bitmap, a parameter, and an instance of it on lists. The macro parameters for the sizes and
--   the object type are parameters too; no size is assumed but that it is not 0 and, where the
--   code computes on uint64_t, that it does not wrap. Pool/View is the abstract view of a pool,
--   a partial function from indices to objects, and Pool/Valid its well-formedness.
-- - ExistMat models init_…_exist_mat and add_…_to_…_exist_mat of src/ffprinter_function_template.h,
--   on the same bitmaps: the index, by position and character, of the layer 1 arrays that have a
--   key with that character there. ExistMat/Keys has its abstract view, the keys that were added.
-- - Arrays models the growing arrays of pointers of src/ffp_database.c: the children of an entry,
--   the sections of a file and the section fields of a record. grow_array is the one body of
--   grow_children_array, grow_section_array and grow_sect_field_array; the three functions that
--   put a pointer into an array stand on stores of their own. New memory has any contents.
-- - Prelude has the shared names, the lemmas on lists and numbers, and the return codes of
--   src/ffprinter.h (Prelude/Codes); Tests runs the code on concrete inputs.
--
-- Conventions: what the C code may return by pointer is in the result, with the return code first.
-- `none` as the result of a whole function stands for a null or out-of-bounds access, or for a
-- loop that the fuel does not bound. The loops over a string are structural. The walks of EntryList
-- take fuel, one unit per entry, and tag_count runs on the length of the text plus one, which is
-- enough since each round consumes a character. The size of the file buffer is a parameter, of which
-- 260 cells are enough but for the tag strings; the source has 1024. Numbers are unbounded but where a wrap is written
-- out; an int that may be negative is its bit pattern. An answer of malloc or realloc is an argument: a Boolean,
-- or the contents of the new cells in Arrays.
--
-- Not modelled: the tests for null arguments of the pool functions, del_l2_obj_arr (it only frees
-- memory), the terminal (input and output), the opening of files, and the libraries under lib/. Of
-- load_file, the linking of a new entry into the hash tables, the trees and the arrays is left out but for
-- what verify_entry then sees and the numbers of the branches and the children; the links to the date trees are
-- taken to stay within their arrays there (the 31st of a month is behind them). The
-- deletion from the existence matrix and of the last object of a chain, the paths of
-- src/ffp_directory.c and the searches are not modelled either.
pub mod Arrays
pub mod Branches
pub mod Chains
pub mod DateTree
pub mod EntryIds
pub mod EntryList
pub mod ErrorHandle
pub mod ScanMem
pub mod ExistMat
pub mod FileBuffer
pub mod FileFormat
pub mod Links
pub mod PathName
pub mod Pool
pub mod Prelude
mod Tests
pub mod Text
pub mod VerifyEntry
