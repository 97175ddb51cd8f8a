-- ===== src/Text.antt =====
-- The string helpers of src/ffprinter.c, one child for each group of functions.
pub mod Grab
pub mod Hex
pub mod Match
pub mod Str
