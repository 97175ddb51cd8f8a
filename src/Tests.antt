-- ===== src/Tests.antt =====
-- The theorems at concrete inputs, and runs of the functions.
mod Branching
mod Chain
mod Dates
mod Entries
mod Files
mod Format
mod Matrix
mod Misc
mod Sample
mod Slots
mod Strings
mod Trees
