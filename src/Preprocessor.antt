-- ===== src/Preprocessor.antt =====
-- preprocessor.c: the loop of preprocess over the hash table of macros, which is in the child `Table`.
pub mod Table
pub mod Hash
pub mod Lookup
pub mod Loop
pub mod Expand
pub mod Plain
