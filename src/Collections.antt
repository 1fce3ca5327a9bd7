-- ===== src/Collections.antt =====
-- The standard library's collections, as the program uses them.
pub mod HashMap
pub mod BTreeSet
