-- ===== src/Collections.antt =====
-- The standard library's collections, as far as the program uses them.
pub mod Map
pub mod HashSet
pub mod HashMap
