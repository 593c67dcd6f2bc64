-- ===== src/Import.antt =====
-- The initial import: git/fast_importer.py, services/initial_importer.py and the tree of
-- services/multi_stream_importer.py.
pub mod Stream
pub mod Initial
pub mod Run
pub mod Tree
