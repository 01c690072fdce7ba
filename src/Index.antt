-- ===== src/Index.antt =====
-- infomesh/index: what a node indexes, and how others find it.
pub mod Distributed
pub mod StopWords
