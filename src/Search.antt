-- ===== src/Search.antt =====
-- infomesh/search: how a query is answered.
pub mod QueryCache
