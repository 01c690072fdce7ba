-- ===== src/Crawler.antt =====
-- infomesh/crawler: which pages are fetched, by whom, and which are kept.
pub mod Dedup
pub mod Scheduler
pub mod SimHash
pub mod UrlAssigner
