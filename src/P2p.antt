-- ===== src/P2p.antt =====
-- infomesh/p2p: what nodes exchange, and whom they admit.
pub mod Dht
pub mod LoadGuard
pub mod MessageAuth
pub mod Pex
pub mod Sybil
pub mod Throttle
