-- ===== src/Trust.antt =====
-- infomesh/trust: what makes an index and its documents verifiable.
pub mod Dmca
pub mod Merkle
