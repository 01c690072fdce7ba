-- ===== src/Resources.antt =====
-- infomesh/resources: how a node adapts to the load of its machine.
pub mod Governor
