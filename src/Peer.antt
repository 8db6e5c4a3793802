-- ===== src/Peer.antt =====
-- plugins/peer/: the other boxes, mirrored.
pub mod Store
pub mod Liveness
pub mod Mirror
