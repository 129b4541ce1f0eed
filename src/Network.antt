-- ===== src/Network.antt =====
-- The network layer (src/network): STUN and TURN messages, framing, and NAT traversal.
pub mod Wire
pub mod Address
pub mod Stun
pub mod Turn
pub mod Transport
pub mod Traversal
