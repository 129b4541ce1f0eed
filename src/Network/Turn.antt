-- ===== src/Network/Turn.antt =====
-- The TURN client (src/network/turn.rs): the Allocate request, the challenge of a 401 answer, and
-- the relay address. MD5, SHA-1 and the lossy UTF-8 decoder are parameters.
pub mod Hmac
pub mod Request
pub mod Challenge
pub mod Allocate
pub mod Exchange
pub mod Relay
pub mod Signed
pub mod RoundTrip
