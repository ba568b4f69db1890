-- ===== src/Bgp.antt =====
-- internal/bgp: the routes that the daemon originates through the embedded GoBGP server.
pub mod Communities
pub mod Accepted
pub mod Gobgp
pub mod Manager
pub mod Peers
pub mod Negotiates
pub mod Ranks
