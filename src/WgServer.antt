-- ===== src/WgServer.antt =====
-- The package wgserver (internal/wgserver): the VPN server's clients and their addresses.
pub mod Peers
pub mod Addresses
pub mod Routing
pub mod Keys
pub mod Keypair
pub mod Server
pub mod Gateway
pub mod Network
pub mod Members
