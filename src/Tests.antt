-- ===== src/Tests.antt =====
-- The theorems at concrete inputs, and runs of the definitions.
pub mod Accepting
pub mod Countries
pub mod Dashboard
pub mod Data
pub mod Gateway
pub mod Handlers
pub mod Health
pub mod Lifecycle
pub mod Members
pub mod Proxy
pub mod Retry
pub mod System
pub mod Tunnels
pub mod WgServer
