-- ===== src/Proxy.antt =====
-- The package proxy (internal/proxy): the SOCKS5 server that balances over the healthy tunnels, and
-- the proxy that retries over several backends.
pub mod Socks
pub mod Picker
pub mod Conn
pub mod Countries
pub mod Accepting
pub mod Connection
pub mod Retry
pub mod Itoa
