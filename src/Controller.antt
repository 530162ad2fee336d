-- ===== src/Controller.antt =====
-- The controller: what it enforces, counts and stores (crates/rps-controller/src).
pub mod UdpRelay
pub mod Pipe
pub mod TcpTunnel
pub mod Policy
pub mod Sql
pub mod Db
pub mod Traffic
pub mod Routes
pub mod TunnelManager
pub mod ProxyManager
pub mod Streams
pub mod App
pub mod Socks5
pub mod HttpProxy
pub mod Bridge
pub mod Web
pub mod Tests
