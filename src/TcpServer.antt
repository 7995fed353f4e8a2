-- ===== src/TcpServer.antt =====
-- daisyway/src/internal/daisyway/net/tcp_server: the server's connections.
pub mod BTreeMap
pub mod Events
pub mod Tasks
pub mod Manager
pub mod Fanout
pub mod Running
pub mod Listener
mod Tests
