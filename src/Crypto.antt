-- ===== src/Crypto.antt =====
-- daisyway/src/internal/daisyway/crypto: the key exchange protocol.
pub mod Key
pub mod HashDomain
pub mod Basics
pub mod World
pub mod Server
pub mod Client
pub mod Agreement
pub mod Toys
mod Tests
