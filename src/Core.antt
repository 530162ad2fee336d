-- ===== src/Core.antt =====
-- crates/rps-core: the messages and the encrypted channel that both programs share.
pub mod Config
pub mod Protocol
pub mod Psk
pub mod Noise
pub mod Tests
