-- ===== src/Mux.antt =====
-- crates/rps-mux: many streams over one connection.
pub mod Frame
pub mod Session
pub mod Tests
