-- ===== src/Windows.antt =====
-- server_impl_windows.c: the server on completion ports.
pub mod Client
pub mod Options
pub mod Run
pub mod Service
pub mod Start
pub mod Text
mod Tests
