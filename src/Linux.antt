-- ===== src/Linux.antt =====
-- server_impl_linux.c: the main thread, the worker threads and their clients.
pub mod Client
pub mod Dispatch
pub mod Epoll
pub mod Messages
pub mod Server
pub mod Socket
mod Tests
pub mod Worker
