-- ===== src/Conn.antt =====
-- internal/ws/conn/conn.go.
mod Defs
pub mod Settings
pub mod Sending
pub mod Closing
pub mod Loops
pub mod Counting
mod Examples
pub use Defs.*
