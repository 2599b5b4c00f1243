-- ===== src/Session.antt =====
-- internal/pkg/session/types.go: the user of a session and the keys made of it.
mod Keys
pub mod Store
pub mod Lifetime
mod Examples
unfoldable pub use Keys.*
