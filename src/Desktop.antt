-- ===== src/Desktop.antt =====
-- apps/dashboard/src/lib/desktop.ts: the windows of the desktop and what the browser keeps of them.
-- Coordinates are integers, sizes and bounds natural numbers; the text of a JSON value is any type.
mod Types
mod Operations
pub mod Windows
pub mod Actions
pub mod Steps
pub mod Viewport
pub mod Reload
mod Tests
unfoldable pub use Types.*
unfoldable pub use Operations.*
