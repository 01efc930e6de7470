-- ===== src/Frame.antt =====
-- What FRAME gives every pallet: outcomes of calls and storage layers (Base), and rules for how
-- calls move the state (Within), and for calls that do not panic (Calm).
mod Base
pub mod Within
pub mod Calm
unfoldable pub use Base.*
