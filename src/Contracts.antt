-- ===== src/Contracts.antt =====
-- packages/contracts/src: the shared data that every other part of the engine speaks.
mod Json
mod Results
mod World
mod Turns
mod Snapshots
pub mod Permissions
unfoldable pub use Json.*
unfoldable pub use Results.*
unfoldable pub use World.*
unfoldable pub use Turns.*
unfoldable pub use Snapshots.*
